-- ===== src/Http/Idle.antt =====
-- Between requests nothing is expected: the states of a connection.
pub mod Lines
pub mod Process
pub mod History
use shellinabox.Base.{
  ℕ, ◌≡◌, ◌≢◌, refl, sym, ap, ◌∙◌, Bool, true, false, ◌||◌, ◌&&◌, not, Option, none, some, List, [],
  ◌∷◌, Bytes, if◌then◌else◌, ◌==◌, arith, inl, inr, ◌⊎◌, Bool-cases, Option-cases, length, take,
  drop,
}
use mathlib.Core.Path.{subst}
use shellinabox.Payload.{
  Rc, http_done, http_error, http_read_more, http_suspend, http_partial_reply,
}
use shellinabox.Base.{Leaves}
use shellinabox.Http.{
  State, sniffing_ssl, command, headers, payload, discard_payload, websocket, HttpConnection, Env,
  passed, opened,
}
use shellinabox.Http.Machine.{
  is_state, number, is_complete, is_unknown, http_set_state, http_finish_command, conclude,
  wait_for_payload, settle, await_body, more_headers, more_payload, http_consume_payload, resume,
  make_call, answer, left_of, consumed_of, close_if,
}

-- A connection that waits for a line.
unfoldable pub is_line : State → Bool
is_line sniffing_ssl = true
is_line command = true
is_line headers = true
is_line _ = false

-- A connection that waits for a line expects nothing else.
abbrev pub IsIdle : HttpConnection → Type 0
IsIdle c = is_line c.state ≡ true → c.expecting ≡ some 0

pub busy : (c : HttpConnection) → is_line c.state ≡ false → IsIdle c
busy c h l = absurd (ground (arith, h, l))

pub is_complete-zero : (x : Option ℕ) → is_complete x ≡ true → x ≡ some 0
unfolding is_complete
is_complete-zero none e = absurd (ground arith)
is_complete-zero (some n) e = ground arith

same-busy : (s t : State) → is_state s t ≡ true → is_line s ≡ false → is_line t ≡ false
unfolding is_state is_line number
same-busy s t e h = ground (arith, e, h)

not_command : (s : State) → is_line s ≡ false → is_state s command ≡ false
unfolding is_state is_line number
not_command s h = ground (arith, h)

waiting-busy :
    (s : State) → (is_state s payload || is_state s discard_payload) ≡ true → is_line s ≡ false
unfolding is_state is_line number
waiting-busy s e = ground (arith, e)

websocket-busy : (s : State) → is_state s websocket ≡ true → is_line s ≡ false
unfolding is_state is_line number
websocket-busy s e = ground (arith, e)

pub leaves : {o o' : Option HttpConnection} → o ≡ o' → Leaves IsIdle o' → Leaves IsIdle o
leaves e h = subst (Leaves IsIdle) (sym e) h

module _ (env : Env) where
  finish-expecting :
      (c d : HttpConnection) → http_finish_command env c ≡ some d → d.expecting ≡ c.expecting
  unfolding http_finish_command
  finish-expecting c d e = ground arith

  pub set_command-IsIdle :
      (c : HttpConnection) → c.expecting ≡ some 0 → Leaves IsIdle (http_set_state env command c)
  unfolding http_set_state
  set_command-IsIdle c x = elim (Bool-cases (is_state command c.state)) [
    | inl s ↦ rw s (λ l. x)
    | inr s ↦ elim (Bool-cases (is_state c.state sniffing_ssl)) [
      | inl n ↦ rw (s, n) (λ l. x)
      | inr n ↦ elim (Option-cases (http_finish_command env c)) [
        | inl k ↦ rw (s, n, k) tt
        | inr (f, k) ↦ rw (s, n, k) (λ l. finish-expecting c f k ∙ x)
      ]
    ]
  ]

  pub set_busy-IsIdle :
      (s : State) (c : HttpConnection) → is_line s ≡ false → Leaves IsIdle (http_set_state env s c)
  unfolding http_set_state
  set_busy-IsIdle s c h = elim (Bool-cases (is_state s c.state)) [
    | inl e ↦ rw e (busy c (same-busy s c.state e h))
    | inr e ↦ rw (e, not_command s h) (λ l. absurd (ground (arith, h, l)))
  ]

  conclude-IsIdle : (failed : Bool) (c : HttpConnection) → Leaves IsIdle (conclude env failed c)
  unfolding conclude close_if is_line
  conclude-IsIdle failed c = elim (Bool-cases (is_complete c.expecting)) [
    | inl e ↦ rw e (set_command-IsIdle _ (is_complete-zero c.expecting e))
    | inr e ↦ rw e (set_busy-IsIdle discard_payload _ refl)
  ]

  wait_for_payload-IsIdle : (c : HttpConnection) → Leaves IsIdle (wait_for_payload env c)
  unfolding wait_for_payload is_line
  wait_for_payload-IsIdle c =
      elim (Bool-cases (is_state c.state payload || is_state c.state discard_payload)) [
        | inl e ↦ rw e (busy c (waiting-busy c.state e))
        | inr e ↦ elim (Bool-cases (is_state c.state headers)) [
          | inl h ↦ rw (e, h) (set_busy-IsIdle payload c refl)
          | inr h ↦ rw (e, h) tt
        ]
      ]

  pub settle-IsIdle :
      (read_more : HttpConnection → Option HttpConnection) (rc : Rc) (c : HttpConnection)
      → Leaves IsIdle (read_more (record c { is_suspended = false; is_partial_reply = false }))
      → Leaves IsIdle (settle env read_more rc c)
  unfolding settle
  settle-IsIdle read_more http_done c h = conclude-IsIdle false c
  settle-IsIdle read_more http_error c h = conclude-IsIdle true c
  settle-IsIdle read_more http_read_more c h = h
  settle-IsIdle read_more http_suspend c h =
      wait_for_payload-IsIdle (record c { is_suspended = true; is_partial_reply = false })
  settle-IsIdle read_more http_partial_reply c h =
      wait_for_payload-IsIdle (record c { is_suspended = false; is_partial_reply = true })

  await_body-IsIdle : (c : HttpConnection) → Leaves IsIdle (await_body env c)
  unfolding await_body is_line
  await_body-IsIdle c = elim (Bool-cases (is_state c.state websocket)) [
    | inl w ↦ rw w (busy c (websocket-busy c.state w))
    | inr w ↦ elim (Bool-cases (is_complete c.expecting)) [
      | inl e ↦ rw (w, e) (set_command-IsIdle c (is_complete-zero c.expecting e))
      | inr e ↦ rw (w, e) (set_busy-IsIdle payload c refl)
    ]
  ]

  pub more_headers-IsIdle : (c : HttpConnection) → Leaves IsIdle (more_headers env c)
  unfolding more_headers
  more_headers-IsIdle c = elim (Bool-cases c.done) [
    | inl d ↦ leaves {o' = none} (ground (arith, d)) tt
    | inr d ↦ elim (Bool-cases (is_complete c.expecting)) [
      | inr e ↦ leaves {o' = await_body env c} (ground (arith, d, e)) (await_body-IsIdle c)
      | inl e ↦ elim (Bool-cases c.callback) [
        | inl k ↦
            leaves
              {o' = settle env (await_body env) (answer env c).rc (make_call env (passed []) c)}
              (ground (arith, d, e, k))
              (settle-IsIdle (await_body env) (answer env c).rc (make_call env (passed []) c) (
                await_body-IsIdle (record (make_call env (passed []) c) {
                  is_suspended = false;
                  is_partial_reply = false;
                })))
        | inr k ↦ elim (Bool-cases c.websocket_handler) [
          | inl w ↦
              leaves {o' = await_body env (record c { log = opened ∷ c.log })}
                (ground (arith, d, e, k, w)) (await_body-IsIdle (record c { log = opened ∷ c.log }))
          | inr w ↦
              leaves {o' = await_body env c} (ground (arith, d, e, k, w)) (await_body-IsIdle c)
        ]
      ]
    ]
  ]

  more_payload-IsIdle :
      (c : HttpConnection) → is_line c.state ≡ false → Leaves IsIdle (more_payload env c)
  unfolding more_payload
  more_payload-IsIdle c h = elim (Bool-cases (is_complete c.expecting)) [
    | inl e ↦ rw e (set_command-IsIdle c (is_complete-zero c.expecting e))
    | inr e ↦ rw e (busy c h)
  ]

  pub consume_payload-IsIdle :
      (buf : Bytes) (c : HttpConnection)
      → is_line c.state ≡ false
      → Leaves IsIdle (http_consume_payload env buf c)
  unfolding http_consume_payload make_call
  consume_payload-IsIdle buf c h =
      let len = consumed_of c.expecting (length buf) in
      let d : HttpConnection = record c { expecting = left_of c.expecting (length buf) } in
      elim (Bool-cases c.callback) [
        | inl k ↦ elim (Bool-cases c.done) [
          | inl o ↦ leaves {o' = none} (ground (arith, k, o)) tt
          | inr o ↦
              let e = make_call env (passed (take len buf)) d in
              leaves {o' = settle env (more_payload env) (answer env d).rc e} (ground (arith, k, o))
                (settle-IsIdle (more_payload env) (answer env d).rc e (
                  more_payload-IsIdle (record e { is_suspended = false; is_partial_reply = false })
                    h))
        ]
        | inr k ↦ elim (Bool-cases (is_unknown c.expecting)) [
          | inl u ↦
              leaves
                {o' = http_set_state env command (record d { expecting = some 0; closed = true })}
                (ground (arith, k, u))
                (set_command-IsIdle (record d { expecting = some 0; closed = true }) refl)
          | inr u ↦ leaves {o' = some d} (ground (arith, k, u)) (busy d h)
        ]
      ]

  pub resume-IsIdle : (c : HttpConnection) → IsIdle c → Leaves IsIdle (resume env c)
  unfolding resume is_line
  resume-IsIdle c h = elim (Bool-cases (c.is_suspended || c.is_partial_reply)) [
    | inr a ↦ leaves {o' = some c} (ground (arith, a)) h
    | inl a ↦ elim (Bool-cases (is_state c.state payload || is_state c.state discard_payload)) [
      | inr b ↦ leaves {o' = none} (ground (arith, a, b)) tt
      | inl b ↦ elim (Bool-cases c.is_partial_reply) [
        | inl p ↦ leaves {o' = some c} (ground (arith, a, b, p)) h
        | inr p ↦ elim (Bool-cases (is_unknown c.expecting)) [
          | inl u ↦
              leaves {o' = http_set_state env discard_payload (record c { closed = true })}
                (ground (arith, a, b, p, u))
                (set_busy-IsIdle discard_payload (record c { closed = true }) refl)
          | inr u ↦ elim (Bool-cases (is_complete c.expecting)) [
            | inr e ↦ leaves {o' = some c} (ground (arith, a, b, p, u, e)) h
            | inl e ↦ elim (Option-cases (http_set_state env command c)) [
              | inl k ↦ leaves {o' = none} (ground (arith, a, b, p, u, e, k)) tt
              | inr (d, k) ↦
                  leaves {o' = some (record d { is_suspended = false })}
                    (ground (arith, a, b, p, u, e, k))
                    (subst (Leaves IsIdle) k
                      (set_command-IsIdle c (is_complete-zero c.expecting e)))
            ]
          ]
        ]
      ]
    ]
  ]
