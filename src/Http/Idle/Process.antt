-- ===== src/Http/Idle/Process.antt =====
-- Between requests nothing is expected: the loop over what comes in.
use shellinabox.Base.{
  ℕ, zero, suc, ◌+◌, ◌-◌, ◌≡◌, refl, sym, ap, ◌∙◌, Bool, true, false, ◌||◌, Option, none, some, [],
  ◌∷◌, Bytes, ◌==◌, arith, inl, inr, Bool-cases, Option-cases, length, take, drop,
}
use mathlib.Core.Path.{subst}
use shellinabox.Trie.{Node}
use shellinabox.Base.{Leaves}
use shellinabox.Http.{
  State, sniffing_ssl, command, headers, payload, discard_payload, websocket, HttpConnection, Env,
}
use shellinabox.Http.Command.{Handler}
use shellinabox.Http.Machine.{is_state, is_complete, http_consume_payload, consumed_of, close_read}
use shellinabox.Http.Loop.{
  Parsed, aborted, bad, good, parse_line, Round, failed, halt, next, split_line, behind_line,
  line_round, behind_payload, http_parse_payload, behind_parsed, payload_round, websocket_round,
  round_at, round, Outcome, stopped, keep, after_round, process,
}
use shellinabox.Http.Idle.{is_line, IsIdle, busy, is_complete-zero, consume_payload-IsIdle}
use shellinabox.Http.Idle.Lines.{Parses, parse_line-IsIdle}

abbrev Turns : Round → Type 0
Turns failed = Unit
Turns (halt c rest) = IsIdle c
Turns (next c rest) = IsIdle c

-- The connection is idle where the loop ends.
abbrev pub Stops : Outcome → Type 0
Stops (stopped c rest) = IsIdle c
Stops _ = Unit

abbrev Takes : Option (HttpConnection × ℕ) → Type 0
Takes none = Unit
Takes (some (c, n)) = IsIdle c

turns : {t t' : Round} → t ≡ t' → Turns t' → Turns t
turns e h = subst Turns (sym e) h

takes : {o o' : Option (HttpConnection × ℕ)} → o ≡ o' → Takes o' → Takes o
takes e h = subst Takes (sym e) h

behind_line-Turns : (p : Parsed) (rest : Bytes) → Parses p → Turns (behind_line p rest)
unfolding behind_line
behind_line-Turns aborted rest h = tt
behind_line-Turns (bad c) rest h = h
behind_line-Turns (good c) rest h = h

behind_payload-Turns :
    (o : Option HttpConnection) (rest : Bytes) → Leaves IsIdle o → Turns (behind_payload o rest)
unfolding behind_payload
behind_payload-Turns none rest h = tt
behind_payload-Turns (some c) [] h = h
behind_payload-Turns (some c) (b ∷ rest) h = h

behind_parsed-Turns :
    (o : Option (HttpConnection × ℕ)) (input : Bytes) → Takes o → Turns (behind_parsed o input)
unfolding behind_parsed
behind_parsed-Turns none input h = tt
behind_parsed-Turns (some (c, n)) input h = behind_payload-Turns (some c) (drop n input) h

or_left : (a b : Bool) → (a || b) ≡ false → a ≡ false
or_left a b h = ground (arith, h)

-- A connection that is idle and expects something does not wait for a line.
expects-busy :
    (c : HttpConnection) → IsIdle c → is_complete c.expecting ≡ false → is_line c.state ≡ false
unfolding is_complete
expects-busy c h e = elim (Bool-cases (is_line c.state)) [
  | inl l ↦ absurd (ground (arith, h l, e))
  | inr l ↦ l
]

module _ (env : Env) where
  parse_payload-IsIdle :
      (held : ℕ) (input : Bytes) (c : HttpConnection)
      → is_line c.state ≡ false
      → Takes (http_parse_payload env held input c)
  unfolding http_parse_payload
  parse_payload-IsIdle held input c h = elim (Bool-cases (held == 0)) [
    | inl a ↦ elim (Option-cases (http_consume_payload env input c)) [
      | inl k ↦ takes {o' = none} (ground (arith, a, k)) tt
      | inr (d, k) ↦
          takes {o' = some (d, consumed_of c.expecting (length input))} (ground (arith, a, k))
            (subst (Leaves IsIdle) k (consume_payload-IsIdle env input c h))
    ]
    | inr a ↦ elim (Option-cases (http_consume_payload env (take held input) c)) [
      | inl k ↦ takes {o' = none} (ground (arith, a, k)) tt
      | inr (d, k) ↦
          let idle : IsIdle d =
            subst (Leaves IsIdle) k (consume_payload-IsIdle env (take held input) c h) in
          let first = consumed_of c.expecting (length (take held input)) in
          let rest = drop held input in
          elim (Bool-cases (is_complete d.expecting || length rest == 0)) [
            | inl b ↦ takes {o' = some (d, first)} (ground (arith, a, k, b)) idle
            | inr b ↦ elim (Option-cases (http_consume_payload env rest d)) [
              | inl m ↦ takes {o' = none} (ground (arith, a, k, b, m)) tt
              | inr (e, m) ↦
                  takes {o' = some (e, first + consumed_of d.expecting (length rest))}
                    (ground (arith, a, k, b, m))
                    (subst (Leaves IsIdle) m (
                      consume_payload-IsIdle env rest d (
                        expects-busy d idle
                          (or_left (is_complete d.expecting) (length rest == 0) b))))
            ]
          ]
    ]
  ]

  payload_round-Turns :
      (buffered : ℕ) (c : HttpConnection) (input : Bytes)
      → is_line c.state ≡ false
      → Turns (payload_round env buffered c input)
  unfolding payload_round
  payload_round-Turns buffered c input h =
      let len = consumed_of c.expecting (length input) in
      elim (Bool-cases (is_complete c.expecting)) [
        | inl e ↦ turns {t' = next c input} (ground (arith, e)) (busy c h)
        | inr e ↦ elim (Bool-cases (is_state c.state payload)) [
          | inl p ↦
              let o = http_parse_payload env (length input - buffered) (take len input) c in
              turns {t' = behind_parsed o input} (ground (arith, e, p)) (
                behind_parsed-Turns o input
                  (parse_payload-IsIdle (length input - buffered) (take len input) c h))
          | inr p ↦
              turns {t' = behind_payload (some c) (drop len input)} (ground (arith, e, p))
                (behind_payload-Turns (some c) (drop len input) (busy c h))
        ]
      ]

module _ (env : Env) (handlers : Node Handler) (port : ℕ)
    (frames : HttpConnection → Bytes → HttpConnection × Bool) (buffered : ℕ)
    (stays : (c : HttpConnection) (s : Bytes) → (frames c s).0.state ≡ c.state) where
  line_round-Turns :
      (eof : Bool) (c : HttpConnection) (input : Bytes)
      → Turns (line_round env handlers port eof c input)
  unfolding line_round
  line_round-Turns eof c input = elim (Bool-cases (is_complete c.expecting)) [
    | inr e ↦ turns {t' = failed} (ground (arith, e)) tt
    | inl e ↦
        let x = is_complete-zero c.expecting e in
        elim (Option-cases (split_line input)) [
          | inr ((l, r), k) ↦
              let p = parse_line env handlers port true l c in
              turns {t' = behind_line p r} (ground (arith, e, k))
                (behind_line-Turns p r (parse_line-IsIdle env handlers port true l c x))
          | inl n ↦ elim (Bool-cases eof) [
            | inl f ↦
                let p = parse_line env handlers port false input c in
                turns {t' = behind_line p []} (ground (arith, e, n, f))
                  (behind_line-Turns p [] (parse_line-IsIdle env handlers port false input c x))
            | inr f ↦ turns {t' = halt c input} (ground (arith, e, n, f)) (λ l. x)
          ]
        ]
  ]

  websocket_round-Turns :
      (c : HttpConnection) (input : Bytes)
      → is_line c.state ≡ false
      → Turns (websocket_round env handlers port frames buffered c input)
  unfolding websocket_round close_read
  websocket_round-Turns c input h =
      let f = (frames c input).0 in
      let kept : is_line f.state ≡ false = ap is_line (stays c input) ∙ h in
      elim (Bool-cases (frames c input).1) [
        | inl e ↦ turns {t' = next f []} (ground (arith, e)) (busy f kept)
        | inr e ↦
            turns {t' = halt (close_read f) input} (ground (arith, e)) (busy (close_read f) kept)
      ]

  round_at-Turns :
      (s : State) (eof : Bool) (c : HttpConnection) (input : Bytes)
      → c.state ≡ s
      → Turns (round_at env handlers port frames buffered s eof c input)
  unfolding round_at is_line
  round_at-Turns sniffing_ssl eof c input e = line_round-Turns eof c input
  round_at-Turns command eof c input e = line_round-Turns eof c input
  round_at-Turns headers eof c input e = line_round-Turns eof c input
  round_at-Turns payload eof c input e = payload_round-Turns env buffered c input (ap is_line e)
  round_at-Turns discard_payload eof c input e =
      payload_round-Turns env buffered c input (ap is_line e)
  round_at-Turns websocket eof c input e = websocket_round-Turns c input (ap is_line e)

  after_round-Stops :
      (r : Round) (on : HttpConnection → Bytes → Outcome)
      → Turns r
      → ((c : HttpConnection) (rest : Bytes) → IsIdle c → Stops (on c rest))
      → Stops (after_round r on)
  unfolding after_round keep
  after_round-Stops failed on h ih = tt
  after_round-Stops (halt c rest) on h ih = h
  after_round-Stops (next c rest) on h ih = elim (Bool-cases (length rest == 0 || c.closed)) [
    | inl e ↦ rw e h
    | inr e ↦ rw e (ih c rest h)
  ]

  pub process-Stops :
      (eof : Bool) (fuel : ℕ) (c : HttpConnection) (input : Bytes)
      → IsIdle c
      → Stops (process (round env handlers port frames buffered eof) fuel c input)
  unfolding process round
  process-Stops eof zero c input h = tt
  process-Stops eof (suc fuel) c input h =
      after_round-Stops (round_at env handlers port frames buffered c.state eof c input)
        (process (round env handlers port frames buffered eof) fuel)
        (round_at-Turns c.state eof c input refl) (process-Stops eof fuel)
