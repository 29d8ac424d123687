-- ===== src/Http/End.antt =====
-- The end of a connection: the end of its input in `httpHandleConnection`, and
-- `destroyHttpConnection`.
use shellinabox.Base.{
  ℕ, ◌≡◌, refl, sym, ap, ◌∙◌, Bool, true, false, not, ◌&&◌, ◌||◌, Option, none, some, ◌∷◌,
  if◌then◌else◌, arith, inl, inr, ◌⊎◌, Bool-cases, Option-cases,
}
use mathlib.Core.Path.{subst}
use shellinabox.Trie.{Node}
use shellinabox.Http.{
  State, sniffing_ssl, command, headers, payload, discard_payload, finished, HttpConnection, Env,
}
use shellinabox.Http.Command.{Handler}
use shellinabox.Http.Machine.{
  is_final, is_state, is_complete, close_read, make_call, answer, http_set_state,
  http_finish_command, http_handle_command,
}
use shellinabox.Base.{Leaves}

-- The branches on the state when the peer has closed the connection.
unfoldable pub end_of_file : Env → Node Handler → ℕ → State → HttpConnection → Option HttpConnection
unfolding is_complete close_read
end_of_file env handlers port headers c =
    if is_complete c.expecting
    then elim (http_handle_command env handlers port (record c { callback = false })) [
      | none ↦ none
      | some (d, rc) ↦ http_set_state env command (close_read d)
    ]
    else none
end_of_file env handlers port sniffing_ssl c = some c
end_of_file env handlers port command c = some c
end_of_file env handlers port _ c =
    http_set_state env command (close_read (record c { expecting = some 0 }))

-- The call for a connection that waits for a reply.
unfoldable pub tell_end : Env → HttpConnection → HttpConnection
unfolding make_call
tell_end env c =
    if not c.done && (c.callback || c.websocket_handler) then make_call env finished c else c

-- `destroyHttpConnection`, but for the system's calls and the memory.
unfoldable pub destroy_http_connection : Env → HttpConnection → Option HttpConnection
unfolding tell_end
destroy_http_connection env c =
    if c.is_suspended || c.is_partial_reply
    then http_set_state env command (record (tell_end env c) {
      callback = false;
      is_suspended = false;
      is_partial_reply = false;
    })
    else http_set_state env command c

-- What has been called when a request ends with a connection.
abbrev pub Tells : HttpConnection → HttpConnection → Type 0
Tells c d =
    (d.state ≡ command)
    × (d.callback ≡ false)
    × (d.log ≡ (if c.callback && not c.done then finished ∷ c.log else c.log))

not_command :
    (c : HttpConnection)
    → (c.state ≡ payload) ⊎ (c.state ≡ discard_payload)
    → is_state command c.state ≡ false
unfolding is_state
not_command c s = ground (arith, s)

not_sniffing :
    (c : HttpConnection)
    → (c.state ≡ payload) ⊎ (c.state ≡ discard_payload)
    → is_state c.state sniffing_ssl ≡ false
unfolding is_state
not_sniffing c s = ground (arith, s)

-- A property of the connection that is left; a check fails only where the callback asks to wait at
-- the end.
abbrev pub Unless : Bool → (HttpConnection → Type 0) → Option HttpConnection → Type 0
Unless ends P none = ends ≡ false
Unless ends P (some d) = P d

-- The callback, if it is called at the end, is done.
unfoldable pub ends_well : Env → HttpConnection → Bool
unfolding answer is_final
ends_well env c = not (c.callback && not c.done) || is_final (answer env c).rc

module _ (env : Env) where
  finish-log :
      (c d : HttpConnection)
      → c.websocket_handler ≡ false
      → http_finish_command env c ≡ some d
      → d.log ≡ (if c.callback && not c.done then finished ∷ c.log else c.log)
  unfolding http_finish_command make_call
  finish-log c d w e = ground (arith, w, e)

  finish-none :
      (c : HttpConnection)
      → c.websocket_handler ≡ false
      → http_finish_command env c ≡ none
      → ends_well env c ≡ false
  unfolding http_finish_command ends_well
  finish-none c w e = ground (arith, w, e)

  set_command-Tells :
      (c : HttpConnection)
      → is_state command c.state ≡ false
      → is_state c.state sniffing_ssl ≡ false
      → c.websocket_handler ≡ false
      → Unless (ends_well env c) (Tells c) (http_set_state env command c)
  unfolding http_set_state
  set_command-Tells c s n w = elim (Option-cases (http_finish_command env c)) [
    | inl k ↦ rw (s, n, k) (finish-none c w k)
    | inr (d, k) ↦ rw (s, n, k) (refl, refl, finish-log c d w k)
  ]

  -- The connection behind the first call.
  abbrev told : HttpConnection → HttpConnection
  told c = record (tell_end env c) {
    callback = false;
    is_suspended = false;
    is_partial_reply = false;
  }

  untold :
      (c : HttpConnection)
      → (c.is_suspended || c.is_partial_reply) ≡ false
      → destroy_http_connection env c ≡ http_set_state env command c
  unfolding destroy_http_connection
  untold c a = rw a refl

  when_told :
      (c : HttpConnection)
      → (c.is_suspended || c.is_partial_reply) ≡ true
      → destroy_http_connection env c ≡ http_set_state env command (told c)
  unfolding destroy_http_connection
  when_told c a = ground (arith, a)

  tell_end-told :
      (c : HttpConnection)
      → c.websocket_handler ≡ false
      → ((told c).state ≡ c.state)
        × ((told c).log ≡ (if c.callback && not c.done then finished ∷ c.log else c.log))
        × ((told c).websocket_handler ≡ c.websocket_handler)
  unfolding tell_end make_call
  tell_end-told c w = (ground (arith, w), ground (arith, w), ground (arith, w))

  told-Tells :
      (c t : HttpConnection)
      → t.log ≡ (if c.callback && not c.done then finished ∷ c.log else c.log)
      → t.callback ≡ false
      → (o : Option HttpConnection) → Unless (ends_well env t) (Tells t) o
      → Unless (ends_well env c) (Tells c) o
  unfolding ends_well
  told-Tells c t l k none h = absurd (ground (arith, k, h))
  told-Tells c t l k (some d) h = (h.0, h.1, ground (arith, h.2, l, k))

  -- When destroyHttpConnection ends a connection in the middle of a request, without a web
  -- socket, then a callback that is set is told the end exactly once if the request is not
  -- done, and not at all if it is; the callback is forgotten, the state is COMMAND, and a check
  -- fails only where that callback asks to wait.
  pub destroy-Tells :
      (c : HttpConnection)
      → is_state command c.state ≡ false
      → is_state c.state sniffing_ssl ≡ false
      → c.websocket_handler ≡ false
      → Unless (ends_well env c) (Tells c) (destroy_http_connection env c)
  unfolding destroy_http_connection
  destroy-Tells c s n w = elim (Bool-cases (c.is_suspended || c.is_partial_reply)) [
    | inr a ↦
        subst (Unless (ends_well env c) (Tells c)) (sym (untold c a)) (set_command-Tells c s n w)
    | inl a ↦
        let t = tell_end-told c w in
        subst (Unless (ends_well env c) (Tells c)) (sym (when_told c a)) (
          told-Tells c (told c) t.1 refl (http_set_state env command (told c)) (
            set_command-Tells (told c) (ap (is_state command) t.0 ∙ s)
              (ap (λ x. is_state x sniffing_ssl) t.0 ∙ n) (t.2 ∙ w)))
  ]

  finish-closed :
      (c d : HttpConnection)
      → c.closed ≡ true
      → http_finish_command env c ≡ some d
      → d.closed ≡ true
  unfolding http_finish_command make_call
  finish-closed c d o e = ground (arith, o, e)

  set_command-closed :
      (c : HttpConnection)
      → is_state command c.state ≡ false
      → is_state c.state sniffing_ssl ≡ false
      → c.closed ≡ true
      → Leaves (λ d. d.closed ≡ true) (http_set_state env command c)
  unfolding http_set_state
  set_command-closed c s n o = elim (Option-cases (http_finish_command env c)) [
    | inl k ↦ rw (s, n, k) tt
    | inr (d, k) ↦ rw (s, n, k) (finish-closed c d o k)
  ]

  behind_eof :
      (handlers : Node Handler) (port : ℕ) (c : HttpConnection)
      → (c.state ≡ payload) ⊎ (c.state ≡ discard_payload)
      → end_of_file env handlers port c.state c
        ≡ http_set_state env command (close_read (record c { expecting = some 0 }))
  unfolding end_of_file
  behind_eof handlers port c (inl s) = ap (λ q. end_of_file env handlers port q c) s
  behind_eof handlers port c (inr s) = ap (λ q. end_of_file env handlers port q c) s

  both :
      (ends : Bool) (P Q : HttpConnection → Type 0) (o : Option HttpConnection)
      → Unless ends P o
      → Leaves Q o
      → Unless ends (λ d. P d × Q d) o
  both ends P Q none p q = p
  both ends P Q (some d) p q = (p, q)

  -- When the peer closes a connection in the middle of a payload, without a web socket, then a
  -- callback that is set is told the end exactly once if the request is not done, and not at
  -- all if it is; the callback is forgotten, the connection closed and the state COMMAND, and a
  -- check fails only where that callback asks to wait.
  pub end_of_file-Tells :
      (handlers : Node Handler) (port : ℕ) (c : HttpConnection)
      → (c.state ≡ payload) ⊎ (c.state ≡ discard_payload)
      → c.websocket_handler ≡ false
      → Unless
          (ends_well env c)
          (λ d. Tells c d × (d.closed ≡ true))
          (end_of_file env handlers port c.state c)
  unfolding close_read ends_well
  end_of_file-Tells handlers port c s w =
      let e : HttpConnection = close_read (record c { expecting = some 0 }) in
      let a : is_state command e.state ≡ false = not_command c s in
      let b : is_state e.state sniffing_ssl ≡ false = not_sniffing c s in
      subst (Unless (ends_well env c) (λ d. Tells c d × (d.closed ≡ true)))
        (sym (behind_eof handlers port c s))
        (both (ends_well env c) (Tells c) (λ d. d.closed ≡ true) (http_set_state env command e)
          (set_command-Tells e a b w) (set_command-closed e a b refl))

  -- When destroyHttpConnection ends a connection in the middle of a request, or the peer closes
  -- one in the middle of a payload, without a web socket, then a callback that is set is told
  -- the end exactly once if the request is not done, and not at all if it is; the callback is
  -- forgotten and the state is COMMAND, in the second case the connection is closed, and a
  -- check fails only where that callback asks to wait.
  pub ends-Tells :
      (handlers : Node Handler) (port : ℕ) (c d : HttpConnection)
      → is_state command c.state ≡ false
      → is_state c.state sniffing_ssl ≡ false
      → c.websocket_handler ≡ false
      → (d.state ≡ payload) ⊎ (d.state ≡ discard_payload)
      → d.websocket_handler ≡ false
      → Unless (ends_well env c) (Tells c) (destroy_http_connection env c)
        × Unless
            (ends_well env d)
            (λ e. Tells d e × (e.closed ≡ true))
            (end_of_file env handlers port d.state d)
  ends-Tells handlers port c d s n w t v =
      (destroy-Tells c s n w, end_of_file-Tells handlers port d t v)
