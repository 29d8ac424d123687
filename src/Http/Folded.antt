-- ===== src/Http/Folded.antt =====
-- The first header of a second request on one connection.
use shellinabox.Base.{
  ℕ, ◌≡◌, ◌∙◌, Bool, true, false, some, [], Bytes, get_or, arith, inl, inr, Bool-cases,
  Option-cases,
}
use shellinabox.Trie.{Node}
use shellinabox.Http.{command, sniffing_ssl, HttpConnection, Env, get_header}
use shellinabox.Http.Line.{is_space, parse_command}
use shellinabox.Http.Command.{Handler}
use shellinabox.Http.Machine.{is_state, http_set_state, http_finish_command}
use shellinabox.Http.Loop.{
  aborted, good, continue_header, http_parse_headers, http_parse_command, to_parsed, to_bad,
}

module _ (env : Env) where
  -- The key of the last header stays, and the headers do not.
  abbrev Forgets : HttpConnection → HttpConnection → Type 0
  Forgets c d = (d.header ≡ []) × (d.key ≡ c.key) × (d.state ≡ command)

  finish-key : (c d : HttpConnection) → http_finish_command env c ≡ some d → d.key ≡ c.key
  unfolding http_finish_command
  finish-key c d e = ground arith

  set_state-Forgets :
      (c d : HttpConnection)
      → is_state command c.state ≡ false
      → http_set_state env command c ≡ some d
      → Forgets c d
  unfolding http_set_state
  set_state-Forgets c d s e = elim (Bool-cases (is_state c.state sniffing_ssl)) [
    | inl n ↦ ground (arith, s, n, e)
    | inr n ↦ elim (Option-cases (http_finish_command env c)) [
      | inl k ↦ absurd (ground (arith, s, n, k, e))
      | inr (f, k) ↦ ground (arith, s, n, k, e, finish-key c f k)
    ]
  ]

  -- A request line changes neither.
  parse_command-keeps :
      (c d : HttpConnection) (line : Bytes)
      → c.state ≡ command
      → http_parse_command env line c ≡ good d
      → (d.header ≡ c.header) × (d.key ≡ c.key)
  unfolding http_parse_command to_parsed to_bad http_set_state
  parse_command-keeps c d line s e = elim (Option-cases (parse_command line)) [
    | inl n ↦ absurd (ground (arith, n, s, e))
    | inr (l, k) ↦ ground (arith, k, s, e)
  ]

  continue_header-stale :
      (c : HttpConnection) (key line : Bytes)
      → c.header ≡ []
      → c.key ≡ some key
      → continue_header line c ≡ aborted
  unfolding continue_header get_header
  continue_header-stale c key line h k = ground (arith, h, k)

  -- If a connection has read a header, is then set back to COMMAND, and reads a request line,
  -- then a check fails on a header line that begins with a space or a tab: the server stops.
  pub http_parse_headers-stale :
      (handlers : Node Handler) (port : ℕ) (full : Bool) (a b c : HttpConnection)
      (key line fold : Bytes)
      → is_state command a.state ≡ false
      → a.key ≡ some key
      → http_set_state env command a ≡ some b
      → http_parse_command env line b ≡ good c
      → is_space (get_or fold 0 0) ≡ true
      → http_parse_headers env handlers port full fold c ≡ aborted
  unfolding http_parse_headers
  http_parse_headers-stale handlers port full a b c key line fold s k e f h =
      let forgot = set_state-Forgets a b s e in
      let kept = parse_command-keeps b c line forgot.2 f in
      rw h (continue_header-stale c key fold (kept.0 ∙ forgot.0) (kept.1 ∙ forgot.1 ∙ k))
