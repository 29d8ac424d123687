-- ===== src/Http/Idle/Lines.antt =====
-- Between requests nothing is expected: the lines of a request.
use shellinabox.Base.{
  ℕ, ◌≡◌, sym, Bool, false, ◌&&◌, Option, none, some, [], ◌∷◌, ◌++◌, Bytes, ◌==◌, ◌==ˢ◌, get_or,
  arith, inl, inr, Bool-cases, Option-cases, length, drop,
}
use mathlib.Core.Path.{subst}
use shellinabox.Url.{c_string}
use shellinabox.Trie.{Node}
use shellinabox.Base.{Leaves}
use shellinabox.Http.{command, headers, HttpConnection, Env, get_header}
use shellinabox.Http.Line.{folded, is_space, parse_command, parse_field}
use shellinabox.Http.Command.{Handler}
use shellinabox.Http.Machine.{
  is_state, is_complete, http_set_state, refuse_with, end_headers, http_handle_command, settle,
  more_headers,
}
use shellinabox.Http.Loop.{
  set_header, Parsed, aborted, bad, good, is_null, to_parsed, to_bad, http_parse_command,
  continue_header, add_field, http_parse_headers, parse_line,
}
use shellinabox.Http.Idle.{IsIdle, leaves, set_command-IsIdle, settle-IsIdle, more_headers-IsIdle}

abbrev pub Parses : Parsed → Type 0
Parses aborted = Unit
Parses (bad c) = IsIdle c
Parses (good c) = IsIdle c

parses : {p p' : Parsed} → p ≡ p' → Parses p' → Parses p
parses e h = subst Parses (sym e) h

to_parsed-IsIdle : (o : Option HttpConnection) → Leaves IsIdle o → Parses (to_parsed o)
unfolding to_parsed
to_parsed-IsIdle none h = tt
to_parsed-IsIdle (some c) h = h

to_bad-IsIdle : (o : Option HttpConnection) → Leaves IsIdle o → Parses (to_bad o)
unfolding to_bad
to_bad-IsIdle none h = tt
to_bad-IsIdle (some c) h = h

module _ (env : Env) where
  set_headers-IsIdle :
      (c : HttpConnection) → c.expecting ≡ some 0 → Leaves IsIdle (http_set_state env headers c)
  unfolding http_set_state is_state
  set_headers-IsIdle c x = elim (Bool-cases (is_state headers c.state)) [
    | inl s ↦ rw s (λ l. x)
    | inr s ↦ rw s (λ l. x)
  ]

  parse_command-IsIdle :
      (line : Bytes) (c : HttpConnection)
      → c.expecting ≡ some 0
      → Parses (http_parse_command env line c)
  unfolding http_parse_command refuse_with
  parse_command-IsIdle line c x = elim (Option-cases (parse_command line)) [
    | inl n ↦
        parses {p' = to_bad (http_set_state env command (refuse_with 400 c))} (ground (arith, n)) (
          to_bad-IsIdle (http_set_state env command (refuse_with 400 c))
            (set_command-IsIdle env (refuse_with 400 c) x))
    | inr (l, k) ↦ elim (Bool-cases (is_null c.method && is_null c.path && is_null c.version)) [
      | inr b ↦ parses {p' = aborted} (ground (arith, k, b)) tt
      | inl b ↦
          let d : HttpConnection = record c {
            method = some l.method;
            path = some l.path;
            version = some l.version;
          } in
          parses {p' = to_parsed (http_set_state env headers d)} (ground (arith, k, b))
            (to_parsed-IsIdle (http_set_state env headers d) (set_headers-IsIdle d x))
    ]
  ]

continue_header-IsIdle :
    (line : Bytes) (c : HttpConnection) → c.expecting ≡ some 0 → Parses (continue_header line c)
unfolding continue_header
continue_header-IsIdle line c x = elim (Option-cases c.key) [
  | inl n ↦ parses {p' = good c} (ground (arith, n)) (λ l. x)
  | inr (key, k) ↦ elim (Option-cases (get_header key c.header)) [
    | inl n ↦ parses {p' = aborted} (ground (arith, k, n)) tt
    | inr (old, o) ↦
        let value = c_string (old ++ b' ' ∷ folded (drop 1 line)) in
        parses {p' = good (record c { header = set_header key value c.header })}
          (ground (arith, k, o)) (λ l. x)
  ]
]

add_field-IsIdle :
    (line : Bytes) (c : HttpConnection) → c.expecting ≡ some 0 → Parses (add_field line c)
unfolding add_field refuse_with
add_field-IsIdle line c x = elim (Option-cases (parse_field line)) [
  | inl n ↦ parses {p' = bad (refuse_with 400 c)} (ground (arith, n)) (λ l. x)
  | inr ((key, value), k) ↦ elim (Option-cases (get_header key c.header)) [
    | inl n ↦
        parses {p' = good (record c { key = some key; header = (key, value) ∷ c.header })}
          (ground (arith, k, n)) (λ l. x)
    | inr (old, o) ↦ parses {p' = good (record c { key = none })} (ground (arith, k, o)) (λ l. x)
  ]
]

module _ (env : Env) (handlers : Node Handler) (port : ℕ) where
  end_headers-IsIdle : (c : HttpConnection) → Leaves IsIdle (end_headers env handlers port c)
  unfolding end_headers
  end_headers-IsIdle c = elim (Bool-cases (is_complete c.expecting)) [
    | inr e ↦ leaves {o' = none} (ground (arith, e)) tt
    | inl e ↦
        elim (Option-cases
          (http_handle_command env handlers port (record c { callback = false }))) [
            | inl k ↦ leaves {o' = none} (ground (arith, e, k)) tt
            | inr ((d, rc), k) ↦
                leaves {o' = settle env (more_headers env) rc d} (ground (arith, e, k)) (
                  settle-IsIdle env (more_headers env) rc d (
                    more_headers-IsIdle env
                      (record d { is_suspended = false; is_partial_reply = false })))
          ]
  ]

  parse_headers-IsIdle :
      (full : Bool) (line : Bytes) (c : HttpConnection)
      → c.expecting ≡ some 0
      → Parses (http_parse_headers env handlers port full line c)
  unfolding http_parse_headers
  parse_headers-IsIdle full line c x = elim (Bool-cases (is_space (get_or line 0 0))) [
    | inl a ↦
        parses {p' = continue_header line c} (ground (arith, a)) (continue_header-IsIdle line c x)
    | inr a ↦ elim (Bool-cases (full && (line ==ˢ 13 ∷ []))) [
      | inl b ↦
          parses {p' = to_parsed (end_headers env handlers port c)} (ground (arith, a, b))
            (to_parsed-IsIdle (end_headers env handlers port c) (end_headers-IsIdle c))
      | inr b ↦ parses {p' = add_field line c} (ground (arith, a, b)) (add_field-IsIdle line c x)
    ]
  ]

  pub parse_line-IsIdle :
      (full : Bool) (line : Bytes) (c : HttpConnection)
      → c.expecting ≡ some 0
      → Parses (parse_line env handlers port full line c)
  unfolding parse_line
  parse_line-IsIdle full line c x = elim (Bool-cases (length line == 0)) [
    | inl a ↦ parses {p' = good c} (ground (arith, a)) (λ l. x)
    | inr a ↦ elim (Bool-cases (is_state c.state headers)) [
      | inl b ↦
          parses {p' = http_parse_headers env handlers port full line c} (ground (arith, a, b))
            (parse_headers-IsIdle full line c x)
      | inr b ↦
          parses {p' = http_parse_command env line c} (ground (arith, a, b))
            (parse_command-IsIdle env line c x)
    ]
  ]
