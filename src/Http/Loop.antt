-- ===== src/Http/Loop.antt =====
-- The loop of `httpHandleConnection` over the bytes that have come in.
use shellinabox.Base.{
  ℕ, zero, suc, ◌+◌, ◌-◌, Bool, true, false, ◌&&◌, ◌||◌, Option, none, some, List, [], ◌∷◌, ◌++◌,
  Bytes, ◌==◌, ◌==ˢ◌, if◌then◌else◌, get_or, length, take, drop,
}
use shellinabox.Url.{c_string}
use shellinabox.Trie.{Node}
use shellinabox.Http.{
  State, sniffing_ssl, command, headers, payload, discard_payload, websocket, HttpConnection,
  get_header, Env,
}
use shellinabox.Http.Line.{parse_command, parse_field, is_space, folded}
use shellinabox.Http.Command.{Handler}
use shellinabox.Http.Machine.{
  is_state, is_complete, close_read, refuse_with, http_set_state, end_headers, consumed_of,
  http_consume_payload,
}

-- The first line of some bytes, and what is behind its newline.
unfoldable pub split_line : Bytes → Option (Bytes × Bytes)
split_line [] = none
split_line (c ∷ s) =
    let rest = split_line s in
    if c == 10 then some ([], s) else elim rest [ none ↦ none | some (l, r) ↦ some (c ∷ l, r) ]

-- What parsing a line gives: a failed check, a bad line, or the connection behind it.
pub data Parsed : Type 0 where
  aborted : Parsed
  bad : HttpConnection → Parsed
  good : HttpConnection → Parsed

unfoldable pub is_null : Option Bytes → Bool
is_null none = true
is_null (some s) = false

unfoldable pub to_parsed : Option HttpConnection → Parsed
to_parsed none = aborted
to_parsed (some c) = good c

unfoldable pub to_bad : Option HttpConnection → Parsed
to_bad none = aborted
to_bad (some c) = bad c

-- `httpParseCommand`. What it keeps of a bad line is left out: the connection is closed.
unfoldable pub http_parse_command : Env → Bytes → HttpConnection → Parsed
unfolding parse_command is_null http_set_state refuse_with to_parsed to_bad
http_parse_command env line c = elim (parse_command line) [
  | none ↦ to_bad (http_set_state env command (refuse_with 400 c))
  | some l ↦
      if is_null c.method && is_null c.path && is_null c.version
      then to_parsed (
          http_set_state env headers
            (record c { method = some l.method; path = some l.path; version = some l.version }))
      else aborted
]

-- `*oldValue` is written.
unfoldable pub set_header : Bytes → Bytes → List (Bytes × Bytes) → List (Bytes × Bytes)
set_header key value [] = []
set_header key value ((k, v) ∷ header) =
    let rest = set_header key value header in
    if k ==ˢ key then (k, value) ∷ header else (k, v) ∷ rest

-- A line that begins with a space or a tab goes on with the header before it.
unfoldable pub continue_header : Bytes → HttpConnection → Parsed
unfolding get_header set_header folded c_string
continue_header line c = elim c.key [
  | none ↦ good c
  | some key ↦ elim (get_header key c.header) [
    | none ↦ aborted
    | some old ↦ good (record c {
      header = set_header key (c_string (old ++ b' ' ∷ folded (drop 1 line))) c.header;
    })
  ]
]

-- A header: of two with the same name the first one is kept.
unfoldable pub add_field : Bytes → HttpConnection → Parsed
unfolding parse_field refuse_with get_header
add_field line c = elim (parse_field line) [
  | none ↦ bad (refuse_with 400 c)
  | some (key, value) ↦ elim (get_header key c.header) [
    | none ↦ good (record c { key = some key; header = (key, value) ∷ c.header })
    | some old ↦ good (record c { key = none })
  ]
]

-- `httpParseHeaders` on a line that is not empty; `full` says that a newline stands behind it.
unfoldable pub http_parse_headers : Env → Node Handler → ℕ → Bool → Bytes → HttpConnection → Parsed
unfolding is_space continue_header add_field end_headers to_parsed
http_parse_headers env handlers port full line c =
    if is_space (get_or line 0 0)
    then continue_header line c
    else if full && (line ==ˢ 13 ∷ [])
    then to_parsed (end_headers env handlers port c)
    else add_field line c

-- A line: an empty one is passed over.
unfoldable pub parse_line : Env → Node Handler → ℕ → Bool → Bytes → HttpConnection → Parsed
unfolding http_parse_headers http_parse_command is_state
parse_line env handlers port full line c =
    if length line == 0
    then good c
    else if is_state c.state headers
    then http_parse_headers env handlers port full line c
    else http_parse_command env line c

-- One round of the loop: a failed check, the end of the loop with what is pushed back, or the next
-- round.
pub data Round : Type 0 where
  failed : Round
  halt : HttpConnection → Bytes → Round
  next : HttpConnection → Bytes → Round

unfoldable pub behind_line : Parsed → Bytes → Round
behind_line aborted rest = failed
behind_line (bad c) rest = halt c rest
behind_line (good c) rest = next c rest

unfoldable pub line_round : Env → Node Handler → ℕ → Bool → HttpConnection → Bytes → Round
unfolding is_complete split_line parse_line behind_line
line_round env handlers port eof c input =
    if is_complete c.expecting
    then elim (split_line input) [
      | some (line, rest) ↦ behind_line (parse_line env handlers port true line c) rest
      | none ↦
          if eof then behind_line (parse_line env handlers port false input c) [] else halt c input
    ]
    else failed

unfoldable pub behind_payload : Option HttpConnection → Bytes → Round
behind_payload none rest = failed
behind_payload (some c) [] = next c []
behind_payload (some c) (b ∷ rest) = halt c (b ∷ rest)

-- `httpParsePayload`, where `held` bytes of `input` are those of `partial`: the connection behind it,
-- and how many bytes are consumed. Bytes of both kinds are passed on in two calls.
unfoldable pub http_parse_payload : Env → ℕ → Bytes → HttpConnection → Option (HttpConnection × ℕ)
unfolding is_complete consumed_of
http_parse_payload env held input c =
    if held == 0
    then elim (http_consume_payload env input c) [
      | none ↦ none
      | some d ↦ some (d, consumed_of c.expecting (length input))
    ]
    else elim (http_consume_payload env (take held input) c) [
      | none ↦ none
      | some d ↦
          let first = consumed_of c.expecting (length (take held input)) in
          let rest = drop held input in
          if is_complete d.expecting || length rest == 0
          then some (d, first)
          else elim (http_consume_payload env rest d) [
            | none ↦ none
            | some e ↦ some (e, first + consumed_of d.expecting (length rest))
          ]
    ]

unfoldable pub behind_parsed : Option (HttpConnection × ℕ) → Bytes → Round
unfolding behind_payload
behind_parsed none input = failed
behind_parsed (some (c, n)) input = behind_payload (some c) (drop n input)

-- The last `buffered` bytes are those of the buffer, the others those of `partial`.
unfoldable pub payload_round : Env → ℕ → HttpConnection → Bytes → Round
unfolding is_complete is_state consumed_of behind_payload behind_parsed
payload_round env buffered c input =
    let len = consumed_of c.expecting (length input) in
    if is_complete c.expecting
    then next c input
    else if is_state c.state payload
    then behind_parsed (http_parse_payload env (length input - buffered) (take len input) c) input
    else behind_payload (some c) (drop len input)

-- `frames` is `httpHandleWebSocket`, with the value that it returns; `buffered` is `bytes`.
module _ (env : Env) (handlers : Node Handler) (port : ℕ)
    (frames : HttpConnection → Bytes → HttpConnection × Bool) (buffered : ℕ) where
  unfoldable pub websocket_round : HttpConnection → Bytes → Round
  unfolding close_read
  websocket_round c input =
      let f = frames c input in if f.1 then next f.0 [] else halt (close_read f.0) input

  -- The branches on the state.
  unfoldable pub round_at : State → Bool → HttpConnection → Bytes → Round
  unfolding line_round payload_round websocket_round
  round_at payload eof c input = payload_round env buffered c input
  round_at discard_payload eof c input = payload_round env buffered c input
  round_at websocket eof c input = websocket_round c input
  round_at sniffing_ssl eof c input = line_round env handlers port eof c input
  round_at command eof c input = line_round env handlers port eof c input
  round_at headers eof c input = line_round env handlers port eof c input

  unfoldable pub round : Bool → HttpConnection → Bytes → Round
  unfolding round_at
  round eof c input = round_at c.state eof c input

-- How the loop ends: with a failed check, not at all within the rounds that are given, or with the
-- connection and what is kept in `partial`.
pub data Outcome : Type 0 where
  broken : Outcome
  endless : Outcome
  stopped : HttpConnection → Bytes → Outcome

-- What is kept: nothing of a connection that is closed.
unfoldable pub keep : HttpConnection → Bytes → Outcome
keep c rest = stopped c (if c.closed then [] else rest)

-- What follows a round, where `on` is the rest of the loop.
unfoldable pub after_round : Round → (HttpConnection → Bytes → Outcome) → Outcome
unfolding keep
after_round failed on = broken
after_round (halt c rest) on = keep c rest
after_round (next c rest) on = if length rest == 0 || c.closed then keep c [] else on c rest

-- The loop, for any round, and with a bound on its rounds.
unfoldable pub process : (HttpConnection → Bytes → Round) → ℕ → HttpConnection → Bytes → Outcome
unfolding after_round
process turn zero c input = endless
process turn (suc fuel) c input = after_round (turn c input) (process turn fuel)
