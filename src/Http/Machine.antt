-- ===== src/Http/Machine.antt =====
-- The states of an HTTP connection: `httpFinishCommand`, `httpSetState`, the end of
-- `httpParseHeaders`, `httpConsumePayload`, and the end of `httpTransfer`. `none` stands for a
-- check that fails, which aborts the server.
use shellinabox.Base.{
  ℕ, ◌-◌, Bool, true, false, not, ◌&&◌, ◌||◌, Option, none, some, [], ◌∷◌, Bytes, ltb, ◌==◌,
  if◌then◌else◌, codes, length, take,
}
use shellinabox.Payload.{
  Rc, http_done, http_error, http_read_more, http_suspend, http_partial_reply,
}
use shellinabox.Http.{
  State, sniffing_ssl, command, headers, payload, discard_payload, websocket, Call, handled, passed,
  finished, opened, HttpConnection, get_header, Answer, Env,
}
use shellinabox.Http.Line.{to_lower}
use shellinabox.Http.Command.{
  Handler, Request, refuse, options, upgrade, serve, decide, expecting_of,
}
use shellinabox.Trie.{Node}

-- Whether two states are the same.
unfoldable pub number : State → ℕ
number sniffing_ssl = 0
number command = 1
number headers = 2
number payload = 3
number discard_payload = 4
number websocket = 5

unfoldable pub is_state : State → State → Bool
unfolding number
is_state s t = number s == number t

-- `!http->expecting`
unfoldable pub is_complete : Option ℕ → Bool
is_complete none = false
is_complete (some n) = n == 0

-- `http->expecting < 0`
unfoldable pub is_unknown : Option ℕ → Bool
is_unknown none = true
is_unknown (some n) = false

-- `initHttpConnection`
unfoldable pub init_http_connection : Bool → HttpConnection
init_http_connection ssl = record {
  state = if ssl then sniffing_ssl else command;
  closed = false;
  is_suspended = false;
  is_partial_reply = false;
  done = false;
  method = none;
  path = none;
  version = none;
  header = [];
  header_length = 0;
  key = none;
  expecting = some 0;
  callback = false;
  websocket_handler = false;
  sent = [];
  log = [];
}

-- `httpCloseRead`
unfoldable pub close_read : HttpConnection → HttpConnection
close_read c = record c { closed = true }

unfoldable pub close_if : Bool → HttpConnection → HttpConnection
close_if b c = record c { closed = c.closed || b }

-- `httpSendReply`, with a status other than 200 or for HEAD.
unfoldable pub refuse_with : ℕ → HttpConnection → HttpConnection
refuse_with code c = record c { closed = true; sent = code ∷ c.sent }

-- A call of a handler or a callback, and what it answers.
unfoldable pub answer : Env → HttpConnection → Answer
answer env c = env (length c.log)

unfoldable pub make_call : Env → Call → HttpConnection → HttpConnection
unfolding answer
make_call env call c = record c {
  log = call ∷ c.log;
  callback = (answer env c).callback;
  closed = c.closed || (answer env c).closes;
}

-- `strncasecmp` and `strcasestr`
unfoldable pub begins_nocase : Bytes → Bytes → Bool
unfolding to_lower
begins_nocase [] s = true
begins_nocase (p ∷ ps) [] = false
begins_nocase (p ∷ ps) (c ∷ s) = to_lower p == to_lower c && begins_nocase ps s

unfoldable pub contains_nocase : Bytes → Bytes → Bool
unfolding begins_nocase
contains_nocase p [] = begins_nocase p []
contains_nocase p (c ∷ s) = begins_nocase p (c ∷ s) || contains_nocase p s

-- `strcmp(a, b) < 0`
unfoldable pub is_before : Bytes → Bytes → Bool
is_before a [] = false
is_before [] (d ∷ b) = true
is_before (c ∷ a) (d ∷ b) = ltb c d || (c == d && is_before a b)

-- Whether the connection is closed behind a request.
unfoldable pub wants_close : HttpConnection → Bool
unfolding contains_nocase is_before get_header
wants_close c =
    elim (get_header (codes "connection") c.header) as (λ x. Bool) [
      | none ↦ false
      | some con ↦ contains_nocase (codes "close") con
    ]
    || elim c.version as (λ x. Bool) [ none ↦ true | some v ↦ is_before v (codes "HTTP/1.1") ]

-- The last call of a callback may not wait.
unfoldable pub is_final : Rc → Bool
is_final http_suspend = false
is_final http_partial_reply = false
is_final _ = true

unfoldable pub is_error : Rc → Bool
is_error http_error = true
is_error _ = false

-- `httpFinishCommand`, but for its log line.
unfoldable pub http_finish_command : Env → HttpConnection → Option HttpConnection
unfolding answer make_call close_if
http_finish_command env c =
    let a = answer env c in
    let called =
      close_if (is_error a.rc) (record (make_call env finished c) { callback = false }) in
    if (c.callback || c.websocket_handler) && not c.done
    then (if is_final a.rc then some (close_if (wants_close called) called) else none)
    else some (close_if (wants_close c) c)

-- What `httpSetState` resets for a new command. `http->key` keeps its value.
unfoldable pub reset : HttpConnection → HttpConnection
reset c = record c {
  done = false;
  method = none;
  path = none;
  version = none;
  header = [];
  header_length = 0;
  callback = false;
}

-- `httpSetState`
unfoldable pub http_set_state : Env → State → HttpConnection → Option HttpConnection
unfolding is_state reset
http_set_state env state c =
    if is_state state c.state
    then some c
    else if is_state state command
    then (if is_state c.state sniffing_ssl
        then some (record (reset c) { state = state })
        else elim (http_finish_command env c) [
          | none ↦ none
          | some d ↦ some (record (reset d) { state = state })
        ])
    else some (record c { state = state })

-- The cases HTTP_SUSPEND and HTTP_PARTIAL_REPLY behind their flags.
unfoldable pub wait_for_payload : Env → HttpConnection → Option HttpConnection
unfolding is_state
wait_for_payload env c =
    if is_state c.state payload || is_state c.state discard_payload
    then some c
    else if is_state c.state headers
    then http_set_state env payload c
    else none

-- The cases HTTP_DONE and HTTP_ERROR.
unfoldable pub conclude : Env → Bool → HttpConnection → Option HttpConnection
unfolding close_if is_unknown is_complete
conclude env failed c =
    http_set_state env (if is_complete c.expecting then command else discard_payload)
      (record (close_if (is_unknown c.expecting || failed) c) {
        done = true;
        is_suspended = false;
        is_partial_reply = false;
      })

-- The `switch` of `httpParseHeaders` and of `httpConsumePayload`; `read_more` is its case
-- HTTP_READ_MORE.
unfoldable pub settle :
    Env → (HttpConnection → Option HttpConnection) → Rc → HttpConnection → Option HttpConnection
settle env read_more http_done c = conclude env false c
settle env read_more http_error c = conclude env true c
settle env read_more http_read_more c =
    read_more (record c { is_suspended = false; is_partial_reply = false })
settle env read_more http_suspend c =
    wait_for_payload env (record c { is_suspended = true; is_partial_reply = false })
settle env read_more http_partial_reply c =
    wait_for_payload env (record c { is_suspended = false; is_partial_reply = true })

-- The end of HTTP_READ_MORE behind the headers.
unfoldable pub await_body : Env → HttpConnection → Option HttpConnection
unfolding is_state is_complete
await_body env c =
    if is_state c.state websocket
    then some c
    else http_set_state env (if is_complete c.expecting then command else payload) c

-- HTTP_READ_MORE behind the headers: without a body the callback is called at once, and its result
-- taken in place of the handler's.
unfoldable pub more_headers : Env → HttpConnection → Option HttpConnection
unfolding is_complete answer make_call
more_headers env c =
    if c.done
    then none
    else if is_complete c.expecting
    then (if c.callback
        then settle env (await_body env) (answer env c).rc (make_call env (passed []) c)
        else if c.websocket_handler
        then await_body env (record c { log = opened ∷ c.log })
        else await_body env c)
    else await_body env c

unfoldable pub or_zero : Option ℕ → Option ℕ
or_zero none = some 0
or_zero (some n) = some n

unfoldable pub or_empty : Option Bytes → Bytes
or_empty none = []
or_empty (some s) = s

-- `httpHandleCommand`: the connection behind it, and its result.
unfoldable pub http_handle_command :
    Env → Node Handler → ℕ → HttpConnection → Option (HttpConnection × Rc)
unfolding or_empty or_zero refuse_with answer make_call
http_handle_command env handlers port c =
    let r : Request = record {
      method = or_empty c.method;
      path = or_empty c.path;
      header = c.header;
      port = port;
      is_ssl = false;
    } in
    let d = record c { expecting = expecting_of r } in
    elim (decide handlers r) [
      | refuse code ↦ some (refuse_with code d, http_done)
      | options ↦ some (record d { sent = 200 ∷ d.sent }, http_read_more)
      | upgrade ws text ↦
          elim (http_set_state env websocket (record d {
            expecting = or_zero d.expecting;
            websocket_handler = true;
            sent = 101 ∷ d.sent;
          })) [ none ↦ none | some e ↦ some (e, http_read_more) ]
      | serve f m i q ↦ some (make_call env (handled f m i q) d, (answer env d).rc)
    ]

-- The end of the headers in `httpParseHeaders`.
unfoldable pub end_headers : Env → Node Handler → ℕ → HttpConnection → Option HttpConnection
unfolding is_complete
end_headers env handlers port c =
    if is_complete c.expecting
    then elim (http_handle_command env handlers port (record c { callback = false })) [
      | none ↦ none
      | some (d, rc) ↦ settle env (more_headers env) rc d
    ]
    else none

unfoldable pub consumed_of : Option ℕ → ℕ → ℕ
consumed_of none len = len
consumed_of (some n) len = if ltb n len then n else len

unfoldable pub left_of : Option ℕ → ℕ → Option ℕ
unfolding consumed_of
left_of none len = none
left_of (some n) len = some (n - consumed_of (some n) len)

-- HTTP_READ_MORE behind some payload.
unfoldable pub more_payload : Env → HttpConnection → Option HttpConnection
unfolding is_complete
more_payload env c = if is_complete c.expecting then http_set_state env command c else some c

-- `httpConsumePayload`; it takes `consumed_of c.expecting (length buf)` bytes.
unfoldable pub http_consume_payload : Env → Bytes → HttpConnection → Option HttpConnection
unfolding consumed_of left_of answer make_call is_unknown
http_consume_payload env buf c =
    let len = consumed_of c.expecting (length buf) in
    let d = record c { expecting = left_of c.expecting (length buf) } in
    if c.callback
    then (if c.done
        then none
        else settle env (more_payload env) (answer env d).rc
            (make_call env (passed (take len buf)) d))
    else if is_unknown c.expecting
    then http_set_state env command (record d { expecting = some 0; closed = true })
    else some d

-- The end of `httpTransfer`, when a connection that waits gets a reply.
unfoldable pub resume : Env → HttpConnection → Option HttpConnection
unfolding is_state is_unknown is_complete
resume env c =
    if c.is_suspended || c.is_partial_reply
    then (if is_state c.state payload || is_state c.state discard_payload
        then (if c.is_partial_reply
            then some c
            else if is_unknown c.expecting
            then http_set_state env discard_payload (record c { closed = true })
            else if is_complete c.expecting
            then elim (http_set_state env command c) [
              | none ↦ none
              | some d ↦ some (record d { is_suspended = false })
            ]
            else some c)
        else none)
    else some c
