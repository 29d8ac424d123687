-- ===== src/Tests/Http.antt =====
-- An HTTP connection at concrete requests.
use shellinabox.Base.{
  inl, length, ℕ, ◌≡◌, refl, ◌↔◌, Bool, true, false, Option, none, some, List, [], ◌∷◌, ◌++◌, Bytes,
  codes, arith, ◌==ˢ◌, decimal,
}
use shellinabox.Payload.{http_done, http_suspend}
use shellinabox.Url.{c_string}
use shellinabox.Trie.{init_trie, get_from_trie, add_to_trie}
use shellinabox.Trie.Refines.{add_all}
use shellinabox.Http.{command, headers, payload, HttpConnection, handled, Answer, Env}
use shellinabox.Http.Line.{
  is_space, marks, trim, is_version, upper, lower, until_cr, parse_command, parse_field,
}
use shellinabox.Http.Command.{Handler, Request, refuse, serve, content_length, expecting_of, decide}
use shellinabox.Http.Machine.{
  resume, wait_for_payload, init_http_connection, begins_nocase, answer, is_state, http_set_state,
  conclude, http_finish_command, wants_close, http_consume_payload, http_handle_command, settle,
}
use shellinabox.Http.Loop.{
  good, aborted, stopped, endless, failed, payload_round, http_parse_payload, round, process,
  http_parse_command, http_parse_headers,
}
use shellinabox.Http.Target.{Serves, decide-Serves}
use shellinabox.Http.Head.{command_line, parse_command-command_line}
use shellinabox.Http.Field.{field_line, parse_field-field_line}
use shellinabox.Http.Progress.{turn, Sticks, process-endless_iff}
use shellinabox.Terminal.{crlf}
use shellinabox.Http.Transfer.{gzip_header}
use shellinabox.Http.Transfer.Fields.{text_of, others, kept, gzip_header-fields}
use shellinabox.Http.Idle.{IsIdle}
use shellinabox.Base.{Leaves}
use shellinabox.Http.Idle.History.{Event, arrives, replies, history, history-IsIdle}
use shellinabox.Http.End.{
  Unless, ends_well, Tells, end_of_file, destroy_http_connection, ends-Tells,
}
use shellinabox.Http.Parts.{payload_round-aborts}
use shellinabox.Http.Folded.{http_parse_headers-stale}

abbrev plain : ℕ → Option Handler
plain n = some (record { handler = some n; websocket_handler = none })

abbrev routes : List (Bytes × Option Handler)
routes =
    (codes "/", plain 1)
    ∷ (codes "/shell", plain 2)
    ∷ (codes "/ws", some (record { handler = none; websocket_handler = some 7 }))
    ∷ []

abbrev request : Bytes → Bytes → List (Bytes × Bytes) → Request
request method path header = record {
  method = method;
  path = path;
  header = header;
  port = 80;
  is_ssl = false;
}

decide-serves :
    decide (add_all true init_trie routes) (request (codes "GET") (codes "/shell/a?x=1") [])
    ≡ serve 2 (codes "/shell") (some (codes "/a")) (some (codes "x=1"))
unfolding decide ◌==ˢ◌ get_from_trie add_all add_to_trie
decide-serves = refl

decide-root :
    decide (add_all true init_trie routes) (request (codes "HEAD") (codes "/sh") [])
    ≡ serve 1 [] (some (codes "/sh")) none
unfolding decide ◌==ˢ◌ get_from_trie add_all add_to_trie
decide-root = refl

decide-bad_host :
    decide
      (add_all true init_trie routes)
      (request (codes "GET") (codes "/") ((codes "host", codes "a/b") ∷ []))
    ≡ refuse 400
unfolding decide ◌==ˢ◌ get_from_trie add_all add_to_trie
decide-bad_host = refl

decide-put :
    decide (add_all true init_trie routes) (request (codes "PUT") (codes "/") []) ≡ refuse 405
unfolding decide ◌==ˢ◌ get_from_trie add_all add_to_trie
decide-put = refl

content_length-wraps : content_length ((codes "content-length", codes "4294967296") ∷ []) ≡ some 0
unfolding content_length ◌==ˢ◌
content_length-wraps = refl

content_length-junk : content_length ((codes "content-length", codes "12x") ∷ []) ≡ none
unfolding content_length ◌==ˢ◌
content_length-junk = refl

decide-Serves_example :
    Serves routes
      (request (codes "GET") (codes "/shell/a?x=1") [])
      2
      (codes "/shell")
      (some (codes "/a"))
      (some (codes "x=1"))
decide-Serves_example =
    decide-Serves routes (request (codes "GET") (codes "/shell/a?x=1") []) 2 (codes "/shell")
      (some (codes "/a")) (some (codes "x=1")) (omega arith) (omega arith) decide-serves

parse_command-command_line_example :
    parse_command (codes "get /a?b HTTP/1.1" ++ 13 ∷ [])
    ≡ some (record { method = codes "GET"; path = codes "/a?b"; version = codes "HTTP/1.1" })
unfolding is_version ◌==ˢ◌ upper command_line
parse_command-command_line_example =
    parse_command-command_line (codes "get") (codes "/a?b") (codes "HTTP/1.1") (omega arith)
      (omega arith) (omega arith) (omega arith) refl refl

parse_field-field_line_example :
    parse_field (codes "Host:  localhost:80" ++ 13 ∷ []) ≡ some (codes "host", codes "localhost:80")
unfolding field_line lower
parse_field-field_line_example =
    parse_field-field_line (codes "Host") (codes "  ") (codes "localhost:80") (omega arith)
      (omega arith) (ground arith) (ground arith) (ground arith)

-- A connection that waits for a request.
abbrev waiting : HttpConnection
waiting = record {
  state = command;
  closed = false;
  is_suspended = false;
  is_partial_reply = false;
  done = false;
  method = none;
  path = none;
  version = none;
  header = [];
  header_length = 0;
  key = none;
  expecting = some 0;
  callback = false;
  websocket_handler = false;
  sent = [];
  log = [];
}

-- Every handler and callback answers alike.
abbrev always : Answer → Env
always a = λ n. a

abbrev suspends : Env
suspends = always (record { rc = http_suspend; closes = false; callback = false })

abbrev ends : Env
ends = always (record { rc = http_done; closes = false; callback = false })

abbrev ends_early : Env
ends_early = always (record { rc = http_done; closes = false; callback = true })

-- Web sockets that are never used.
abbrev no_frames : HttpConnection → Bytes → HttpConnection × Bool
no_frames c s = (c, false)

abbrev two_requests : Bytes
two_requests =
    codes "GET /shell HTTP/1.1"
    ++ 13 ∷ 10 ∷ 13 ∷ 10 ∷ codes "GET / HTTP/1.1"
    ++ 13 ∷ 10 ∷ 13 ∷ 10 ∷ []

-- Two requests that come in at once are served one behind the other.
process-two :
    process
      (turn ends (add_all true init_trie routes) 80 no_frames 43 false)
      44
      waiting
      two_requests
    ≡ stopped
        (record waiting {
          log = handled 1 [] (some (codes "/")) none ∷ handled 2 (codes "/shell") none none ∷ [];
        })
        []
unfolding process round payload_round http_parse_payload http_consume_payload http_handle_command
    settle decide ◌==ˢ◌ get_from_trie add_all add_to_trie http_set_state marks trim is_version upper
    until_cr conclude expecting_of content_length http_finish_command wants_close
process-two = refl

-- More bytes behind a request whose handler has suspended.
process-endless_iff_example :
    (process
        (turn suspends (add_all true init_trie routes) 80 no_frames 43 false)
        44
        waiting
        two_requests
      ≡ endless)
    ↔ Sticks suspends (add_all true init_trie routes) 80 no_frames 43 false waiting two_requests
process-endless_iff_example =
    process-endless_iff suspends (add_all true init_trie routes) 80 no_frames 43 false 44 waiting
      two_requests refl (omega arith)

-- A connection that waits for a payload of 9 bytes with a callback.
abbrev taking : HttpConnection
taking = record waiting { state = payload; expecting = some 9; callback = true }

payload_round-aborts_example : payload_round ends_early 2 taking (codes "abcde") ≡ failed
unfolding answer
payload_round-aborts_example =
    payload_round-aborts ends_early taking 9 refl refl refl refl refl refl 2 (codes "abcde")
      (omega arith) (omega arith) (omega arith)

-- A connection at the end of a request, whose last header was "host".
abbrev ending : HttpConnection
ending = record waiting {
  state = headers;
  version = some (codes "HTTP/1.1");
  header = (codes "host", codes "a") ∷ [];
  key = some (codes "host");
}

abbrev again : HttpConnection
again = record waiting { key = some (codes "host") }

abbrev named : HttpConnection
named = record again {
  state = headers;
  method = some (codes "GET");
  path = some (codes "/");
  version = some (codes "HTTP/1.1");
}

again-comes : http_set_state ends command ending ≡ some again
unfolding http_set_state http_finish_command wants_close ◌==ˢ◌
again-comes = refl

named-comes : http_parse_command ends (codes "GET / HTTP/1.1" ++ 13 ∷ []) again ≡ good named
unfolding c_string http_parse_command marks trim is_version upper until_cr ◌==ˢ◌ http_set_state
named-comes = refl

http_parse_headers-stale_example :
    http_parse_headers ends init_trie 80 true (codes " more") named ≡ aborted
unfolding is_state is_space
http_parse_headers-stale_example =
    http_parse_headers-stale ends init_trie 80 true ending again named (codes "host")
      (codes "GET / HTTP/1.1" ++ 13 ∷ []) (codes " more") refl refl again-comes named-comes refl

-- The headers of a reply, with one that goes on in a second line.
abbrev reply_fields : List Bytes
reply_fields =
    (codes "HTTP/1.1 200 OK" ++ 13 ∷ [])
    ∷ (codes "content-LENGTH: 5000" ++ 13 ∷ [])
    ∷ (codes "X: a" ++ 13 ∷ 10 ∷ codes " b" ++ 13 ∷ [])
    ∷ []

gzip_header-fields_example :
    gzip_header 70 (text_of reply_fields crlf)
    ≡ (text_of (kept reply_fields) [] ++ (codes "Content-Length: " ++ (decimal 70 ++ crlf)))
      ++ ((codes "Content-Encoding: gzip" ++ crlf) ++ crlf)
gzip_header-fields_example = gzip_header-fields 70 reply_fields (omega arith)

kept-reply : length (kept reply_fields) ≡ 2
unfolding others begins_nocase
kept-reply = refl

abbrev one_reply : List Event
one_reply = arrives 44 25 (codes "GET /shell HTTP/1.1" ++ 13 ∷ 10 ∷ 13 ∷ 10 ∷ []) ∷ replies ∷ []

-- A handler suspends, and its reply ends the request.
history-reply :
    history suspends
      (add_all true init_trie routes)
      80
      no_frames
      one_reply
      (some (init_http_connection false))
    ≡ some (record waiting { log = handled 2 (codes "/shell") none none ∷ [] })
unfolding history process round init_http_connection marks trim is_version ◌==ˢ◌ upper until_cr
    http_handle_command decide expecting_of content_length get_from_trie add_all add_to_trie settle
    wait_for_payload http_set_state http_finish_command wants_close resume
history-reply = refl

history-IsIdle_example : Leaves IsIdle (
    history suspends
      (add_all true init_trie routes)
      80
      no_frames
      one_reply
      (some (init_http_connection false)))
history-IsIdle_example =
    history-IsIdle suspends (add_all true init_trie routes) 80 no_frames (λ c s. refl) one_reply
      false

-- A connection whose handler has suspended with a callback.
abbrev pending : HttpConnection
pending = record waiting { state = payload; callback = true; is_suspended = true }

ends-Tells_example :
    Unless true (Tells pending) (destroy_http_connection ends pending)
    × Unless true
        (λ d. Tells pending d × (d.closed ≡ true))
        (end_of_file ends init_trie 80 payload pending)
unfolding is_state ends_well
ends-Tells_example = ends-Tells ends init_trie 80 pending pending refl refl refl (inl refl) refl
