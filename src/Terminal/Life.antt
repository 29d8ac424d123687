-- ===== src/Terminal/Life.antt =====
-- The life of a session in the server, from event to event: its pty, the requests of the browser,
-- the end of their connections, and the graveyard.
use shellinabox.Base.{
  Bool, true, false, Option, none, some, List, [], ◌∷◌, ◌++◌, if◌then◌else◌, Bytes, take, ◌==◌,
}
use shellinabox.Terminal.{
  Request, Session, Reply, Handled, session_done, max_response, complete_pending_request,
  handle_session, input, poll,
}
use shellinabox.Terminal.Complete.{held}

-- What happens to a session: its pty is ready, has been hung up or has waited too long, with some
-- bytes waiting there; a request polls; a request brings keys, which the pty takes or, with EAGAIN,
-- does not; the connection of a request is closed; or checkGraveyard finds that the session has been
-- in the graveyard for too long.
pub data Event : Type 0 where
  pty : Bool → Bool → Bool → Bytes → Event
  request : Request → Event
  keys : Bool → Request → Event
  disconnect : Request → Event
  expire : Event

-- A failed check; no session any more; a session that the graveyard threw away with what it held;
-- or a session.
pub data State : Type 0 where
  aborted : State
  ended : State
  expired : Bytes → State
  alive : Session → State

-- A state, the replies with data on the way to it, and the output that the session was given: what
-- calls of `handleSession` took of its pty which returned 1, and the bells of `dataHandler`.
pub record Trace : Type 0 where
  pub state : State
  pub replies : List Reply
  pub taken : Bytes

-- A session whose function has returned 0 is gone.
abbrev pub left : Bool → Session → State
left true s = alive s
left false s = ended

-- The server calls `sessionDone` where `handleSession` returns 0.
unfoldable pub settle : Handled → Bytes → Trace
unfolding session_done
settle h buf =
    let o = session_done h.session in
    if h.kept
    then record { state = alive h.session; replies = h.replies; taken = buf }
    else record { state = left o.live o.session; replies = o.replies; taken = [] }

unfoldable pub watch : Option Handled → Bytes → Trace
unfolding settle
watch none buf = record { state = aborted; replies = []; taken = [] }
watch (some h) buf = settle h buf

-- Nothing is sent.
abbrev pub rest : State → Trace
rest st = record { state = st; replies = []; taken = [] }

-- `session->http == http`
unfoldable pub is_waiting : Session → Request → Bool
is_waiting s http = elim s.http [ none ↦ false | some r ↦ r.id == http.id ]

-- `"\007"`
abbrev pub bell : Bytes
bell = 7 ∷ []

-- The branch of `dataHandler` for keys: `eagain` says that the pty takes none. The reply without data
-- is left out; at the end is `check(session->http != http)`.
unfoldable pub press : Session → Bool → Request → Trace
unfolding complete_pending_request is_waiting
press s eagain http =
    let o = complete_pending_request s bell max_response in
    if eagain
    then record { state = left o.live o.session; replies = o.replies; taken = bell }
    else rest (if is_waiting s http then aborted else alive s)

-- `dataHandler` without `buf`: `invalidatePendingHttpSession` deletes the connection to the pty, for
-- which the server calls `sessionDone`, and has the session removed.
unfoldable pub invalidate : Session → Request → Trace
unfolding is_waiting session_done
invalidate s http =
    let o = session_done (record s { http = none }) in
    if is_waiting s http
    then record { state = ended; replies = o.replies; taken = [] }
    else rest (alive s)

-- The server watches the pty of a session until the session is done; then it is in the graveyard.
unfoldable pub step : Session → Event → Trace
unfolding handle_session input watch poll press invalidate
step s (pty pollin pollhup timed_out waiting) =
    let h = handle_session s pollin pollhup timed_out (λ n. take n waiting) in
    if s.done then rest (alive s) else watch h (input s pollin (λ n. take n waiting))
step s (request r) =
    let p = poll s r false in
    record { state = left p.live p.session; replies = p.replies; taken = [] }
step s (keys eagain r) = press s eagain r
step s (disconnect r) = invalidate s r
step s expire = rest (if s.done then expired (held s.buffered) else alive s)

unfoldable pub advance : State → Event → Trace
unfolding step
advance (alive s) e = step s e
advance aborted e = rest aborted
advance ended e = rest ended
advance (expired b) e = rest (expired b)

unfoldable pub run : State → List Event → Trace
unfolding advance
run st [] = rest st
run st (e ∷ es) =
    let t = advance st e in
    let u = run t.state es in
    record { state = u.state; replies = t.replies ++ u.replies; taken = t.taken ++ u.taken }
