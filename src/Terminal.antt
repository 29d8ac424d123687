-- ===== src/Terminal.antt =====
-- The terminal sessions of shellinabox/shellinaboxd.c: the output of a child process waits in a
-- session until a browser's request polls for it. `completePendingRequest`, `sessionDone`,
-- `handleSession`, and `dataHandler` for a session that has been found and a request without keys.
pub mod Complete
pub mod Handle
pub mod Poll
pub mod Respond
pub mod Life
pub mod Delivery
use shellinabox.Base.{
  ℕ, ◌+◌, ◌-◌, Bool, true, false, not, ◌&&◌, ◌||◌, Option, none, some, List, [], ◌∷◌, ◌++◌, ltb,
  leb, ◌==◌, if◌then◌else◌, Bytes, length, take, drop, codes, decimal,
}
use shellinabox.Json.{json_escape}

-- A pending HTTP connection, and whether its method is HEAD.
pub record Request : Type 0 where
  pub id : ℕ
  pub is_head : Bool

-- `struct Session`, without the fields that the code here only hands to the system.
pub record Session : Type 0 where
  pub session_key : Bytes
  pub http : Option Request
  pub done : Bool
  pub buffered : Option Bytes
  pub len : ℕ
  pub use_login : Bool
  pub pty_first_read : Bool
  pub cleanup : Bool

abbrev pub max_response : ℕ
max_response = 2048

-- `INT_MAX`
abbrev pub int_max : ℕ
int_max = 2147483647

-- What a request is answered with: `text` is the data, before `jsonEscape`.
pub record Reply : Type 0 where
  pub http : Request
  pub text : Bytes

-- What `completePendingRequest` leaves: the session, the replies, and whether it returns 1. Where
-- it returns 0, `finishSession` has removed the session.
pub record Outcome : Type 0 where
  pub session : Session
  pub replies : List Reply
  pub live : Bool

-- `!session->buffered`
unfoldable pub is_null : Option Bytes → Bool
is_null none = true
is_null (some b) = false

-- The branch without a pending request: `buf` is kept.
unfoldable pub store : Session → Bytes → Session
store s buf = if length buf == 0 then s else elim s.buffered [
  | none ↦ record s { buffered = some buf; len = length buf }
  | some b ↦ record s { buffered = some (take s.len b ++ buf); len = s.len + length buf }
]

-- The branch with a pending request: the data for it, and the session with the rest.
unfoldable pub split_off : Session → Bytes → ℕ → Bytes × Session
split_off s buf max_length = elim s.buffered [
  | none ↦
      if ltb 0 max_length && ltb max_length (length buf)
      then (
        take max_length buf,
        record s {
          len = length buf - max_length;
          buffered = some (take (length buf - max_length) (drop max_length buf));
        },
      )
      else (buf, s)
  | some b ↦
      let all = take s.len b ++ buf in
      let n = s.len + length buf in
      if ltb 0 max_length && ltb max_length n
      then (
        take max_length all,
        record s {
          len = n - max_length;
          buffered = some (take (n - max_length) (drop max_length all));
        },
      )
      else (take n all, record s { buffered = none; len = 0 })
]

-- The end of `completePendingRequest`.
unfoldable pub finish : Session → List Reply → Outcome
unfolding is_null
finish s replies = record {
  session = s;
  replies = replies;
  live = not (s.done && is_null s.buffered);
}

-- `completePendingRequest`
unfoldable pub complete_pending_request : Session → Bytes → ℕ → Outcome
unfolding store split_off finish
complete_pending_request s buf max_length = elim s.http [
  | none ↦ finish (store s buf) []
  | some r ↦
      let out = split_off s buf max_length in
      finish (record out.1 { http = none }) (record { http = r; text = out.0 } ∷ [])
]

-- `json`
unfoldable pub json_of : Bytes → Bytes → Bytes
json_of session_key text =
    codes "{\"session\":\""
    ++ session_key
    ++ codes "\",\"data\":\""
    ++ json_escape text
    ++ codes "\"}"

-- `\r\n`
abbrev pub crlf : Bytes
crlf = 13 ∷ 10 ∷ []

-- `response`, the text for `httpTransfer`.
unfoldable pub response : Bytes → Reply → Bytes
unfolding json_of
response session_key reply =
    let json = json_of session_key reply.text in
    codes "HTTP/1.1 200 OK"
    ++ crlf
    ++ codes "Content-Type: application/json; charset=utf-8"
    ++ crlf
    ++ codes "Content-Length: "
    ++ decimal (length json)
    ++ crlf
    ++ codes "Cache-Control: no-cache"
    ++ crlf
    ++ crlf
    ++ (if reply.http.is_head then [] else json)

-- `sessionDone`, without `terminateChild` and `addToGraveyard`.
unfoldable pub session_done : Session → Outcome
unfolding complete_pending_request
session_done s = complete_pending_request (record s { done = true }) [] int_max

-- How many bytes `handleSession` asks for.
unfoldable pub read_size : Session → ℕ
read_size s = if ltb s.len max_response then max_response - s.len else 1

-- How `handleSession` ends: a `check` fails, or it returns. `paused` is a write of 0 to `*events`,
-- `renewed` a call of `serverSetTimeout`, and `kept` the value returned.
pub record Handled : Type 0 where
  pub session : Session
  pub replies : List Reply
  pub paused : Bool
  pub renewed : Bool
  pub kept : Bool

-- `return 0` without a reply
unfoldable pub close : Session → Option Handled
close s = some (record { session = s; replies = []; paused = false; renewed = false; kept = false })

-- The branch for data or a timeout; `none` where a `check` fails.
unfoldable pub forward : Session → Bytes → Bool → Option Handled
unfolding complete_pending_request close is_null
forward s buf timed_out =
    let o = complete_pending_request s buf max_response in
    let expired : Bool = elim s.http [ none ↦ timed_out | some r ↦ false ] in
    if expired
    then close (record s { cleanup = true })
    else if s.done
    then none
    else if o.live
    then some (record {
      session = record o.session { pty_first_read = false };
      replies = o.replies;
      paused = leb max_response o.session.len;
      renewed = true;
      kept = true;
    })
    else none

-- The last branch: `POLLHUP` is passed over once, while /bin/login opens the pty again.
unfoldable pub hang_up : Session → Bool → Option Handled
unfolding close
hang_up s pollhup =
    if pollhup && (s.use_login && s.pty_first_read)
    then some (record {
      session = record s { pty_first_read = false };
      replies = [];
      paused = false;
      renewed = false;
      kept = true;
    })
    else close s

-- `buf` and `bytes`. `read n` is what `read(session->pty, buf, n)` puts into `buf`, empty where it
-- returns 0 or an error.
unfoldable pub input : Session → Bool → (ℕ → Bytes) → Bytes
unfolding read_size
input s pollin read = if pollin then read (read_size s) else []

-- `handleSession` behind the read.
unfoldable pub react : Session → Bool → Bool → Bool → Bytes → Option Handled
unfolding forward hang_up close
react s pollin pollhup timed_out buf =
    if pollin && length buf == 0
    then close s
    else if not (length buf == 0) || timed_out
    then forward s buf timed_out
    else hang_up s pollhup

-- `handleSession`; `pollin` and `pollhup` are bits of `revents`.
unfoldable pub handle_session : Session → Bool → Bool → Bool → (ℕ → Bytes) → Option Handled
unfolding react input
handle_session s pollin pollhup timed_out read =
    react s pollin pollhup timed_out (input s pollin read)

-- What `dataHandler` leaves of a request that polls: the status of a reply without data, if any,
-- and whether the request waits (`HTTP_SUSPEND`).
pub record Polled : Type 0 where
  pub session : Session
  pub replies : List Reply
  pub live : Bool
  pub bad_request : Bool
  pub suspended : Bool

-- `session->http && session->http != http`
unfoldable pub has_other : Session → Request → Bool
has_other s http = elim s.http [ none ↦ false | some r ↦ not (r.id == http.id) ]

-- From `session->http = http` on.
unfoldable pub enqueue : Session → List Reply → Request → Bool → Polled
unfolding complete_pending_request is_null
enqueue s replies http session_is_new =
    let waiting = record s { http = some http } in
    let o = complete_pending_request waiting [] max_response in
    if not (is_null s.buffered) || session_is_new
    then record {
      session = o.session;
      replies = replies ++ o.replies;
      live = o.live;
      bad_request = false;
      suspended = false;
    }
    else record {
      session = waiting;
      replies = replies;
      live = true;
      bad_request = false;
      suspended = true;
    }

-- `dataHandler` from the branch for a request without keys on.
unfoldable pub poll : Session → Request → Bool → Polled
unfolding has_other enqueue
poll s http session_is_new =
    let o = complete_pending_request s [] max_response in
    if has_other s http
    then (if o.live then enqueue o.session o.replies http session_is_new else record {
      session = o.session;
      replies = o.replies;
      live = false;
      bad_request = true;
      suspended = false;
    })
    else enqueue s [] http session_is_new
