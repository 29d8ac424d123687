-- ===== src/Http.antt =====
-- libhttp/httpconnection.c: an HTTP connection, from the bytes of a request to its handler.
pub mod Line
pub mod Command
pub mod Machine
pub mod Loop
pub mod Target
pub mod Head
pub mod Field
pub mod Transfer
pub mod Idle
pub mod End
pub mod Progress
pub mod Parts
pub mod Folded
use shellinabox.Base.{
  ℕ, Bool, true, false, Option, none, some, List, [], ◌∷◌, ◌++◌, Bytes, ◌==ˢ◌, if◌then◌else◌,
}
use shellinabox.Payload.{Rc}

-- The states of a connection.
pub data State : Type 0 where
  sniffing_ssl command headers payload discard_payload websocket : State

-- What a connection has called: the handler of a path, with the path's parts; the callback with
-- some bytes, or with NULL at the end; or the web socket's handler, which has been opened.
pub data Call : Type 0 where
  handled : ℕ → Bytes → Option Bytes → Option Bytes → Call
  passed : Bytes → Call
  finished : Call
  opened : Call

-- The fields of `struct HttpConnection` on which its states depend. `header` holds the pairs that
-- have been added to the hash map, the last one first. `expecting` is `none` where it is negative.
-- A callback is there or not; `sent` are the replies, by their status, and `log` the calls.
pub record HttpConnection : Type 0 where
  pub state : State
  pub closed : Bool
  pub is_suspended : Bool
  pub is_partial_reply : Bool
  pub done : Bool
  pub method : Option Bytes
  pub path : Option Bytes
  pub version : Option Bytes
  pub header : List (Bytes × Bytes)
  pub header_length : ℕ
  pub key : Option Bytes
  pub expecting : Option ℕ
  pub callback : Bool
  pub websocket_handler : Bool
  pub sent : List ℕ
  pub log : List Call

-- `getFromHashMap` on the headers.
unfoldable pub get_header : Bytes → List (Bytes × Bytes) → Option Bytes
get_header key [] = none
get_header key ((k, v) ∷ header) = if k ==ˢ key then some v else get_header key header

-- What a handler or a callback does: its result, whether it has sent a reply that closes the
-- connection for reading (`httpSendReply` with a status other than 200, or for HEAD), and whether a
-- callback is set when it is back.
pub record Answer : Type 0 where
  pub rc : Rc
  pub closes : Bool
  pub callback : Bool

-- The handlers and callbacks of the server, as they answer the calls of a connection one by one.
abbrev pub Env : Type 0
Env = ℕ → Answer
