-- ===== src/WebSocket/Read.antt =====
-- Web socket frames that come in: `httpHandleWebSocket` of libhttp/httpconnection.c.
pub mod Stream
pub mod Bulk
pub mod Round
pub mod Cut
pub mod Sent
use shellinabox.Base.{
  ℕ, zero, suc, ◌+◌, ◌-◌, ◌*◌, ◌%◌, Bool, true, false, not, Option, none, some, List, [], ◌∷◌,
  Bytes, ltb, leb, ◌==◌, if◌then◌else◌, length, take, drop,
}

-- A call of the web socket's handler with some bytes of a frame, and with its flags
-- WS_START_OF_FRAME and WS_END_OF_FRAME.
pub record Message : Type 0 where
  pub kind : ℕ
  pub starts : Bool
  pub ends : Bool
  pub text : Bytes

-- The fields that the function uses, and its calls of the handler, the last one first. Of
-- `websocketType`, `kind` is the low byte, `undefined` WS_UNDEFINED, and `starts` WS_START_OF_FRAME.
pub record Reader : Type 0 where
  pub kind : ℕ
  pub undefined : Bool
  pub starts : Bool
  pub expecting : ℕ
  pub log : List Message

-- A call of the handler, unless there are no bytes; `accepts n` says whether the handler answers
-- HTTP_DONE to its n-th call, and `none` is the return of 0.
unfoldable pub deliver : (ℕ → Bool) → Message → Reader → Option Reader
deliver accepts m r =
    if length m.text == 0
    then some r
    else if accepts (length r.log)
    then some (record r { log = m ∷ r.log })
    else none

-- The first byte of a frame.
unfoldable pub read_type : ℕ → Reader → Reader
read_type ch r = record r {
  kind = ch;
  starts = true;
  undefined = leb 128 ch;
  expecting = if leb 128 ch then 0 else r.expecting;
}

-- Another byte of a length.
unfoldable pub read_length : ℕ → Reader → Option Reader
read_length ch r =
    if ltb 0xFFFFFF r.expecting
    then none
    else some (record r { expecting = 128 * r.expecting + ch % 128; undefined = leb 128 ch })

-- Back to looking for a new frame. What is expected then is not read before it is set.
unfoldable pub next_frame : Reader → Reader
next_frame r = record r { kind = 0; undefined = true; starts = false; expecting = 0 }

unfoldable pub with_rest : Bytes → Option Reader → Option (Reader × Bytes)
with_rest rest none = none
with_rest rest (some r) = some (r, rest)

-- Binary data.
unfoldable pub read_binary : (ℕ → Bool) → Reader → Bytes → Option (Reader × Bytes)
unfolding deliver with_rest
read_binary accepts r part =
    let ends = leb r.expecting (length part) in
    let len = if ends then r.expecting else length part in
    with_rest (drop len part) (
      deliver accepts
        (record { kind = r.kind; starts = r.starts; ends = ends; text = take len part })
        (record r { expecting = r.expecting - len; starts = false }))

-- What stands in front of the first 0xFF, and what stands behind it.
unfoldable pub until_end : Bytes → Bytes × Option Bytes
until_end [] = ([], none)
until_end (ch ∷ s) = let t = until_end s in if ch == 0xFF then ([], some s) else (ch ∷ t.0, t.1)

-- The reader behind a part of a text, and what is left: WS_END_OF_FRAME is set in any case.
unfoldable pub behind_text : Option Bytes → Reader → Reader × Bytes
unfolding next_frame
behind_text none r = (record r { starts = false; expecting = 0 }, [])
behind_text (some rest) r = (next_frame r, rest)

-- Text.
unfoldable pub read_text : (ℕ → Bool) → Reader → Bytes → Option (Reader × Bytes)
unfolding deliver with_rest behind_text until_end
read_text accepts r part =
    let t = until_end part in
    let b = behind_text t.1 r in
    with_rest b.1
      (deliver accepts (record { kind = r.kind; starts = r.starts; ends = true; text = t.0 }) b.0)

-- One round of the loop, on the bytes of `partial` or on those of the buffer: the first one, and
-- the others.
unfoldable pub read_round : (ℕ → Bool) → Reader → ℕ → Bytes → Option (Reader × Bytes)
unfolding read_type read_length next_frame
read_round accepts r ch s =
    if r.undefined
    then (if r.kind == 0 then some (read_type ch r, s) else with_rest s (read_length ch r))
    else if leb 128 r.kind
    then (if r.expecting == 0 then some (next_frame r, ch ∷ s) else read_binary accepts r (ch ∷ s))
    else read_text accepts r (ch ∷ s)

-- How the loop ends: it returns 0, or 1, or it needs more rounds.
pub data Read : Type 0 where
  refused : Read
  unfinished : Read
  read : Reader → Read

-- The loop, with a bound on its rounds.
unfoldable pub read_part : (ℕ → Bool) → ℕ → Reader → Bytes → Read
unfolding read_round
read_part accepts fuel r [] = read r
read_part accepts zero r (ch ∷ s) = unfinished
read_part accepts (suc fuel) r (ch ∷ s) = elim (read_round accepts r ch s) [
  | none ↦ refused
  | some (d, rest) ↦ read_part accepts fuel d rest
]

unfoldable pub read_rest : (ℕ → Bool) → Bytes → Read → Read
unfolding read_part
read_rest accepts buf (read r) = read_part accepts (2 * length buf + 1) r buf
read_rest accepts buf x = x

-- `httpHandleWebSocket`: the bytes of `partial`, and then those of the buffer.
unfoldable pub http_handle_web_socket : (ℕ → Bool) → Reader → Bytes → Bytes → Read
unfolding read_part read_rest
http_handle_web_socket accepts r partial buf =
    read_rest accepts buf (read_part accepts (2 * length partial + 1) r partial)

-- Several calls, each with what is in `partial` and in the buffer.
unfoldable pub read_calls : (ℕ → Bool) → List (Bytes × Bytes) → Read → Read
unfolding http_handle_web_socket
read_calls accepts [] x = x
read_calls accepts ((partial, buf) ∷ calls) (read r) =
    read_calls accepts calls (http_handle_web_socket accepts r partial buf)
read_calls accepts (call ∷ calls) x = x
