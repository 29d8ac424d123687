-- ===== src/Payload.antt =====
-- libhttp/server.c: `serverCollectFullPayload`, which keeps the parts of a request's body until
-- the handler can have it whole.
pub mod Whole
use shellinabox.Base.{
  ℕ, ◌+◌, Bool, true, false, not, ◌&&◌, ◌||◌, Option, none, some, List, [], ◌∷◌, ◌++◌, ltb, leb,
  ◌==◌, if◌then◌else◌, Bytes, length, take,
}

-- The results of a handler.
pub data Rc : Type 0 where
  http_done : Rc
  http_error : Rc
  http_read_more : Rc
  http_suspend : Rc
  http_partial_reply : Rc

pub record PayLoad : Type 0 where
  pub len : ℕ
  pub bytes : Option Bytes

-- The payload that `serverCollectHandler` makes; malloc(0) gives a pointer that is not NULL.
unfoldable pub new_payload : PayLoad
new_payload = record { len = 0; bytes = some [] }

-- `MAX_PAYLOAD_LENGTH`
abbrev pub max_payload_length : ℕ
max_payload_length = 65536

-- What a call leaves: the payload, the calls of the handler (`none` for its last call with NULL),
-- whether status 400 was sent, and the result.
pub record Collected : Type 0 where
  pub payload : PayLoad
  pub calls : List (Option Bytes)
  pub bad_request : Bool
  pub rc : Rc

unfoldable pub is_held : Option Bytes → Bool
is_held none = false
is_held (some b) = true

-- The bytes that the handler gets.
unfoldable pub all_bytes : PayLoad → Bytes
all_bytes p = elim p.bytes [ none ↦ [] | some b ↦ take p.len b ]

-- `realloc` and `memcpy`
unfoldable pub append_part : PayLoad → Bytes → PayLoad
unfolding all_bytes
append_part p buf = record { len = p.len + length buf; bytes = some (all_bytes p ++ buf) }

-- Whether the handler is called. `content_length` is the number in the header, if there is one.
unfoldable pub is_complete : Option ℕ → PayLoad → Bool → Bool
unfolding is_held
is_complete none p closing = true
is_complete (some n) p closing = is_held p.bytes && (leb n p.len || closing)

-- The part behind the calls: a connection that is torn down cannot wait.
unfoldable pub tear_down : Bool → Collected → Collected
tear_down closing c = elim c.rc [
  | http_done ↦ c
  | http_error ↦ c
  | http_read_more ↦ c
  | http_suspend ↦ if closing then record c { calls = c.calls ++ none ∷ []; rc = http_done } else c
  | http_partial_reply ↦
      if closing then record c { calls = c.calls ++ none ∷ []; rc = http_done } else c
]

-- `serverCollectFullPayload` behind the copy; `closing` is `!buf`.
unfoldable pub offer : (Bytes → Rc) → Option ℕ → PayLoad → Bool → Collected
unfolding is_complete tear_down all_bytes
offer handler content_length p closing =
    if is_complete content_length p closing
    then tear_down closing (record {
      payload = record { len = 0; bytes = none };
      calls = some (all_bytes p) ∷ [];
      bad_request = false;
      rc = handler (all_bytes p);
    })
    else tear_down closing
        (record { payload = p; calls = []; bad_request = false; rc = http_read_more })

-- `serverCollectFullPayload`; `none` is a NULL `buf`.
unfoldable pub server_collect_full_payload :
    (Bytes → Rc) → Option ℕ → PayLoad → Option Bytes → Collected
unfolding offer append_part
server_collect_full_payload handler content_length p none = offer handler content_length p true
server_collect_full_payload handler content_length p (some buf) =
    if length buf == 0
    then offer handler content_length p false
    else if ltb max_payload_length (p.len + length buf)
    then record { payload = p; calls = []; bad_request = true; rc = http_done }
    else offer handler content_length (append_part p buf) false
