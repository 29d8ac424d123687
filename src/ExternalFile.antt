-- ===== src/ExternalFile.antt =====
-- shellinabox/externalfile.c: files that are served from the disk.
pub mod Hidden
pub mod Whole
use shellinabox.Base.{
  ℕ, zero, suc, ◌+◌, ◌-◌, ◌*◌, Bool, true, false, not, ◌&&◌, ◌||◌, Option, none, some, List, [],
  ◌∷◌, ◌++◌, Bytes, ltb, leb, ◌==◌, ◌==ˢ◌, if◌then◌else◌, codes, decimal, get_or, length, drop,
}
use shellinabox.Payload.{Rc, http_done, http_error, http_partial_reply}
use shellinabox.Terminal.{crlf}

unfoldable pub skip_slashes : Bytes → Bytes
skip_slashes [] = []
skip_slashes (c ∷ s) = if c == b'/' then skip_slashes s else c ∷ s

-- `strchr`, and `strrchr`: the text from the byte on.
unfoldable pub find_char : ℕ → Bytes → Option Bytes
find_char ch [] = none
find_char ch (c ∷ s) = let rest = find_char ch s in if c == ch then some (c ∷ s) else rest

unfoldable pub find_last : ℕ → Bytes → Option Bytes
find_last ch [] = none
find_last ch (c ∷ s) = elim (find_last ch s) [
  | some r ↦ some r
  | none ↦ if c == ch then some (c ∷ s) else none
]

-- `fn`, from the path that is registered and the path info behind its slashes.
unfoldable pub file_name : Bytes → Bytes → Bytes
unfolding skip_slashes
file_name root info = if length info == 0 then root else root ++ b'/' ∷ skip_slashes info

-- The loop that refuses files and directories with a dot in front. It makes less than a round for
-- each byte.
unfoldable pub is_hidden_from : ℕ → Bytes → Bool
unfolding find_char
is_hidden_from zero ptr = false
is_hidden_from (suc fuel) ptr =
    if get_or ptr 0 0 == b'.'
    then true
    else elim (find_char b'/' (drop 1 ptr)) [ none ↦ false | some p ↦ is_hidden_from fuel p ]

unfoldable pub is_hidden : Bytes → Bool
unfolding is_hidden_from skip_slashes
is_hidden info =
    if length info == 0
    then false
    else let ptr = skip_slashes info in is_hidden_from (suc (length ptr)) ptr

-- `mimeTypes`
abbrev pub mime_types : List (Bytes × Bytes)
mime_types =
    (codes "html", codes "text/html; charset=utf-8")
    ∷ (codes "txt", codes "text/plain; charset=utf-8")
    ∷ (codes "js", codes "text/javascript; charset=utf-8")
    ∷ (codes "css", codes "text/css; charset=utf-8")
    ∷ (codes "ico", codes "image/x-icon")
    ∷ (codes "jpg", codes "image/jpeg")
    ∷ (codes "gif", codes "image/gif")
    ∷ (codes "png", codes "image/png")
    ∷ (codes "wav", codes "audio/x-wav")
    ∷ (codes "mp3", codes "audio/mpeg")
    ∷ (codes "au", codes "audio/basic")
    ∷ (codes "mid", codes "audio/midi")
    ∷ []

unfoldable pub lookup_type : Bytes → List (Bytes × Bytes) → Bytes
lookup_type suffix [] = codes "application/octet-stream"
lookup_type suffix ((s, t) ∷ types) =
    let rest = lookup_type suffix types in if suffix ==ˢ s then t else rest

-- `mimeType`, by the suffix of the file or else of the URL's path.
unfoldable pub mime_type : Bytes → Bytes → Bytes
unfolding find_last lookup_type
mime_type fn path = elim (find_last b'.' fn) [
  | some s ↦ lookup_type (drop 1 s) mime_types
  | none ↦ elim (find_last b'.' path) [
    | some s ↦ lookup_type (drop 1 s) mime_types
    | none ↦ codes "application/octet-stream"
  ]
]

-- A file that has been opened: what `fstat` says, and what calls of `read` give, where `none` is an
-- error. Behind the last one the file ends.
pub record File : Type 0 where
  pub size : ℕ
  pub is_regular : Bool
  pub reads : List (Option Bytes)

-- `struct ExternalFileState`
pub record ExternalFileState : Type 0 where
  pub total_size : ℕ
  pub partial_size : ℕ
  pub reads : List (Option Bytes)

unfoldable pub read_next : List (Option Bytes) → Option Bytes × List (Option Bytes)
read_next [] = (some [], [])
read_next (r ∷ reads) = (r, reads)

-- What a call of the handler does: a reply "File not found"; or its result, the bytes that are
-- transferred, and the state that is kept.
pub data Reply : Type 0 where
  not_found : Reply
  sent : Rc → Bytes → Option ExternalFileState → Reply

unfoldable pub response_header : Bytes → ℕ → Bytes
response_header mime size =
    codes "HTTP/1.1 200 OK"
    ++ crlf
    ++ codes "Content-Type: "
    ++ mime
    ++ crlf
    ++ codes "Content-Length: "
    ++ decimal size
    ++ crlf
    ++ crlf

-- The first call, from the response header on.
unfoldable pub send_first : Bool → Bytes → ℕ → List (Option Bytes) → Reply
unfolding read_next
send_first is_head header size reads =
    if is_head then sent http_done header none else elim (read_next reads).0 [
      | none ↦ not_found
      | some bytes ↦
          if length bytes == size
          then sent http_done (header ++ bytes) none
          else sent http_partial_reply (header ++ bytes) (
              some (record {
                total_size = size;
                partial_size = length bytes;
                reads = (read_next reads).1;
              }))
    ]

-- The first call for a request. `/dev/null` has no size, and no other test.
unfoldable pub first_call : Bytes → Bytes → Bytes → Bool → Option File → Reply
unfolding file_name is_hidden mime_type response_header send_first skip_slashes
first_call root path_info path is_head file =
    let info = skip_slashes path_info in
    let fn = file_name root info in
    let is_null = fn ==ˢ codes "/dev/null" in
    if is_hidden info then not_found else elim file [
      | none ↦ not_found
      | some f ↦
          if not is_null && (not f.is_regular || ltb (100 * 1048576) f.size)
          then not_found
          else let size : ℕ = if is_null then 0 else f.size in
            send_first is_head (response_header (mime_type fn path) size) size f.reads
    ]

-- A later call; `is_end` says that `buf` is NULL.
unfoldable pub next_call : Bool → ExternalFileState → Reply
unfolding read_next
next_call true s = sent http_done [] none
next_call false s = elim (read_next s.reads).0 [
  | none ↦ sent http_error [] none
  | some bytes ↦
      let n = s.partial_size + length bytes in
      if leb s.total_size n
      then sent http_done bytes none
      else sent http_partial_reply bytes
          (some (record s { partial_size = n; reads = (read_next s.reads).1 }))
]

-- How the connection goes on as long as the reply is partial: the bytes that it sends, and the last
-- result, within so many calls.
unfoldable pub serve_rest : ℕ → Reply → Option (Bytes × Rc)
unfolding next_call
serve_rest fuel not_found = none
serve_rest fuel (sent rc bytes none) = some (bytes, rc)
serve_rest zero (sent rc bytes (some s)) = none
serve_rest (suc fuel) (sent rc bytes (some s)) = elim (serve_rest fuel (next_call false s)) [
  | none ↦ none
  | some (more, last) ↦ some (bytes ++ more, last)
]
