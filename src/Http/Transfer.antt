-- ===== src/Http/Transfer.antt =====
-- The headers of a reply that `httpTransfer` compresses: `removeHeader` and `addHeader`. The text and
-- the length of a compressed reply are zlib's.
pub mod Fields
use shellinabox.Base.{
  ℕ, zero, suc, ◌+◌, ◌-◌, Bool, true, false, not, ◌&&◌, List, [], ◌∷◌, ◌++◌, Bytes, ltb, leb, ◌==◌,
  ◌==ˢ◌, if◌then◌else◌, codes, get_or, length, take, drop, decimal,
}
use shellinabox.Terminal.{crlf}
use shellinabox.Http.Machine.{begins_nocase}

-- A header up to `end`, with the lines that begin with a space, and what is behind it.
unfoldable pub field_end : Bytes → Bytes × Bytes
field_end [] = ([], [])
field_end (c ∷ s) =
    let r = field_end s in
    if c == 10 && not (get_or s 0 0 == b' ') then (c ∷ [], s) else (c ∷ r.0, r.1)

-- The loop of `removeHeader`, with a bound on its rounds.
unfoldable pub remove_from : ℕ → Bytes → Bytes → Bytes
unfolding field_end begins_nocase
remove_from zero id header = header
remove_from (suc fuel) id header =
    let r = field_end header in
    let rest = remove_from fuel id r.1 in
    if ltb (length header) (length id)
    then header
    else if begins_nocase id header
    then rest
    else r.0 ++ rest

-- `removeHeader`
unfoldable pub remove_header : Bytes → Bytes → Bytes
unfolding remove_from
remove_header id header = if length id == 0 then header else remove_from (length header) id header

-- `addHeader`, behind the formatting of its arguments.
unfoldable pub add_header : Bytes → Bytes → Bytes
add_header line header =
    let n = length header - 2 in
    let open_end = leb 2 (length header) && drop n header ==ˢ crlf in
    (if open_end then take n header else header) ++ (line ++ crlf)

-- The headers of a reply whose compressed body has `len` bytes.
unfoldable pub gzip_header : ℕ → Bytes → Bytes
unfolding remove_header add_header
gzip_header len header = add_header (codes "Content-Encoding: gzip" ++ crlf) (
    add_header (codes "Content-Length: " ++ (decimal len ++ crlf))
      (remove_header (codes "content-encoding:") (remove_header (codes "content-length:") header)))
