-- ===== src/ExternalFile/Whole.antt =====
-- A file is sent whole, in whatever parts it is read.
use shellinabox.Base.{
  ℕ, zero, suc, ◌+◌, ◌*◌, ◌≤◌, ◌<◌, ◌≡◌, ◌≢◌, ◌↔◌, refl, sym, ap, ◌∙◌, Bool, true, false, Option,
  none, some, List, [], ◌∷◌, ◌++◌, Bytes, ◌==◌, if◌then◌else◌, length, get_or, codes, ◌==ˢ◌, arith,
  inl, inr, Bool-cases, All, length-append, map,
}
use mathlib.Core.List.{append-nil, append_assoc}
use shellinabox.Payload.{Rc, http_done, http_partial_reply}
use shellinabox.ExternalFile.Hidden.{is_hidden-skip_slashes}
use shellinabox.ExternalFile.{
  File, skip_slashes, file_name, mime_type, response_header, first_call, ExternalFileState,
  not_found, sent, read_next, send_first, next_call, serve_rest,
}

-- All parts together.
unfoldable pub join : List Bytes → Bytes
join [] = []
join (b ∷ bs) = b ++ join bs

next_call-part :
    (total seen : ℕ) (b : Bytes) (reads : List (Option Bytes))
    → seen + length b < total
    → next_call false (record { total_size = total; partial_size = seen; reads = some b ∷ reads })
      ≡ sent http_partial_reply b
          (some (record { total_size = total; partial_size = seen + length b; reads = reads }))
unfolding next_call read_next
next_call-part total seen b reads h = ground arith

next_call-last :
    (total seen : ℕ) (b : Bytes) (reads : List (Option Bytes))
    → total ≤ seen + length b
    → next_call false (record { total_size = total; partial_size = seen; reads = some b ∷ reads })
      ≡ sent http_done b none
unfolding next_call read_next
next_call-last total seen b reads h = ground arith

serve_rest-sent :
    (fuel : ℕ) (rc last : Rc) (b more : Bytes) (s : ExternalFileState)
    → serve_rest fuel (next_call false s) ≡ some (more, last)
    → serve_rest (suc fuel) (sent rc b (some s)) ≡ some (b ++ more, last)
unfolding serve_rest
serve_rest-sent fuel rc last b more s e = ground (arith, e)

serve_rest-last : (fuel : ℕ) (rc : Rc) (b : Bytes) → serve_rest fuel (sent rc b none) ≡ some (b, rc)
unfolding serve_rest
serve_rest-last fuel rc b = refl

serve_rest-parts :
    (bs : List Bytes) (b : Bytes) (fuel total seen : ℕ)
    → All (λ c. 0 < length c) bs
    → total ≡ seen + length (b ++ join bs)
    → length bs ≤ fuel
    → serve_rest fuel (
        next_call false
          (record { total_size = total; partial_size = seen; reads = some b ∷ map some bs }))
      ≡ some (b ++ join bs, http_done)
unfolding join
serve_rest-parts [] b fuel total seen hs e l =
    ap (serve_rest fuel) (next_call-last total seen b [] (omega (arith, e, length-append b [])))
    ∙ serve_rest-last fuel http_done b
    ∙ ap (λ s. some (s, http_done)) (sym (append-nil b))
serve_rest-parts (c ∷ bs) b zero total seen hs e l = elim l [ ]
serve_rest-parts (c ∷ bs) b (suc fuel) total seen hs e l =
    let outer = length-append b (c ++ join bs) in
    let inner = length-append c (join bs) in
    ap (serve_rest (suc fuel))
      (next_call-part total seen b (some c ∷ map some bs) (omega (arith, e, outer, inner, hs.0)))
    ∙ serve_rest-sent fuel http_partial_reply http_done b (c ++ join bs) _ (
        serve_rest-parts bs c fuel total (seen + length b) hs.1 (omega (arith, e, outer, inner))
          (omega (arith, l)))

send_first-part :
    (header b : Bytes) (size : ℕ) (reads : List (Option Bytes))
    → length b < size
    → send_first false header size (some b ∷ reads)
      ≡ sent http_partial_reply
          (header ++ b)
          (some (record { total_size = size; partial_size = length b; reads = reads }))
unfolding send_first read_next
send_first-part header b size reads h = ground arith

send_first-whole :
    (header b : Bytes) (size : ℕ) (reads : List (Option Bytes))
    → length b ≡ size
    → send_first false header size (some b ∷ reads) ≡ sent http_done (header ++ b) none
unfolding send_first read_next
send_first-whole header b size reads h = ground arith

send_first-empty :
    (header : Bytes) → send_first false header 0 [] ≡ sent http_done (header ++ []) none
unfolding send_first read_next
send_first-empty header = refl

-- A file in its parts.
serve_rest-first :
    (bs : List Bytes) (header : Bytes) (fuel : ℕ)
    → All (λ c. 0 < length c) bs
    → length bs ≤ fuel
    → serve_rest fuel (send_first false header (length (join bs)) (map some bs))
      ≡ some (header ++ join bs, http_done)
unfolding join
serve_rest-first [] header fuel h l =
    ap (serve_rest fuel) (send_first-empty header) ∙ serve_rest-last fuel http_done (header ++ [])
serve_rest-first (b ∷ []) header fuel h l =
    ap (serve_rest fuel)
      (send_first-whole header b (length (b ++ [])) [] (omega (arith, length-append b [])))
    ∙ serve_rest-last fuel http_done (header ++ b)
    ∙ ap (λ s. some (header ++ s, http_done)) (sym (append-nil b))
serve_rest-first (b ∷ c ∷ bs) header zero h l = elim l [ ]
serve_rest-first (b ∷ c ∷ bs) header (suc fuel) h l =
    let outer = length-append b (c ++ join bs) in
    let inner = length-append c (join bs) in
    let size : ℕ = length (b ++ (c ++ join bs)) in
    ap (serve_rest (suc fuel))
      (send_first-part header b size (some c ∷ map some bs) (omega (arith, outer, inner, h.1.0)))
    ∙ serve_rest-sent fuel http_partial_reply http_done (header ++ b) (c ++ join bs) _ (
        serve_rest-parts bs c fuel size (length b) h.1.1 (omega (arith, outer, inner))
          (omega (arith, l)))
    ∙ ap (λ s. some (s, http_done)) (append_assoc header b (c ++ join bs))

send_first-head :
    (fuel : ℕ) (header : Bytes) (size : ℕ) (reads : List (Option Bytes))
    → serve_rest fuel (send_first true header size reads) ≡ some (header ++ [], http_done)
unfolding send_first
send_first-head fuel header size reads =
    serve_rest-last fuel http_done header ∙ ap (λ s. some (s, http_done)) (sym (append-nil header))

send_first-found :
    (is_head : Bool) (header first : Bytes) (size : ℕ) (all reads : List (Option Bytes))
    → all ≡ some first ∷ reads
    → send_first is_head header size all ≢ not_found
unfolding send_first read_next
send_first-found is_head header first size all reads r e = ground (arith, r, e)

-- A name with a dot in front is refused, whether there is such a file or not.
first_call-hidden :
    (root path_info path : Bytes) (is_head : Bool) (file : Option File)
    → get_or (skip_slashes path_info) 0 0 ≡ b'.'
    → first_call root path_info path is_head file ≡ not_found
unfolding first_call
first_call-hidden root path_info path is_head file h =
    ground (arith, h, is_hidden-skip_slashes path_info)

-- A request for a file that is there: its name is not refused, and it is a regular file of at most
-- 100 MB.
module _ (root path_info path : Bytes) (f : File)
    (shown : get_or (skip_slashes path_info) 0 0 ≢ b'.')
    (real : (file_name root (skip_slashes path_info) ==ˢ codes "/dev/null") ≡ false)
    (regular : f.is_regular ≡ true) (small : f.size ≤ 100 * 1048576) where
  -- The header of its reply.
  abbrev pub header : Bytes
  header = response_header (mime_type (file_name root (skip_slashes path_info)) path) f.size

  pub first_call-send_first :
      (is_head : Bool)
      → first_call root path_info path is_head (some f) ≡ send_first is_head header f.size f.reads
  unfolding first_call
  first_call-send_first is_head =
      ground (arith, real, regular, small, is_hidden-skip_slashes path_info, shown)

-- If a request for a file is not refused by its name, and the file is a regular one of at most
-- 100 MB, other than /dev/null, whose reads give its bytes in any parts but empty ones, then
-- externalFileHttpHandler, called again as long as its reply is partial, sends the header with
-- the size of the file, and behind it exactly the bytes of the file, or none for HEAD; its last
-- result is HTTP_DONE, within a call for each part.
pub first_call-Sends :
    (root path_info path : Bytes) (is_head : Bool) (bs : List Bytes) (fuel : ℕ)
    → let info = skip_slashes path_info in
      let fn = file_name root info in
      let size : ℕ = length (join bs) in
      let file : File = record { size = size; is_regular = true; reads = map some bs } in
      get_or info 0 0 ≢ b'.'
      → (fn ==ˢ codes "/dev/null") ≡ false
      → size ≤ 100 * 1048576
      → All (λ c. 0 < length c) bs
      → length bs ≤ fuel
      → serve_rest fuel (first_call root path_info path is_head (some file))
        ≡ some (
          response_header (mime_type fn path) size ++ (if is_head then [] else join bs),
          http_done,
        )
first_call-Sends root path_info path true bs fuel f n l h u =
    let file : File = record { size = length (join bs); is_regular = true; reads = map some bs } in
    ap (serve_rest fuel) (first_call-send_first root path_info path file f n refl l true)
    ∙ send_first-head fuel (header root path_info path file f n refl l) (length (join bs))
        (map some bs)
first_call-Sends root path_info path false bs fuel f n l h u =
    let file : File = record { size = length (join bs); is_regular = true; reads = map some bs } in
    ap (serve_rest fuel) (first_call-send_first root path_info path file f n refl l false)
    ∙ serve_rest-first bs (header root path_info path file f n refl l) fuel h u

-- For a regular file of at most 100 MB, other than /dev/null, that can be read,
-- externalFileHttpHandler answers "File not found" exactly where the path info behind its
-- slashes begins with a dot; what stands in it further on, such as a directory .., makes no
-- difference.
pub first_call-not_found_iff :
    (root path_info path first : Bytes) (is_head : Bool) (f : File) (reads : List (Option Bytes))
    → (file_name root (skip_slashes path_info) ==ˢ codes "/dev/null") ≡ false
    → f.is_regular ≡ true
    → f.size ≤ 100 * 1048576
    → f.reads ≡ some first ∷ reads
    → (first_call root path_info path is_head (some f) ≡ not_found)
      ↔ (get_or (skip_slashes path_info) 0 0 ≡ b'.')
first_call-not_found_iff root path_info path first is_head f reads n g l r = (
  λ e. elim (Bool-cases (get_or (skip_slashes path_info) 0 0 == b'.')) [
    | inl h ↦ ground (arith, h)
    | inr h ↦ absurd (
        send_first-found is_head (header root path_info path f (ground (arith, h)) n g l) first
          f.size f.reads reads r
          (sym (first_call-send_first root path_info path f (ground (arith, h)) n g l is_head) ∙ e))
  ],
  first_call-hidden root path_info path is_head (some f),
)
