-- ===== src/Tests/ExternalFile.antt =====
-- Files that are served from the disk.
use shellinabox.Base.{
  ◌≡◌, ◌↔◌, refl, true, false, some, [], ◌∷◌, ◌++◌, Bytes, codes, get_or, arith, ◌==ˢ◌, map,
}
use shellinabox.Payload.{http_done, http_partial_reply}
use shellinabox.ExternalFile.{
  File, not_found, sent, skip_slashes, file_name, is_hidden, mime_type, response_header, first_call,
  next_call, serve_rest,
}
use shellinabox.ExternalFile.Whole.{join, first_call-Sends, first_call-not_found_iff}

-- A path that leaves the directory.
abbrev outside : Bytes
outside = codes "/a/../../etc/passwd"

file_name-outside :
    file_name (codes "/srv") (skip_slashes outside) ≡ codes "/srv/a/../../etc/passwd"
unfolding file_name
file_name-outside = refl

is_hidden-outside : is_hidden outside ≡ false
unfolding is_hidden
is_hidden-outside = refl

is_hidden-dot : is_hidden (codes "//.ssh/id") ≡ true
unfolding is_hidden
is_hidden-dot = refl

mime_type-png : mime_type (codes "/srv/a.b.png") (codes "/x.txt") ≡ codes "image/png"
unfolding mime_type ◌==ˢ◌
mime_type-png = refl

abbrev password : File
password = record { size = 6; is_regular = true; reads = map some (codes "ro" ∷ codes "ot:x" ∷ []) }

-- A file that has become shorter is asked for again and again.
next_call-short :
    next_call false (record { total_size = 6; partial_size = 2; reads = [] })
    ≡ sent http_partial_reply [] (some (record { total_size = 6; partial_size = 2; reads = [] }))
unfolding next_call
next_call-short = refl

first_call-Sends_example :
    serve_rest 2 (first_call (codes "/srv") outside (codes "/x") false (some password))
    ≡ some (
      response_header (mime_type (file_name (codes "/srv") (skip_slashes outside)) (codes "/x")) 6
          ++ codes "root:x",
      http_done,
    )
unfolding join file_name skip_slashes ◌==ˢ◌
first_call-Sends_example =
    first_call-Sends (codes "/srv") outside (codes "/x") false (codes "ro" ∷ codes "ot:x" ∷ []) 2
      (omega arith) refl (omega arith) (omega arith) (omega arith)

first_call-not_found_iff_example :
    (first_call (codes "/srv") outside (codes "/x") true (some password) ≡ not_found)
    ↔ (get_or (skip_slashes outside) 0 0 ≡ b'.')
unfolding file_name skip_slashes ◌==ˢ◌
first_call-not_found_iff_example =
    first_call-not_found_iff (codes "/srv") outside (codes "/x") (codes "ro") true password
      (some (codes "ot:x") ∷ []) refl refl (omega arith) refl
