-- ===== src/Tests/Payload.antt =====
-- A body in three parts.
use shellinabox.Base.{codes, ◌++◌, ◌≡◌, refl, none, some, List, [], ◌∷◌, Bytes, arith}
use shellinabox.Payload.{Rc, http_done, new_payload}
use shellinabox.Payload.Whole.{body, collect_all, collect_all-body}

abbrev parts : List Bytes
parts = codes "width" ∷ [] ∷ codes "=80" ∷ []

-- The handler that is done with everything.
abbrev finished : Bytes → Rc
finished b = http_done

collect_all-parts :
    (collect_all finished (some 9) new_payload (parts ++ codes "&" ∷ [])).calls
    ≡ some (codes "width=80&") ∷ []
unfolding collect_all new_payload
collect_all-parts = refl

collect_all-body_example :
    collect_all finished (some 9) new_payload (parts ++ codes "&" ∷ []) ≡ record {
      payload = record { len = 0; bytes = none };
      calls = some (body parts ++ codes "&") ∷ [];
    }
unfolding body new_payload
collect_all-body_example =
    collect_all-body finished 9 (some []) parts b'&' [] (omega arith) (omega arith) (omega arith)
