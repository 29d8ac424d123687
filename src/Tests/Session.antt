-- ===== src/Tests/Session.antt =====
-- Keys and graves at concrete values.
use shellinabox.Base.{codes, ◌+◌, ◌*◌, ◌/◌, ◌≡◌, refl, true, List, [], ◌∷◌, Bytes, arith, length}
use shellinabox.Base.{◌≢◌, none, some, ◌==ˢ◌}
use shellinabox.HashMap.{get_ref_from_hash_map}
use shellinabox.HashMap.Effects.{present, indeterminate, Returns, return}
use shellinabox.HashMap.Table.{total}
use shellinabox.HashMap.Refines.{IsValid, init_hash_map-IsValid}
use shellinabox.Session.Find.{sessions_of, find_session}
use shellinabox.Session.Find.Found.{Finds, find_session-Finds}
use shellinabox.Session.{session_key_of, check_graveyard_internal}
use shellinabox.Session.Key.{read_key, session_key_of_lem}
use shellinabox.Session.Graveyard.{
  Burial, bury_all, younger, older, patience, check_graveyard_internal-bury_all,
}

abbrev random : Bytes
random = 0 ∷ 16 ∷ 131 ∷ 16 ∷ 81 ∷ 135 ∷ 32 ∷ 146 ∷ 139 ∷ 48 ∷ 211 ∷ 143 ∷ 65 ∷ 20 ∷ 147 ∷ 255 ∷ []

session_key_of-random : session_key_of random ≡ codes "ABCDEFGHIJKLMNOPQRST/w"
unfolding session_key_of
session_key_of-random = refl

session_key_of_lem_example :
    (read_key 0 0 (session_key_of random) ≡ random)
    × (length (session_key_of random) ≡ (8 * 16 + 5) / 6)
session_key_of_lem_example = session_key_of_lem random (omega arith) refl

abbrev burials : List Burial
burials =
    record { buried = 1000; key = codes "c" }
    ∷ record { buried = 950; key = codes "b" }
    ∷ record { buried = 860; key = codes "a" }
    ∷ []

check_graveyard_internal-bury_all_example :
    check_graveyard_internal true 1000 (bury_all burials)
    ≡ (bury_all (younger (patience true) 1000 burials), older (patience true) 1000 burials)
check_graveyard_internal-bury_all_example =
    check_graveyard_internal-bury_all true 1000 burials (omega arith)

not_indeterminate : present ≢ indeterminate
not_indeterminate e = ground (arith, e)

sessions_of-IsValid : IsValid (sessions_of none)
unfolding sessions_of
sessions_of-IsValid = init_hash_map-IsValid present not_indeterminate

find_session-Finds_example :
    Returns (find_session none (some []) random none) (Finds none (some []) (sessions_of none))
unfolding sessions_of get_ref_from_hash_map total
find_session-Finds_example =
    find_session-Finds none (some []) random none sessions_of-IsValid (omega arith)
      (λ e. ground (arith, e)) (λ e. refl)

-- A key from CGI is the only one.
find_session-cgi :
    find_session (some (codes "a")) (some (codes "b")) random none
    ≡ return (record { sessions = sessions_of none; session = none; is_new = true })
unfolding find_session ◌==ˢ◌
find_session-cgi = refl
