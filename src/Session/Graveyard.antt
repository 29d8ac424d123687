-- ===== src/Session/Graveyard.antt =====
-- Which sessions the graveyard gives up.
use shellinabox.Base.{
  ℕ, ◌+◌, ◌≤◌, ◌≡◌, refl, Bool, true, false, List, [], ◌∷◌, ltb, Bytes, if◌then◌else◌, arith,
}
use shellinabox.Session.{Grave, reap, check_graveyard_internal, add_to_graveyard}

-- A session that was buried at a time.
pub record Burial : Type 0 where
  pub buried : ℕ
  pub key : Bytes

-- The graveyard behind a sequence of burials, the last one first.
unfoldable pub bury_all : List Burial → List Grave
unfolding add_to_graveyard
bury_all [] = []
bury_all (b ∷ bs) = add_to_graveyard b.buried b.key (bury_all bs)

-- The burials more than `age` seconds ago, and the others.
unfoldable pub older : ℕ → ℕ → List Burial → List Bytes
older age now [] = []
older age now (b ∷ bs) =
    let rest = older age now bs in if ltb (b.buried + age) now then b.key ∷ rest else rest

unfoldable pub younger : ℕ → ℕ → List Burial → List Burial
younger age now [] = []
younger age now (b ∷ bs) =
    let rest = younger age now bs in if ltb (b.buried + age) now then rest else b ∷ rest

-- How long a session rests.
abbrev pub patience : Bool → ℕ
patience true = 135
patience false = 45

-- Behind any burials, and not before the second 90, checkGraveyardInternal deletes exactly the
-- sessions that were buried more than 45 seconds ago, and with expireAll only those that were
-- buried more than 135 seconds ago; the others stay in their order.
pub check_graveyard_internal-bury_all :
    (expire_all : Bool) (now : ℕ) (bs : List Burial)
    → 90 ≤ now
    → check_graveyard_internal expire_all now (bury_all bs)
      ≡ (bury_all (younger (patience expire_all) now bs), older (patience expire_all) now bs)
unfolding check_graveyard_internal bury_all younger older reap add_to_graveyard
check_graveyard_internal-bury_all expire_all now [] h = refl
check_graveyard_internal-bury_all true now (b ∷ bs) h =
    ground (arith, check_graveyard_internal-bury_all true now bs h)
check_graveyard_internal-bury_all false now (b ∷ bs) h =
    ground (arith, check_graveyard_internal-bury_all false now bs h)
