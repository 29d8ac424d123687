-- ===== src/Service/Mount.antt =====
-- The path of a service.
use shellinabox.Base.{
  ℕ, ◌≡◌, ◌≢◌, ◌⊎◌, refl, ◌&&◌, some, [], ◌∷◌, ◌++◌, Bytes, ◌==◌, get_or, length, arith, inl, inr,
  Bool-cases, All, Leaves, Leaves-bind,
}
use mathlib.Core.Path.{subst}
use shellinabox.ExternalFile.{skip_slashes}
use shellinabox.ExternalFile.Hidden.{skip_slashes-head}
use shellinabox.Service.{split_at, drop_slashes}

-- The path has one slash in front, none behind it or at the end, and no colon.
abbrev pub IsMount : Bytes → Type 0
IsMount path =
    (rest : Bytes) × (path ≡ b'/' ∷ rest)
    × (get_or rest 0 0 ≢ b'/')
    × ((front : Bytes) → rest ≢ front ++ b'/' ∷ [])
    × All (λ ch. ch ≢ b':') rest

-- What stands in front of the byte has no such byte, and begins as the text does.
abbrev IsFront : ℕ → Bytes → Bytes × Bytes → Type 0
IsFront ch s (front, rest) =
    All (λ c. c ≢ ch) front × ((front ≡ []) ⊎ (get_or front 0 0 ≡ get_or s 0 0))

split_at-IsFront : (ch : ℕ) (s : Bytes) → Leaves (IsFront ch s) (split_at ch s)
unfolding split_at
split_at-IsFront ch [] = tt
split_at-IsFront ch (c ∷ s) = elim (Bool-cases (c == ch)) [
  | inl e ↦ rw (Leaves, e) (tt, inl refl)
  | inr e ↦
      rw (Leaves, e)
        (Leaves-bind (IsFront ch (c ∷ s)) (split_at ch s) _ (λ r k. (
          (ground (arith, e), (subst (Leaves (IsFront ch s)) k (split_at-IsFront ch s)).0),
          inr refl,
        )))
]

drop_slashes-All : (P : ℕ → Type 0) (s : Bytes) → All P s → All P (drop_slashes s)
unfolding drop_slashes
drop_slashes-All P [] h = h
drop_slashes-All P (c ∷ s) h = elim (Bool-cases (length (drop_slashes s) == 0 && c == b'/')) [
  | inl e ↦ rw e tt
  | inr e ↦ rw e (h.0, drop_slashes-All P s h.1)
]

drop_slashes-head : (s : Bytes) → get_or s 0 0 ≢ b'/' → get_or (drop_slashes s) 0 0 ≢ b'/'
unfolding drop_slashes
drop_slashes-head [] h = h
drop_slashes-head (c ∷ s) h = ground (arith, h)

drop_slashes-end : (s front : Bytes) → drop_slashes s ≢ front ++ b'/' ∷ []
unfolding drop_slashes
drop_slashes-end [] [] e = ground (arith, e)
drop_slashes-end [] (d ∷ front) e = ground (arith, e)
drop_slashes-end (c ∷ s) [] e = ground (arith, e)
drop_slashes-end (c ∷ s) (d ∷ front) e = ground (arith, e, drop_slashes-end s front)

pub drop_slashes-IsMount :
    (s path rest : Bytes)
    → split_at b':' (skip_slashes s) ≡ some (path, rest)
    → IsMount (b'/' ∷ drop_slashes path)
drop_slashes-IsMount s path rest e =
    let front =
      subst (Leaves (IsFront b':' (skip_slashes s))) e (split_at-IsFront b':' (skip_slashes s)) in
    (
      drop_slashes path,
      refl,
      drop_slashes-head path (λ h. ground (arith, skip_slashes-head s, front.1, h)),
      drop_slashes-end path,
      drop_slashes-All (λ ch. ch ≢ b':') path front.0,
    )
