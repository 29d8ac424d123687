-- ===== src/Service/Owners.antt =====
-- Who runs a service: the user and the group of its description.
use shellinabox.Base.{
  ℕ, ◌≤◌, ◌≡◌, ◌⊎◌, refl, ◌&&◌, Option, none, some, [], ◌∷◌, Bytes, ◌==ˢ◌, codes, arith, inl, inr,
  Option-cases, Leaves, Leaves-bind, Leaves-if,
}
use shellinabox.Terminal.{int_max}
use shellinabox.Http.Command.{skip_white}
use shellinabox.Service.{System, split_at, parse_id, Owner, parse_owner, signed_number, id_number}

-- The name is one whose id the database gives, or the name that goes with an id which was given as a
-- number of at most INT_MAX.
abbrev pub IsId : (Bytes → Option ℕ) → (ℕ → Bytes) → ℕ × Bytes → Type 0
IsId get_id get_name (id, name) = (get_id name ≡ some id) ⊎ ((name ≡ get_name id) × (id ≤ int_max))

-- A user and a group, or neither, for `AUTH`.
abbrev pub IsOwner : System → Owner → Type 0
IsOwner sys o =
    ((u : ℕ × Bytes) × (g : ℕ × Bytes) × (o.auth_user ≡ 0)
      × (o.user ≡ some u)
      × (o.group ≡ some g)
      × IsId sys.get_user_id sys.get_user_name u
      × IsId sys.get_group_id sys.get_group_name g)
    ⊎ ((o.auth_user ≡ 1) × (o.user ≡ none) × (o.group ≡ none))

signed_number-le : (s : Bytes) (n : ℕ) → signed_number s ≡ some n → n ≤ int_max
unfolding signed_number
signed_number-le [] n e = ground (arith, e)
signed_number-le (c ∷ s) n e = ground (arith, e)

id_number-le : (s : Bytes) (n : ℕ) → id_number s ≡ some n → n ≤ int_max
unfolding id_number
id_number-le s n e = ground (arith, e, signed_number-le (skip_white s) n)

parse_id-IsId :
    (get_id : Bytes → Option ℕ) (get_name : ℕ → Bytes) (arg : Bytes) (r : ℕ × Bytes)
    → parse_id get_id get_name arg ≡ some r
    → IsId get_id get_name r
unfolding parse_id
parse_id-IsId get_id get_name arg r e = elim (Option-cases (id_number arg)) [
  | inr (n, f) ↦ inr (ground (arith, e, f), ground (arith, e, f, id_number-le arg n f))
  | inl f ↦ elim (Option-cases (get_id arg)) [
    | inr (n, g) ↦ inl (ground (arith, e, f, g))
    | inl g ↦ absurd (ground (arith, e, f, g))
  ]
]

pub parse_owner-IsOwner : (sys : System) (arg : Bytes) → Leaves (IsOwner sys) (parse_owner sys arg)
unfolding parse_owner
parse_owner-IsOwner sys arg = Leaves-bind (IsOwner sys) (split_at b':' arg) _ (λ (name, rest) e.
    Leaves-if (IsOwner sys) (sys.supports_pam && (name ==ˢ codes "AUTH")) _ _
      (λ f. inr (refl, refl, refl))
      (λ f. Leaves-bind (IsOwner sys) (parse_id sys.get_user_id sys.get_user_name name) _ (λ u f'.
        Leaves-bind (IsOwner sys) (split_at b':' rest) _ (λ (group, more) h.
          Leaves-bind (IsOwner sys) (parse_id sys.get_group_id sys.get_group_name group) _ (λ g k.
            inl (
              u,
              g,
              refl,
              refl,
              refl,
              parse_id-IsId sys.get_user_id sys.get_user_name name u f',
              parse_id-IsId sys.get_group_id sys.get_group_name group g k,
            ))))))
