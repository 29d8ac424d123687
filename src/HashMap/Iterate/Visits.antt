-- ===== src/HashMap/Iterate/Visits.antt =====
-- Each entry is visited exactly once, whatever the callback drops; and what is left.
use shellinabox.Base.{
  ℕ, zero, suc, ◌≤◌, ◌≡◌, sym, ap, ◌∙◌, List, [], ◌∷◌, ◌++◌, Bytes, length, arith, inl, inr,
  Bool-cases,
}
use mathlib.Core.List.{Perm, append-nil, append_assoc, perm_append_singleton}
use mathlib.Core.List.Perm
use shellinabox.HashMap.Effects.{Destructor}
use shellinabox.HashMap.Bucket.{Chain, last_of, init_of}
use shellinabox.HashMap.Bucket.Removal.{init_of-append-last_of, rotated-length}
use shellinabox.HashMap.Flat.{flat}
use shellinabox.HashMap.Iterate.{Callback, Walk, iterate_chain, iterate_all, iterate_over_hash_map}
use shellinabox.HashMap.{HashMap}

module _ {ℓ} {V : Type ℓ} where
  rotated-Perm : (e : Bytes × V) (c : Chain V) → Perm (last_of e c ∷ init_of e c) (e ∷ c)
  rotated-Perm e c =
      rw (init_of-append-last_of e c) at
        (Perm.symm (perm_append_singleton (last_of e c) (init_of e c)))

-- The callback that also notes the entries with which it is called.
unfoldable pub noting {ℓ} : {S V : Type ℓ} → Callback S V → Callback (S × Chain V) V
noting fnc (s, seen) k v = let (s', v', keep) = fnc s k v in ((s', seen ++ (k, v) ∷ []), v', keep)

module _ {ℓ} {S V : Type ℓ} (d : Destructor) (fnc : Callback S V) where
  -- The walk has noted the entries of `c` behind `seen`, each once.
  abbrev Notes : {A : Type ℓ} → Walk (S × Chain V) V A → Chain V → Chain V → Type ℓ
  Notes w seen c = (vs : Chain V) × (w.state.1 ≡ seen ++ vs) × Perm vs c

  iterate_chain-Notes :
      (rounds : ℕ) (s : S) (seen c : Chain V)
      → length c ≤ rounds
      → Notes (iterate_chain d (noting fnc) rounds (s, seen) c) seen c
  unfolding iterate_chain noting
  iterate_chain-Notes zero s seen [] h = ([], sym (append-nil seen), Perm.refl [])
  iterate_chain-Notes zero s seen (e ∷ c) h = absurd (omega arith)
  iterate_chain-Notes (suc rounds) s seen [] h = ([], sym (append-nil seen), Perm.refl [])
  iterate_chain-Notes (suc rounds) s seen ((k, v) ∷ []) h = ((k, v) ∷ [], ground arith, Perm.refl _)
  iterate_chain-Notes (suc rounds) s seen ((k, v) ∷ e ∷ c) h =
      let (s', v', keep) = fnc s k v in
      let seen' = seen ++ (k, v) ∷ [] in
      elim (Bool-cases keep) [
        | inl stays ↦
            let (vs, noted, p) = iterate_chain-Notes rounds s' seen' (e ∷ c) (omega arith) in
            ((k, v) ∷ vs, rw stays (noted ∙ append_assoc seen ((k, v) ∷ []) vs), Perm.cons (k, v) p)
        | inr goes ↦
            let (vs, noted, p) =
              iterate_chain-Notes rounds s' seen' (last_of e c ∷ init_of e c)
                (omega (arith, rotated-length e c)) in
            (
              (k, v) ∷ vs,
              rw goes (noted ∙ append_assoc seen ((k, v) ∷ []) vs),
              Perm.cons (k, v) (Perm.trans p (rotated-Perm e c)),
            )
      ]

  iterate_all-Notes :
      (cs : List (Chain V)) (s : S) (seen : Chain V)
      → Notes (iterate_all d (noting fnc) (s, seen) cs) seen (flat cs)
  unfolding iterate_all flat
  iterate_all-Notes [] s seen = ([], sym (append-nil seen), Perm.refl [])
  iterate_all-Notes (c ∷ cs) s seen =
      let w = iterate_chain d (noting fnc) (length c) (s, seen) c in
      let (vs, noted, p) = iterate_chain-Notes (length c) s seen c (omega arith) in
      let (vs', noted', p') = iterate_all-Notes cs w.state.0 w.state.1 in
      (
        vs ++ vs',
        noted' ∙ ap (λ (l : Chain V). l ++ vs') noted ∙ append_assoc seen vs vs',
        Perm.append p p',
      )

-- `iterateOverHashMap` calls `fnc` exactly once with each entry of the table, also when it
-- drops entries and others move into their places.
pub iterate_over_hash_map-Perm {ℓ} :
    {S V : Type ℓ} (m : HashMap V) (fnc : Callback S V) (s : S)
    → Perm (iterate_over_hash_map m (noting fnc) (s, [])).state.1 (flat m.entries)
unfolding iterate_over_hash_map
iterate_over_hash_map-Perm m fnc s =
    let (vs, noted, p) = iterate_all-Notes m.destructor fnc m.entries s [] in rw noted p
