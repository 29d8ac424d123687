-- ===== src/WebSocket/Read/Round.antt =====
-- One round of `httpHandleWebSocket`: it takes some bytes and does what they mean.
use shellinabox.Base.{
  ℕ, ◌+◌, ◌-◌, ◌*◌, ◌%◌, ◌≤◌, ◌<◌, ◌≡◌, refl, sym, ap, ◌∙◌, Bool, true, false, Option, none, some,
  List, [], ◌∷◌, Bytes, ltb, leb, ◌==◌, if◌then◌else◌, length, take, drop, arith, inl, inr,
  Bool-cases, length-drop, length-take, take-append-drop,
}
use mathlib.Core.Path.{subst}
use shellinabox.WebSocket.Read.{
  Message, Reader, deliver, read_type, read_length, next_frame, with_rest, read_binary, until_end,
  behind_text, read_text, read_round,
}
use shellinabox.WebSocket.Read.Stream.{
  at_type, in_length, in_text, at_data, feed, feeds, mode_of, onto, seen_of, view,
}
use shellinabox.WebSocket.Read.Bulk.{
  feeds-none, feeds-append, feeds-data, feeds-text, go_on, IsBehind, until_end-IsBehind, onto-empty,
}

-- The rounds that may still go by without a byte.
abbrev pub slack : Reader → ℕ
slack r = if r.undefined then 0 else 1

-- A round does what its bytes mean, and takes a byte, or makes the next round take one.
pub record Follows (r : Reader) (part : Bytes) (d : Reader) (rest : Bytes) : Type 0 where
  pub agrees : feeds part (some (view r)) ≡ feeds rest (some (view d))
  pub shrinks : 2 * length rest + slack d < 2 * length part + slack r

module _ (accepts : ℕ → Bool) (willing : (n : ℕ) → accepts n ≡ true) where
  pub slack-le : (d : Reader) → slack d ≤ 1
  slack-le d = ground arith

  mode_data : (r : Reader) → r.undefined ≡ false → mode_of r ≡ at_data r.kind r.expecting
  unfolding mode_of
  mode_data r u = ground (arith, u)

  mode_type : (r : Reader) → r.undefined ≡ true → (r.kind == 0) ≡ true → mode_of r ≡ at_type
  unfolding mode_of
  mode_type r u k = ground (arith, u, k)

  mode_length :
      (r : Reader)
      → r.undefined ≡ true
      → (r.kind == 0) ≡ false
      → mode_of r ≡ in_length r.kind r.expecting
  unfolding mode_of
  mode_length r u k = ground (arith, u, k)

  mode_text :
      (r : Reader) → r.undefined ≡ false → leb 128 r.kind ≡ false → mode_of r ≡ in_text r.kind
  unfolding mode_of at_data
  mode_text r u k = ground (arith, u, k)

  at_data-zero : (kind n : ℕ) → leb 128 kind ≡ true → (n == 0) ≡ true → at_data kind n ≡ at_type
  unfolding at_data
  at_data-zero kind n k x = ground (arith, k, x)

  read_type-mode :
      (r : Reader) (c : ℕ)
      → mode_of (read_type c r) ≡ (if leb 128 c then in_length c 0 else in_text c)
  unfolding mode_of read_type at_data
  read_type-mode r c = ground arith

  length_mode :
      (r : Reader) (c : ℕ)
      → (r.kind == 0) ≡ false
      → ltb 0xFFFFFF r.expecting ≡ false
      → feed (in_length r.kind r.expecting) c (seen_of r.log)
        ≡ some (view (record r { expecting = 128 * r.expecting + c % 128; undefined = leb 128 c }))
  unfolding feed view mode_of
  length_mode r c k e = elim (Bool-cases (leb 128 c)) [
    | inl b ↦ rw (e, b, k) refl
    | inr b ↦ rw (e, b) refl
  ]

  deliver-willing :
      (m : Message) (r : Reader)
      → (l : List Message) × (deliver accepts m r ≡ some (record r { log = l }))
        × (seen_of l ≡ onto m.kind m.text (seen_of r.log))
  unfolding deliver seen_of
  deliver-willing m r = elim (Bool-cases (length m.text == 0)) [
    | inl e ↦ (r.log, rw e refl, sym (onto-empty m.kind m.text (seen_of r.log) e))
    | inr e ↦ (m ∷ r.log, rw (e, willing (length r.log)) refl, refl)
  ]

  abbrev pub Shrunk : Reader → Bytes → Option (Reader × Bytes) → Type 0
  Shrunk r part none = feeds part (some (view r)) ≡ none
  Shrunk r part (some (d, rest)) = Follows r part d rest

  read_binary-Follows :
      (r : Reader) (part : Bytes)
      → r.undefined ≡ false
      → leb 128 r.kind ≡ true
      → 0 < r.expecting
      → 0 < length part
      → Shrunk r part (read_binary accepts r part)
  unfolding read_binary view mode_of with_rest
  read_binary-Follows r part u k x p =
      let len : ℕ = if leb r.expecting (length part) then r.expecting else length part in
      let m : Message = record {
        kind = r.kind;
        starts = r.starts;
        ends = leb r.expecting (length part);
        text = take len part;
      } in
      let after : Reader = record r { expecting = r.expecting - len; starts = false } in
      let h = deliver-willing m after in
      let d : Reader = record after { log = h.0 } in
      let some_part : 0 < len = ground arith in
      let in_part : len ≤ length part = ground arith in
      let in_data : len ≤ r.expecting = ground arith in
      let size = length-take len part in_part in
      subst (Shrunk r part) (ap (with_rest (drop len part)) (sym h.1)) (record {
        agrees =
            ap (λ q. feeds part (some (q, seen_of r.log))) (mode_data r u)
            ∙ ap (λ q. feeds q (some (at_data r.kind r.expecting, seen_of r.log)))
                (sym (take-append-drop len part))
            ∙ feeds-append (take len part) (drop len part)
                (some (at_data r.kind r.expecting, seen_of r.log))
            ∙ ap (feeds (drop len part)) (
                feeds-data r.kind r.expecting (take len part) (seen_of r.log) k
                  (omega (arith, size, in_data))
                ∙ cc (size, h.2, mode_data d u));
        shrinks = omega (arith, length-drop len part, some_part, in_part);
      })

  behind_text-Follows :
      (r : Reader) (part w : Bytes) (t : Option Bytes)
      → r.undefined ≡ false
      → leb 128 r.kind ≡ false
      → 0 < length part
      → feeds part (some (in_text r.kind, seen_of r.log))
        ≡ go_on r.kind t (onto r.kind w (seen_of r.log))
      → IsBehind t part
      → Shrunk r part (
          with_rest (behind_text t r).1 (
            deliver accepts
              (record { kind = r.kind; starts = r.starts; ends = true; text = w })
              (behind_text t r).0))
  unfolding view mode_of with_rest behind_text next_frame feeds
  behind_text-Follows r part w none u k p f b =
      let m : Message = record { kind = r.kind; starts = r.starts; ends = true; text = w } in
      let h = deliver-willing m (record r { starts = false; expecting = 0 }) in
      let d : Reader = record r { starts = false; expecting = 0; log = h.0 } in
      subst (Shrunk r part) (ap (with_rest []) (sym h.1)) (record {
        agrees =
            ap (λ q. feeds part (some (q, seen_of r.log))) (mode_text r u k)
            ∙ f
            ∙ cc (h.2, mode_text d u k);
        shrinks = omega (arith, slack-le d, p);
      })
  behind_text-Follows r part w (some rest) u k p f b =
      let m : Message = record { kind = r.kind; starts = r.starts; ends = true; text = w } in
      let h = deliver-willing m (next_frame r) in
      let d : Reader = record (next_frame r) { log = h.0 } in
      subst (Shrunk r part) (ap (with_rest rest) (sym h.1)) (record {
        agrees =
            ap (λ q. feeds part (some (q, seen_of r.log))) (mode_text r u k)
            ∙ f
            ∙ ap (λ q. feeds rest (some (at_type, q))) (sym h.2);
        shrinks = omega (arith, slack-le d, b);
      })

  read_text-Follows :
      (r : Reader) (part : Bytes)
      → r.undefined ≡ false
      → leb 128 r.kind ≡ false
      → 0 < length part
      → Shrunk r part (read_text accepts r part)
  unfolding read_text
  read_text-Follows r part u k p =
      behind_text-Follows r part (until_end part).0 (until_end part).1 u k p
        (feeds-text r.kind part (seen_of r.log)) (until_end-IsBehind part)

  at :
      (r : Reader) (c : ℕ) (s : Bytes) {o : Option (Reader × Bytes)}
      → read_round accepts r c s ≡ o
      → Shrunk r (c ∷ s) o
      → Shrunk r (c ∷ s) (read_round accepts r c s)
  at r c s e h = subst (Shrunk r (c ∷ s)) (sym e) h

  pub read_round-Follows :
      (r : Reader) (c : ℕ) (s : Bytes) → Shrunk r (c ∷ s) (read_round accepts r c s)
  unfolding read_round view with_rest read_length feeds feed next_frame
  read_round-Follows r c s = elim (Bool-cases r.undefined) [
    | inl u ↦ elim (Bool-cases (r.kind == 0)) [
      | inl k ↦ at r c s {o = some (read_type c r, s)} (ground (arith, u, k)) (record {
        agrees =
            ap (λ m. feeds (c ∷ s) (some (m, seen_of r.log))) (mode_type r u k)
            ∙ ap (λ m. feeds s (some (m, seen_of r.log))) (sym (read_type-mode r c));
        shrinks = omega (arith, slack-le (read_type c r));
      })
      | inr k ↦ elim (Bool-cases (ltb 0xFFFFFF r.expecting)) [
        | inl e ↦ at r c s {o = none} (ground (arith, u, k, e)) (
            ap (λ m. feeds (c ∷ s) (some (m, seen_of r.log))) (mode_length r u k)
            ∙ ap (feeds s) (ground (arith, e))
            ∙ feeds-none s)
        | inr e ↦
            let d : Reader = record r {
              expecting = 128 * r.expecting + c % 128;
              undefined = leb 128 c;
            } in
            at r c s {o = some (d, s)} (ground (arith, u, k, e)) (record {
              agrees =
                  ap (λ m. feeds (c ∷ s) (some (m, seen_of r.log))) (mode_length r u k)
                  ∙ ap (feeds s) (length_mode r c k e);
              shrinks = omega (arith, slack-le d);
            })
      ]
    ]
    | inr u ↦ elim (Bool-cases (leb 128 r.kind)) [
      | inl k ↦ elim (Bool-cases (r.expecting == 0)) [
        | inl x ↦ at r c s {o = some (next_frame r, c ∷ s)} (ground (arith, u, k, x)) (record {
          agrees =
              ap (λ m. feeds (c ∷ s) (some (m, seen_of r.log)))
                (mode_data r u ∙ at_data-zero r.kind r.expecting k x);
          shrinks = ground (arith, u);
        })
        | inr x ↦
            at r c s {o = read_binary accepts r (c ∷ s)} (ground (arith, u, k, x))
              (read_binary-Follows r (c ∷ s) u k (ground (arith, x)) (omega arith))
      ]
      | inr k ↦
          at r c s {o = read_text accepts r (c ∷ s)} (ground (arith, u, k))
            (read_text-Follows r (c ∷ s) u k (omega arith))
    ]
  ]
