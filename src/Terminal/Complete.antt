-- ===== src/Terminal/Complete.antt =====
-- `completePendingRequest` and `sessionDone`: the output is passed on whole and in order.
use shellinabox.Base.{
  ℕ, zero, suc, ◌+◌, ◌-◌, ◌≤◌, ◌<◌, ◌≡◌, refl, sym, ap, inl, inr, not, ◌&&◌, Option, none, some,
  List, [], ◌∷◌, ◌++◌, Bytes, length, take, drop, All, arith, Option-cases, map, length-append,
  length-take, length-drop, take-append-drop,
}
use mathlib.Core.List.{append_assoc, append-nil}
use shellinabox.Terminal.{
  Request, Session, Reply, Outcome, is_null, store, split_off, finish, complete_pending_request,
}

-- The output that a session holds back.
abbrev pub held : Option Bytes → Bytes
held none = []
held (some b) = b

-- `len` counts the bytes of the buffer, and there is no buffer without a byte.
abbrev pub IsStored : Option Bytes → ℕ → Type 0
IsStored none len = len ≡ 0
IsStored (some b) len = (len ≡ length b) × (0 < len)

abbrev pub requests_of : Option Request → List Request
requests_of none = []
requests_of (some r) = r ∷ []

-- The output in a list of replies.
abbrev pub sent : List Reply → Bytes
sent [] = []
sent (r ∷ rs) = r.text ++ sent rs

pub sent-append : (rs qs : List Reply) → sent (rs ++ qs) ≡ sent rs ++ sent qs
sent-append [] qs = refl
sent-append (r ∷ rs) qs = cc (sent-append rs qs, append_assoc r.text (sent rs) (sent qs))

pub take-all : (n : ℕ) (xs : Bytes) → length xs ≤ n → take n xs ≡ xs
take-all zero [] h = refl
take-all zero (x ∷ xs) h = absurd (omega arith)
take-all (suc n) [] h = refl
take-all (suc n) (x ∷ xs) h = ap (◌∷◌ x) (take-all n xs (omega arith))

-- What `completePendingRequest` does to a session `s`, given the bytes `buf`.
pub record Completes (s : Session) (buf : Bytes) (max_length : ℕ) (o : Outcome) : Type 0 where
  pub stored : IsStored o.session.buffered o.session.len
  pub conserved : sent o.replies ++ held o.session.buffered ≡ held s.buffered ++ buf
  pub answered : map (λ r. r.http) o.replies ≡ requests_of s.http
  pub bounded : 0 < max_length → All (λ r. length r.text ≤ max_length) o.replies
  pub returned : o.live ≡ not (s.done && is_null o.session.buffered)
  pub idle : o.session.http ≡ none
  pub same_done : o.session.done ≡ s.done
  pub same_key : o.session.session_key ≡ s.session_key

abbrev Splits : Session → Bytes → ℕ → Bytes × Session → Type 0
Splits s buf max_length out =
    IsStored out.1.buffered out.1.len
    × (out.0 ++ held out.1.buffered ≡ held s.buffered ++ buf)
    × (0 < max_length → length out.0 ≤ max_length)
    × (out.1.done ≡ s.done)
    × (out.1.session_key ≡ s.session_key)

-- The rest of a text behind its first `m` bytes.
take-drop : (m : ℕ) (xs : Bytes) → take (length xs - m) (drop m xs) ≡ drop m xs
take-drop m xs = take-all (length xs - m) (drop m xs) (omega (arith, length-drop m xs))

abbrev Stores : Session → Bytes → Session → Type 0
Stores s buf t =
    IsStored t.buffered t.len
    × (held t.buffered ≡ held s.buffered ++ buf)
    × (t.http ≡ s.http)
    × (t.done ≡ s.done)
    × (t.session_key ≡ s.session_key)

store-Stores : (s : Session) (buf : Bytes) → IsStored s.buffered s.len → Stores s buf (store s buf)
unfolding store
store-Stores s [] stored = (stored, sym (append-nil (held s.buffered)), refl, refl, refl)
store-Stores s (c ∷ buf) stored = elim (Option-cases s.buffered) [
  | inl e ↦ ground (arith, e)
  | inr (b, e) ↦ ground (arith, e, take-all s.len b, length-append b (c ∷ buf))
]

split_off-Splits :
    (s : Session) (buf : Bytes) (max_length : ℕ)
    → IsStored s.buffered s.len
    → Splits s buf max_length (split_off s buf max_length)
unfolding split_off
split_off-Splits s buf max_length stored = elim (Option-cases s.buffered) [
  | inl e ↦ ground (
    arith,
    e,
    take-append-drop max_length buf,
    take-drop max_length buf,
    length-take max_length buf,
    length-drop max_length buf,
    append-nil buf,
  )
  | inr (b, e) ↦ ground (
    arith,
    e,
    take-append-drop max_length (b ++ buf),
    take-drop max_length (b ++ buf),
    length-take max_length (b ++ buf),
    length-drop max_length (b ++ buf),
    append-nil (b ++ buf),
    take-all s.len b,
    length-append b buf,
    take-all (s.len + length buf) (b ++ buf),
  )
]

-- On a session whose buffer is in order, completePendingRequest leaves it in order; what it
-- sends, followed by what it keeps, is what was kept before followed by the new bytes; it
-- answers exactly a pending request, which is pending no more, with at most maxLength bytes if
-- that is positive; and it returns 0 exactly if the child is done and nothing is kept.
pub complete_pending_request-Completes :
    (s : Session) (buf : Bytes) (max_length : ℕ)
    → IsStored s.buffered s.len
    → Completes s buf max_length (complete_pending_request s buf max_length)
unfolding complete_pending_request finish
complete_pending_request-Completes s buf max_length stored = elim (Option-cases s.http) [
  | inl e ↦ record {
    stored = ground (arith, e, store-Stores s buf);
    conserved = ground (arith, e, store-Stores s buf);
    answered = ground (arith, e);
    bounded = λ h. ground (arith, e);
    returned = ground (arith, e, store-Stores s buf);
    idle = ground (arith, e, store-Stores s buf);
    same_done = ground (arith, e, store-Stores s buf);
    same_key = ground (arith, e, store-Stores s buf);
  }
  | inr (r, e) ↦ record {
    stored = ground (arith, e, split_off-Splits s buf max_length);
    conserved =
        ground
          (arith, e, split_off-Splits s buf max_length, append-nil (split_off s buf max_length).0);
    answered = ground (arith, e);
    bounded = λ h. ground (arith, e, split_off-Splits s buf max_length);
    returned = ground (arith, e, split_off-Splits s buf max_length);
    idle = ground (arith, e);
    same_done = ground (arith, e, split_off-Splits s buf max_length);
    same_key = ground (arith, e, split_off-Splits s buf max_length);
  }
]
