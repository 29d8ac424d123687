-- ===== src/WebSocket/Read/Bulk.antt =====
-- Several bytes of a stream of frames at once.
use shellinabox.Base.{
  ℕ, ◌-◌, ◌≤◌, ◌<◌, ◌≡◌, refl, sym, ap, ◌∙◌, true, Option, none, some, [], ◌∷◌, ◌++◌, Bytes, leb,
  ◌==◌, length, arith, inl, inr, Bool-cases,
}
use shellinabox.WebSocket.Read.{until_end}
use shellinabox.WebSocket.Read.Stream.{
  Mode, at_type, in_text, in_data, at_data, Seen, feed, feeds, onto,
}

pub feeds-none : (s : Bytes) → feeds s none ≡ none
unfolding feeds
feeds-none [] = refl
feeds-none (c ∷ s) = refl

pub feeds-append : (s t : Bytes) (x : Option (Mode × Seen)) → feeds (s ++ t) x ≡ feeds t (feeds s x)
unfolding feeds
feeds-append [] t x = refl
feeds-append (c ∷ s) t none = sym (feeds-none t)
feeds-append (c ∷ s) t (some (m, seen)) = feeds-append s t (feed m c seen)

-- Some bytes of binary data.
at_data-suc : (kind n : ℕ) → leb 128 kind ≡ true → 0 < n → at_data kind n ≡ in_data kind n
unfolding at_data
at_data-suc kind n h l = ground arith

pub feeds-data :
    (kind n : ℕ) (s : Bytes) (seen : Seen)
    → leb 128 kind ≡ true
    → length s ≤ n
    → feeds s (some (at_data kind n, seen)) ≡ some (at_data kind (n - length s), onto kind s seen)
unfolding feeds feed onto
feeds-data kind n [] seen h l = ap (λ i. some (at_data kind i, seen)) (omega arith)
feeds-data kind n (c ∷ s) seen h l =
    ap (λ m. feeds (c ∷ s) (some (m, seen))) (at_data-suc kind n h (omega arith))
    ∙ feeds-data kind (n - 1) s ((kind, c) ∷ seen) h (omega arith)
    ∙ ap (λ i. some (at_data kind i, onto kind s ((kind, c) ∷ seen))) (omega arith)

-- What becomes of a text: it goes on, or it ends and the next frame begins.
abbrev pub go_on : ℕ → Option Bytes → Seen → Option (Mode × Seen)
go_on kind none seen = some (in_text kind, seen)
go_on kind (some rest) seen = feeds rest (some (at_type, seen))

-- A text up to its end, or to that of the bytes.
pub feeds-text :
    (kind : ℕ) (s : Bytes) (seen : Seen)
    → feeds s (some (in_text kind, seen))
      ≡ go_on kind (until_end s).1 (onto kind (until_end s).0 seen)
unfolding feeds feed until_end onto
feeds-text kind [] seen = refl
feeds-text kind (c ∷ s) seen = elim (Bool-cases (c == 0xFF)) [
  | inl e ↦ rw e refl
  | inr e ↦ rw e (feeds-text kind s ((kind, c) ∷ seen))
]

-- What is left behind a text is shorter.
abbrev pub IsBehind : Option Bytes → Bytes → Type 0
IsBehind none part = Unit
IsBehind (some rest) part = length rest < length part

IsBehind-suc : (t : Option Bytes) (c : ℕ) (s : Bytes) → IsBehind t s → IsBehind t (c ∷ s)
IsBehind-suc none c s h = tt
IsBehind-suc (some rest) c s h = omega (arith, h)

pub until_end-IsBehind : (s : Bytes) → IsBehind (until_end s).1 s
unfolding until_end
until_end-IsBehind [] = tt
until_end-IsBehind (c ∷ s) = elim (Bool-cases (c == 0xFF)) [
  | inl e ↦ rw e (omega arith)
  | inr e ↦ rw e (IsBehind-suc (until_end s).1 c s (until_end-IsBehind s))
]

pub onto-empty :
    (kind : ℕ) (s : Bytes) (seen : Seen) → (length s == 0) ≡ true → onto kind s seen ≡ seen
unfolding onto
onto-empty kind [] seen e = refl
onto-empty kind (c ∷ s) seen e = absurd (ground (arith, e))
