-- ===== src/Server/Swap.antt =====
-- The inner loop with which serverLoop puts the table in order.
use shellinabox.Base.{
  ℕ, zero, suc, ◌≤◌, ◌<◌, ◌≡◌, ◌≢◌, ◌⊎◌, refl, sym, ap, ◌∙◌, true, false, List, [], ◌∷◌, length,
  drop, get_or, set, arith, inl, inr, Bool-cases, All, length-set,
}
use mathlib.Core.List.{Perm}
use mathlib.Core.List.Perm
use shellinabox.Server.{PollFd, ServerConnection, Rest, swap_first, first_is_idle, settle}

abbrev pub Slot : Type 0
Slot = PollFd × ServerConnection

-- Both arrays together.
unfoldable pub slots : List PollFd → List ServerConnection → List Slot
slots (p ∷ ps) (c ∷ cs) = (p, c) ∷ slots ps cs
slots _ _ = []

abbrev pub IsIdle : PollFd → Type 0
IsIdle p = p.events ≡ 0

abbrev pub Waits : PollFd → Type 0
Waits p = p.events ≢ 0

module _ {A : Type 0} where
  length-swap_first : (n : ℕ) (xs : List A) → length (swap_first n xs) ≡ length xs
  unfolding swap_first
  length-swap_first zero xs = refl
  length-swap_first (suc n) [] = refl
  length-swap_first (suc n) (x ∷ xs) = ap suc (length-set xs n x)

  set-All :
      (P : A → Type 0) (xs : List A) (n : ℕ) (x : A)
      → n < length xs
      → P x
      → All P (drop (suc n) xs)
      → All P (drop n (set xs n x))
  set-All P [] n x h p q = absurd (omega arith)
  set-All P (z ∷ xs) zero x h p q = (p, q)
  set-All P (z ∷ xs) (suc n) x h p q = set-All P xs n x (omega (arith, h)) p q

  pub drop-All : (P : A → Type 0) (n : ℕ) (xs : List A) → length xs ≤ n → All P (drop n xs)
  drop-All P zero [] h = tt
  drop-All P zero (x ∷ xs) h = absurd (omega (arith, h))
  drop-All P (suc n) [] h = tt
  drop-All P (suc n) (x ∷ xs) h = drop-All P n xs (omega (arith, h))

exchange-Perm :
    (ps : List PollFd) (cs : List ServerConnection) (n : ℕ) (p : PollFd) (c : ServerConnection)
    → length ps ≡ length cs
    → Perm
        (slots (get_or ps n p ∷ set ps n p) (get_or cs n c ∷ set cs n c))
        (slots (p ∷ ps) (c ∷ cs))
unfolding slots
exchange-Perm [] [] n p c l = Perm.refl _
exchange-Perm [] (b ∷ cs) n p c l = absurd (ground (arith, l))
exchange-Perm (a ∷ ps) [] n p c l = absurd (ground (arith, l))
exchange-Perm (a ∷ ps) (b ∷ cs) zero p c l = Perm.swap _ _ _
exchange-Perm (a ∷ ps) (b ∷ cs) (suc n) p c l =
    Perm.trans (Perm.swap _ _ _) (
      Perm.trans (Perm.cons (a, b) (exchange-Perm ps cs n p c (omega (arith, l))))
        (Perm.swap _ _ _))

slots-swap_first :
    (n : ℕ) (ps : List PollFd) (cs : List ServerConnection)
    → length ps ≡ length cs
    → Perm (slots (swap_first n ps) (swap_first n cs)) (slots ps cs)
unfolding swap_first slots
slots-swap_first zero ps cs l = Perm.refl _
slots-swap_first (suc n) [] [] l = Perm.refl _
slots-swap_first (suc n) [] (c ∷ cs) l = absurd (ground (arith, l))
slots-swap_first (suc n) (p ∷ ps) [] l = absurd (ground (arith, l))
slots-swap_first (suc n) (p ∷ ps) (c ∷ cs) l = exchange-Perm ps cs n p c (omega (arith, l))

swap_first-All :
    (n : ℕ) (ps : List PollFd)
    → n < length ps
    → first_is_idle ps ≡ true
    → All IsIdle (drop (suc n) ps)
    → All IsIdle (drop n (swap_first n ps))
unfolding swap_first first_is_idle
swap_first-All n [] h f a = absurd (omega arith)
swap_first-All zero (p ∷ ps) h f a = (ground (arith, f), a)
swap_first-All (suc n) (p ∷ ps) h f a =
    set-All IsIdle ps n p (omega (arith, h)) (ground (arith, f)) a

-- The entries from the index i on, when the one at i has been chosen.
abbrev pub IsSettled : ℕ → List PollFd → List ServerConnection → Rest → Type 0
IsSettled n ps cs r =
    (length r.poll_fds ≡ length ps)
    × (length r.connections ≡ length cs)
    × Perm (slots r.poll_fds r.connections) (slots ps cs)
    × All IsIdle (drop r.to_poll r.poll_fds)
    × (r.to_poll ≤ n)
    × ((r.to_poll ≡ 0) ⊎ (first_is_idle r.poll_fds ≡ false))

pub settle-IsSettled :
    (n : ℕ) (ps : List PollFd) (cs : List ServerConnection)
    → n ≤ length ps
    → length ps ≡ length cs
    → All IsIdle (drop n ps)
    → IsSettled n ps cs (settle n ps cs)
unfolding settle
settle-IsSettled zero ps cs h l a = (refl, refl, Perm.refl _, a, omega arith, inl refl)
settle-IsSettled (suc n) ps cs h l a = elim (Bool-cases (first_is_idle ps)) [
  | inr e ↦ rw e (refl, refl, Perm.refl _, a, omega arith, inr e)
  | inl e ↦
      let lp = length-swap_first n ps in
      let lc = length-swap_first n cs in
      let r =
        settle-IsSettled n (swap_first n ps) (swap_first n cs) (omega (arith, h, lp))
          (lp ∙ l ∙ sym lc) (swap_first-All n ps (omega (arith, h)) e a) in
      rw e (
        r.0 ∙ lp,
        r.1 ∙ lc,
        Perm.trans r.2 (slots-swap_first n ps cs l),
        r.3,
        omega (arith, r),
        r.5,
      )
]
