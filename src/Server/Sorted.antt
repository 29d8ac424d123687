-- ===== src/Server/Sorted.antt =====
-- The order in which serverLoop leaves the table for poll().
use shellinabox.Base.{
  ℕ, zero, suc, ◌≤◌, ◌≡◌, ◌≢◌, ◌⊎◌, refl, sym, ap, ◌∙◌, false, Option, none, some, List, [], ◌∷◌,
  length, take, drop, arith, inl, inr, Bool-cases, ltb, ◌==◌, All,
}
use mathlib.Core.Path.{subst}
use mathlib.Core.List.{Perm}
use mathlib.Core.List.Perm
use shellinabox.Server.{
  PollFd, ServerConnection, Rest, Sorting, first_is_idle, settle, earlier, counted, less_one,
  sort_behind, sort_fds,
}
use shellinabox.Server.Swap.{slots, IsIdle, Waits, drop-All, settle-IsSettled}

-- `b` is not later than `a`, if that is a time at all.
abbrev NotLater : Option ℕ → Option ℕ → Type 0
NotLater b none = Unit
NotLater b (some t) = (u : ℕ) × (b ≡ some u) × (u ≤ t)

-- `b` is not later than the timeout of the connection.
abbrev pub Covers : Option ℕ → ServerConnection → Type 0
Covers b c = (c.timeout ≡ 0) ⊎ ((u : ℕ) × (b ≡ some u) × (u ≤ c.timeout))

-- `b` is `a` or the timeout of one of the connections for which one is set.
abbrev pub ComesFrom : Option ℕ → List ServerConnection → Option ℕ → Type 0
ComesFrom a [] b = b ≡ a
ComesFrom a (c ∷ cs) b = ((c.timeout ≢ 0) × (b ≡ some c.timeout)) ⊎ ComesFrom a cs b

abbrev IsSorted : ℕ → Option ℕ → List PollFd → List ServerConnection → Sorting → Type 0
IsSorted n start ps cs s =
    (length s.rest.poll_fds ≡ length ps)
    × (length s.rest.connections ≡ length cs)
    × Perm (slots s.rest.poll_fds s.rest.connections) (slots ps cs)
    × All Waits (take s.rest.to_poll s.rest.poll_fds)
    × All IsIdle (drop s.rest.to_poll s.rest.poll_fds)
    × (s.rest.to_poll ≤ n)
    × NotLater s.timeout start
    × All (Covers s.timeout) s.rest.connections
    × ComesFrom start s.rest.connections s.timeout

NotLater-refl : (a : Option ℕ) → NotLater a a
NotLater-refl none = tt
NotLater-refl (some t) = (t, refl, omega arith)

earlier-cases :
    (a : Option ℕ) (c : ServerConnection)
    → ((earlier a c ≡ a) × ((b : Option ℕ) → NotLater b a → Covers b c))
      ⊎ ((earlier a c ≡ some c.timeout)
          × (c.timeout ≢ 0)
          × ((b : Option ℕ) → NotLater b (some c.timeout) → NotLater b a))
unfolding earlier
earlier-cases none c = elim (Bool-cases (c.timeout == 0)) [
  | inl e ↦ inl (rw (earlier, e) refl, λ b h. inl (ground (arith, e)))
  | inr e ↦ inr (rw (earlier, e) refl, ground (arith, e), λ b h. tt)
]
earlier-cases (some t) c = elim (Bool-cases (c.timeout == 0)) [
  | inl e ↦ inl (rw (earlier, e) refl, λ b h. inl (ground (arith, e)))
  | inr e ↦ elim (Bool-cases (ltb c.timeout t)) [
    | inl f ↦
        inr
          (rw (earlier, e, f) refl, ground (arith, e), λ b (u, g, h). (u, g, ground (arith, f, h)))
    | inr f ↦ inl (rw (earlier, e, f) refl, λ b (u, g, h). inr (u, g, ground (arith, f, h)))
  ]
]

earlier-NotLater :
    (a b : Option ℕ) (c : ServerConnection) → NotLater b (earlier a c) → NotLater b a × Covers b c
earlier-NotLater a b c h = elim (earlier-cases a c) [
  | inl (e, f) ↦ let k = subst (NotLater b) e h in (k, f b k)
  | inr (e, n, f) ↦ let k = subst (NotLater b) e h in (f b k, inr k)
]

ComesFrom-start :
    (a b : Option ℕ) (c : ServerConnection) (cs : List ServerConnection)
    → c.timeout ≢ 0
    → ComesFrom (some c.timeout) cs b
    → ComesFrom a (c ∷ cs) b
ComesFrom-start a b c [] n h = inl (n, h)
ComesFrom-start a b c (d ∷ cs) n (inl h) = inr (inl h)
ComesFrom-start a b c (d ∷ cs) n (inr h) = elim (ComesFrom-start a b c cs n h) [
  | inl k ↦ inl k
  | inr k ↦ inr (inr k)
]

earlier-ComesFrom :
    (a b : Option ℕ) (c : ServerConnection) (cs : List ServerConnection)
    → ComesFrom (earlier a c) cs b
    → ComesFrom a (c ∷ cs) b
earlier-ComesFrom a b c cs h = elim (earlier-cases a c) [
  | inl (e, f) ↦ inr (subst (λ t. ComesFrom t cs b) e h)
  | inr (e, n, f) ↦ ComesFrom-start a b c cs n (subst (λ t. ComesFrom t cs b) e h)
]

-- What the loop does from the next entry on.
abbrev Sorts : ℕ → (ℕ → Option ℕ → List PollFd → List ServerConnection → Sorting) → Type 0
Sorts rounds next =
    (n : ℕ) (start : Option ℕ) (ps : List PollFd) (cs : List ServerConnection)
    → n ≤ length ps
    → length ps ≡ rounds
    → length cs ≡ rounds
    → All IsIdle (drop n ps)
    → IsSorted n start ps cs (next n start ps cs)

sort_behind-IsSorted :
    (next : ℕ → Option ℕ → List PollFd → List ServerConnection → Sorting) (rounds n : ℕ)
    (start : Option ℕ) (ps : List PollFd) (cs : List ServerConnection)
    → Sorts rounds next
    → n ≤ length ps
    → length ps ≡ suc rounds
    → length cs ≡ suc rounds
    → All IsIdle (drop n ps)
    → (n ≡ 0) ⊎ (first_is_idle ps ≡ false)
    → IsSorted n start ps cs (sort_behind next start n ps cs)
unfolding sort_behind less_one counted first_is_idle slots
sort_behind-IsSorted next rounds n start [] cs f h l m a w = absurd (omega (arith, l))
sort_behind-IsSorted next rounds n start (p ∷ ps) [] f h l m a w = absurd (omega (arith, m))
sort_behind-IsSorted next rounds zero start (p ∷ ps) (c ∷ cs) f h l m a w =
    let r = f 0 (earlier start c) ps cs (omega arith) (omega (arith, l)) (omega (arith, m)) a.1 in
    let t = earlier-NotLater start _ c r.6 in
    let b : Rest = (next 0 (earlier start c) ps cs).rest in
    let z : b.to_poll ≡ 0 = omega (arith, r.5) in
    (
      ap suc r.0,
      ap suc r.1,
      Perm.cons (p, c) r.2,
      subst (λ k. All Waits (take k (p ∷ b.poll_fds))) (sym z) tt,
      subst (λ k. All IsIdle (drop k (p ∷ b.poll_fds))) (sym z)
          (a.0, subst (λ k. All IsIdle (drop k b.poll_fds)) z r.4),
      omega (arith, r),
      t.0,
      (t.1, r.7),
      earlier-ComesFrom start _ c _ r.8,
    )
sort_behind-IsSorted next rounds (suc n) start (p ∷ ps) (c ∷ cs) f h l m a w =
    let r =
      f n (earlier start c) ps cs (omega (arith, h)) (omega (arith, l)) (omega (arith, m)) a in
    let t = earlier-NotLater start _ c r.6 in
    (
      ap suc r.0,
      ap suc r.1,
      Perm.cons (p, c) r.2,
      (ground (arith, w), r.3),
      r.4,
      omega (arith, r),
      t.0,
      (t.1, r.7),
      earlier-ComesFrom start _ c _ r.8,
    )

sort_fds-IsSorted : (rounds : ℕ) → Sorts rounds (sort_fds rounds)
unfolding sort_fds slots
sort_fds-IsSorted zero (suc n) start [] [] h l m a = absurd (omega (arith, h))
sort_fds-IsSorted zero zero start [] [] h l m a =
    (refl, refl, Perm.refl _, tt, a, omega arith, NotLater-refl start, tt, refl)
sort_fds-IsSorted zero n start (p ∷ ps) cs h l m a = absurd (omega (arith, l))
sort_fds-IsSorted zero n start [] (c ∷ cs) h l m a = absurd (omega (arith, m))
sort_fds-IsSorted (suc rounds) n start ps cs h l m a =
    let s = settle-IsSettled n ps cs h (l ∙ sym m) a in
    let r : Rest = settle n ps cs in
    let b =
      sort_behind-IsSorted (sort_fds rounds) rounds r.to_poll start r.poll_fds r.connections
        (sort_fds-IsSorted rounds) (omega (arith, h, s.4, s.0)) (s.0 ∙ l) (s.1 ∙ m) s.3 s.5 in
    (b.0 ∙ s.0, b.1 ∙ s.1, Perm.trans b.2 s.2, b.3, b.4, omega (arith, b.5, s.4), b.6, b.7, b.8)

-- Before serverLoop polls, it leaves in both arrays the same entries, each connection still
-- with its file descriptor; the entries that are polled are exactly those that expect events,
-- and the rest stand behind them; the timeout is one that is set for a connection and not later
-- than any other that is set, or none where none is set.
pub sort_fds_lem :
    (ps : List PollFd) (cs : List ServerConnection)
    → length ps ≡ length cs
    → let s = sort_fds (length cs) (length cs) none ps cs in
      Perm (slots s.rest.poll_fds s.rest.connections) (slots ps cs)
      × (length s.rest.poll_fds ≡ length s.rest.connections)
      × All Waits (take s.rest.to_poll s.rest.poll_fds)
      × All IsIdle (drop s.rest.to_poll s.rest.poll_fds)
      × All (Covers s.timeout) s.rest.connections
      × ComesFrom none s.rest.connections s.timeout
sort_fds_lem ps cs l =
    let b =
      sort_fds-IsSorted (length cs) (length cs) none ps cs (omega (arith, l)) l refl
        (drop-All IsIdle (length cs) ps (omega (arith, l))) in
    (b.2, b.0 ∙ l ∙ sym b.1, b.3, b.4, b.7, b.8)
