-- ===== src/UserCss/Grouped.antt =====
-- The groups of the style sheets.
use shellinabox.Base.{
  ℕ, zero, suc, ◌+◌, ◌≤◌, ◌<◌, ◌≡◌, refl, ap, Bool, true, false, ◌&&◌, ◌||◌, Option, none, some,
  List, [], ◌∷◌, ◌++◌, Bytes, ◌==◌, length, arith, All, Leaves, Leaves-bind, Leaves-if,
}
use shellinabox.Service.{split_at}
use shellinabox.UserCss.{
  UserCss, file_name_end, activation, is_complete, prepend, behind_member, read_members,
  init_user_css,
}

abbrev pub one_if : Bool → ℕ
one_if true = 1
one_if false = 0

unfoldable pub active : List UserCss → ℕ
active [] = 0
active (c ∷ cs) = one_if c.is_activated + active cs

unfoldable pub all_of : List (List UserCss) → List UserCss
all_of [] = []
all_of (g ∷ gs) = g ++ all_of gs

abbrev pub Continues : UserCss → Type 0
Continues c = c.new_group ≡ false

-- Only the first member begins a group. At most one is active, and exactly one where there are
-- several.
abbrev pub IsGroup : List UserCss → Type 0
IsGroup [] = ⊥
IsGroup (c ∷ cs) =
    (c.new_group ≡ true)
    × All Continues cs
    × (active (c ∷ cs) ≤ 1)
    × (0 < length cs → active (c ∷ cs) ≡ 1)

abbrev pub AreGroups : List UserCss → Type 0
AreGroups cs = (gs : List (List UserCss)) × (cs ≡ all_of gs) × All IsGroup gs

-- The members from one on, of which so many have come before in its group, and whole groups behind
-- them.
unfoldable pub Goes : Bool → ℕ → Bool → List UserCss → Type 0
Goes new m h cs =
    (c : UserCss) × (g : List UserCss) × (gs : List (List UserCss)) × (cs ≡ c ∷ g ++ all_of gs)
    × (c.new_group ≡ new)
    × All Continues g
    × All IsGroup gs
    × (one_if h + active (c ∷ g) ≤ 1)
    × (1 < m + length g → one_if h + active (c ∷ g) ≡ 1)

prepend-Leaves :
    (P Q : List UserCss → Type 0) (c : UserCss) (o : Option (List UserCss))
    → ((cs : List UserCss) → P cs → Q (c ∷ cs))
    → Leaves P o
    → Leaves Q (prepend c o)
unfolding prepend
prepend-Leaves P Q c none f h = tt
prepend-Leaves P Q c (some cs) f h = f cs h

-- What the loop does with what follows.
abbrev GoesOn : (Bool → ℕ → Bool → Bytes → Option (List UserCss)) → Type 0
GoesOn next =
    (new : Bool) (m : ℕ) (h : Bool) (arg : Bytes) → Leaves (Goes new m h) (next new m h arg)

pub one_if-or : (a h : Bool) → (a && h) ≡ false → one_if (a || h) ≡ one_if h + one_if a
one_if-or true true w = absurd (ground (arith, w))
one_if-or true false w = omega arith
one_if-or false true w = omega arith
one_if-or false false w = omega arith

one_if-bound : (a : Bool) → one_if a ≤ 1
one_if-bound true = omega arith
one_if-bound false = omega arith

is_complete-one : (a : Bool) (m : ℕ) → is_complete a m ≡ true → 1 < m → one_if a ≡ 1
unfolding is_complete
is_complete-one true m k h = refl
is_complete-one false m k h = absurd (ground (arith, k, h))

-- A member in front of what follows it.
module _ (c : UserCss) (m : ℕ) (h : Bool) (w : (c.is_activated && h) ≡ false) where
  last-Goes : is_complete (c.is_activated || h) m ≡ true → Goes c.new_group m h (c ∷ [])
  unfolding Goes active all_of
  last-Goes k =
      let o = one_if-or c.is_activated h w in
      let b = one_if-bound (c.is_activated || h) in
      (
        c,
        [],
        [],
        refl,
        refl,
        tt,
        tt,
        omega (arith, o, b),
        λ l. omega (arith, o, is_complete-one (c.is_activated || h) m k (omega (arith, l))),
      )

  new-Goes :
      (cs : List UserCss)
      → is_complete (c.is_activated || h) m ≡ true
      → Goes true 1 false cs
      → Goes c.new_group m h (c ∷ cs)
  unfolding Goes active all_of
  new-Goes cs k (d, g, gs, e, n, a, b, l, i) =
      let o = one_if-or c.is_activated h w in
      let p = one_if-bound (c.is_activated || h) in
      (
        c,
        [],
        (d ∷ g) ∷ gs,
        ap (λ s. c ∷ s) e,
        refl,
        tt,
        ((n, a, omega (arith, l), λ x. omega (arith, i (omega (arith, x)))), b),
        omega (arith, o, p),
        λ x. omega (arith, o, is_complete-one (c.is_activated || h) m k (omega (arith, x))),
      )

  more-Goes :
      (cs : List UserCss)
      → Goes false (suc m) (c.is_activated || h) cs
      → Goes c.new_group m h (c ∷ cs)
  unfolding Goes active all_of
  more-Goes cs (d, g, gs, e, n, a, b, l, i) =
      let o = one_if-or c.is_activated h w in
      (
        c,
        d ∷ g,
        gs,
        ap (λ s. c ∷ s) e,
        refl,
        (n, a),
        b,
        omega (arith, o, l),
        λ x. omega (arith, o, i (omega (arith, x))),
      )

  behind_member-Goes :
      (next : Bool → ℕ → Bool → Bytes → Option (List UserCss)) (arg : Bytes)
      → GoesOn next
      → Leaves (Goes c.new_group m h) (behind_member next c m (c.is_activated || h) arg)
  unfolding behind_member
  behind_member-Goes next [] f =
      Leaves-if (Goes c.new_group m h) (is_complete (c.is_activated || h) m) _ _ last-Goes (λ k. tt)
  behind_member-Goes next (ch ∷ arg) f =
      Leaves-if (Goes c.new_group m h) (ch == b';') _ _
        (λ e.
          Leaves-if (Goes c.new_group m h) (is_complete (c.is_activated || h) m) _ _
            (λ k.
              prepend-Leaves (Goes true 1 false) (Goes c.new_group m h) c _ (λ cs. new-Goes cs k)
                (f true 1 false arg))
            (λ k. tt))
        (λ e.
          prepend-Leaves (Goes false (suc m) (c.is_activated || h)) (Goes c.new_group m h) c _
            more-Goes (f false (suc m) (c.is_activated || h) arg))

read_members-Goes : (read : Bytes → Option Bytes) (rounds : ℕ) → GoesOn (read_members read rounds)
unfolding read_members
read_members-Goes read zero new m h arg = tt
read_members-Goes read (suc rounds) new m h arg =
    Leaves-bind (Goes new m h) (split_at b':' arg) _ (λ (label, rest) e.
      Leaves-bind (Goes new m h) (activation (file_name_end rest).0) _
        (λ (is_activated, filename) f.
          Leaves-if (Goes new m h) (is_activated && h) _ _ (λ k. tt)
            (λ k. Leaves-bind (Goes new m h) (read filename) _ (λ style l.
              behind_member-Goes _ m h k (read_members read rounds) (file_name_end rest).1
                (read_members-Goes read rounds)))))

Leaves-map :
    (P Q : List UserCss → Type 0) (o : Option (List UserCss))
    → ((cs : List UserCss) → P cs → Q cs)
    → Leaves P o
    → Leaves Q o
Leaves-map P Q none f h = tt
Leaves-map P Q (some cs) f h = f cs h

Goes-AreGroups : (cs : List UserCss) → Goes true 1 false cs → AreGroups cs
unfolding Goes all_of
Goes-AreGroups cs (d, g, gs, e, n, a, b, l, i) =
    ((d ∷ g) ∷ gs, e, ((n, a, omega (arith, l), λ x. omega (arith, i (omega (arith, x)))), b))

-- What is accepted is in groups.
pub init_user_css-AreGroups :
    (read : Bytes → Option Bytes) (arg : Bytes) → Leaves AreGroups (init_user_css read arg)
unfolding init_user_css
init_user_css-AreGroups read arg =
    Leaves-map (Goes true 1 false) AreGroups _ Goes-AreGroups
      (read_members-Goes read (suc (length arg)) true 1 false arg)
