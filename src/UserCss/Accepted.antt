-- ===== src/UserCss/Accepted.antt =====
-- Style sheets in groups are read as they are written.
use shellinabox.Base.{
  ℕ, zero, suc, ◌+◌, ◌≤◌, ◌<◌, ◌≡◌, ◌≢◌, ◌⊎◌, refl, sym, ap, ◌∙◌, Bool, true, false, ◌&&◌, ◌||◌,
  Option, some, List, [], ◌∷◌, ◌++◌, Bytes, ltb, if◌then◌else◌, length, get_or, arith, inl, inr,
  Bool-cases, All, length-append, map, Leaves, ◌↔◌,
}
use mathlib.Core.Path.{subst}
use shellinabox.Service.{split_at}
use shellinabox.Service.Describe.{field, NoColon, split_at-field}
use shellinabox.UserCss.{
  UserCss, escape_label, file_name_end, activation, is_complete, prepend, behind_member,
  read_members, init_user_css,
}
use shellinabox.UserCss.Grouped.{
  one_if, one_if-or, active, all_of, Continues, IsGroup, AreGroups, Goes, init_user_css-AreGroups,
}

tail_of : {A : Type 0} → List A → List A
tail_of [] = []
tail_of (x ∷ xs) = xs

complete-is_complete : (a : Bool) (m : ℕ) → (1 < m → one_if a ≡ 1) → is_complete a m ≡ true
unfolding is_complete
complete-is_complete true m f = refl
complete-is_complete false m f = elim (Bool-cases (ltb 1 m)) [
  | inl e ↦ absurd (omega (arith, f (ground (arith, e))))
  | inr e ↦ rw e refl
]

one_if-and : (a h : Bool) → one_if h + one_if a ≤ 1 → (a && h) ≡ false
one_if-and true true l = absurd (omega (arith, l))
one_if-and true false l = refl
one_if-and false h l = refl

-- What stands behind the first member.
Behind : UserCss → ℕ → Bool → List UserCss → Type 0
Behind c m h cs =
    ((cs ≡ []) × (is_complete (c.is_activated || h) m ≡ true))
    ⊎ ((is_complete (c.is_activated || h) m ≡ true) × Goes true 1 false cs)
    ⊎ Goes false (suc m) (c.is_activated || h) cs

whole-Behind :
    (m : ℕ) (h : Bool) (c : UserCss) (cs g : List UserCss) (gs : List (List UserCss))
    → cs ≡ g ++ all_of gs
    → All Continues g
    → All IsGroup gs
    → one_if h + active (c ∷ g) ≤ 1
    → (1 < m + length g → one_if h + active (c ∷ g) ≡ 1)
    → ((c.is_activated && h) ≡ false) × Behind c m h cs
unfolding Goes active all_of Behind
whole-Behind m h c cs [] [] e a b l i =
    let w = one_if-and c.is_activated h (omega (arith, l)) in
    let o = one_if-or c.is_activated h w in
    (w, inl (e, complete-is_complete _ m (λ x. omega (arith, o, i (omega (arith, x))))))
whole-Behind m h c cs [] ([] ∷ gs) e a b l i = absurd b.0
whole-Behind m h c cs [] ((x ∷ g) ∷ gs) e a b l i =
    let w = one_if-and c.is_activated h (omega (arith, l)) in
    let o = one_if-or c.is_activated h w in
    (
      w,
      inr (
          inl (
            complete-is_complete _ m (λ x. omega (arith, o, i (omega (arith, x)))),
            (
              x,
              g,
              gs,
              e,
              b.0.0,
              b.0.1,
              b.1,
              omega (arith, b.0.2),
              λ y. omega (arith, b.0.3 (omega (arith, y))),
            ),
          )),
    )
whole-Behind m h c cs (x ∷ g) gs e a b l i =
    let w = one_if-and c.is_activated h (omega (arith, l)) in
    let o = one_if-or c.is_activated h w in
    (
      w,
      inr (
          inr (
            x,
            g,
            gs,
            e,
            a.0,
            a.1,
            b,
            omega (arith, o, l),
            λ y. omega (arith, o, i (omega (arith, y))),
          )),
    )

Goes-Behind :
    (new : Bool) (m : ℕ) (h : Bool) (c : UserCss) (cs : List UserCss)
    → Goes new m h (c ∷ cs)
    → (c.new_group ≡ new) × ((c.is_activated && h) ≡ false) × Behind c m h cs
unfolding Goes tail_of
Goes-Behind new m h c cs (d, g, gs, e, n, a, b, l, i) =
    let f : c ≡ d = ap (λ s. get_or s 0 c) e in
    let t : cs ≡ g ++ all_of gs = ap tail_of e in
    let k =
      subst
        (λ d.
          (d.new_group ≡ new)
          × (one_if h + active (d ∷ g) ≤ 1)
          × (1 < m + length g → one_if h + active (d ∷ g) ≡ 1))
        (sym f) (n, l, i) in
    let r = whole-Behind m h c cs g gs t a b k.1 k.2 in (k.0, r.0, r.1)

Goes-nil : (new : Bool) (m : ℕ) (h : Bool) → Goes new m h [] → ⊥
unfolding Goes
Goes-nil new m h (d, g, gs, e, a, b, c, f, r) = ground (arith, e)

-- A member as it stands in the argument, with what its file reads as.
pub record Member : Type 0 where
  pub new_group : Bool
  pub is_activated : Bool
  pub label : Bytes
  pub filename : Bytes
  pub style : Bytes

abbrev pub sheet : Member → UserCss
sheet m = record {
  new_group = m.new_group;
  is_activated = m.is_activated;
  label = escape_label m.label;
  style = m.style;
}

-- A label without colons, and a name without commas and semicolons that can be read.
abbrev pub IsMember : (Bytes → Option Bytes) → Member → Type 0
IsMember read m =
    NoColon m.label
    × All (λ c. (c ≢ b',') × (c ≢ b';')) m.filename
    × (read m.filename ≡ some m.style)

abbrev sign : Bool → ℕ
sign b = if b then b'+' else b'-'

-- A member behind its group's sign.
unfoldable pub member_text : Member → Bytes → Bytes
member_text m rest = field m.label (sign m.is_activated ∷ (m.filename ++ rest))

unfoldable pub members_arg : Member → List Member → Bytes
unfolding member_text
members_arg m [] = member_text m []
members_arg m (n ∷ ms) = member_text m ((if n.new_group then b';' else b',') ∷ members_arg n ms)

file_name_end-append :
    (s rest : Bytes)
    → All (λ c. (c ≢ b',') × (c ≢ b';')) s
    → file_name_end rest ≡ ([], rest)
    → file_name_end (s ++ rest) ≡ (s, rest)
unfolding file_name_end
file_name_end-append [] rest h e = e
file_name_end-append (c ∷ s) rest h e = ground (arith, h.0, file_name_end-append s rest h.1 e)

file_name_end-sign :
    (b : Bool) (s rest : Bytes)
    → All (λ c. (c ≢ b',') × (c ≢ b';')) s
    → file_name_end rest ≡ ([], rest)
    → file_name_end (sign b ∷ (s ++ rest)) ≡ (sign b ∷ s, rest)
file_name_end-sign true s rest h e =
    file_name_end-append (b'+' ∷ s) rest ((omega arith, omega arith), h) e
file_name_end-sign false s rest h e =
    file_name_end-append (b'-' ∷ s) rest ((omega arith, omega arith), h) e

activation-sign : (b : Bool) (s : Bytes) → activation (sign b ∷ s) ≡ some (b, s)
unfolding activation
activation-sign true s = refl
activation-sign false s = refl

read_members-suc :
    (read : Bytes → Option Bytes) (rounds m : ℕ) (new a h : Bool)
    (arg label x file rest name style : Bytes)
    → split_at b':' arg ≡ some (label, x)
    → (file_name_end x).0 ≡ file
    → (file_name_end x).1 ≡ rest
    → activation file ≡ some (a, name)
    → (a && h) ≡ false
    → read name ≡ some style
    → read_members read (suc rounds) new m h arg
      ≡ behind_member
          (read_members read rounds)
          (record { new_group = new; is_activated = a; label = escape_label label; style = style })
          m
          (a || h)
          rest
unfolding read_members
read_members-suc read rounds m new a h arg label x file rest name style e f n g k l =
    rw (read_members, e) (rw f (rw g (rw (k, l) (rw n refl))))

read_members-text :
    (read : Bytes → Option Bytes) (rounds m : ℕ) (h : Bool) (e : Member) (rest : Bytes)
    → IsMember read e
    → (e.is_activated && h) ≡ false
    → file_name_end rest ≡ ([], rest)
    → read_members read (suc rounds) e.new_group m h (member_text e rest)
      ≡ behind_member (read_members read rounds) (sheet e) m (e.is_activated || h) rest
unfolding member_text
read_members-text read rounds m h e rest w k f =
    read_members-suc read rounds m e.new_group e.is_activated h (member_text e rest) e.label _ _
      rest e.filename e.style
      (split_at-field e.label (sign e.is_activated ∷ (e.filename ++ rest)) w.0)
      (ap (λ b. b.0) (file_name_end-sign e.is_activated e.filename rest w.1 f))
      (ap (λ b. b.1) (file_name_end-sign e.is_activated e.filename rest w.1 f))
      (activation-sign e.is_activated e.filename) k w.2

module _ (next : Bool → ℕ → Bool → Bytes → Option (List UserCss)) (c : UserCss) (m : ℕ)
    (h : Bool) where
  behind_member-last : is_complete h m ≡ true → behind_member next c m h [] ≡ some (c ∷ [])
  unfolding behind_member
  behind_member-last k = rw k refl

  behind_member-new :
      (arg : Bytes) (cs : List UserCss)
      → is_complete h m ≡ true
      → next true 1 false arg ≡ some cs
      → behind_member next c m h (b';' ∷ arg) ≡ some (c ∷ cs)
  unfolding behind_member prepend
  behind_member-new arg cs k e = rw k (rw e refl)

  behind_member-more :
      (arg : Bytes) (cs : List UserCss)
      → next false (suc m) h arg ≡ some cs
      → behind_member next c m h (b',' ∷ arg) ≡ some (c ∷ cs)
  unfolding behind_member prepend
  behind_member-more arg cs e = rw e refl

file_name_end-comma : (rest : Bytes) → file_name_end (b',' ∷ rest) ≡ ([], b',' ∷ rest)
unfolding file_name_end
file_name_end-comma rest = refl

file_name_end-semicolon : (rest : Bytes) → file_name_end (b';' ∷ rest) ≡ ([], b';' ∷ rest)
unfolding file_name_end
file_name_end-semicolon rest = refl

Goes-new :
    (new : Bool) (m : ℕ) (h : Bool) (c : UserCss) (cs : List UserCss)
    → Goes new m h (c ∷ cs)
    → c.new_group ≡ new
Goes-new new m h c cs w = (Goes-Behind new m h c cs w).0

read_members-members :
    (read : Bytes → Option Bytes) (rounds : ℕ) (new : Bool) (m : ℕ) (h : Bool) (e : Member)
    (es : List Member)
    → length es ≤ rounds
    → Goes new m h (map sheet (e ∷ es))
    → All (IsMember read) (e ∷ es)
    → read_members read (suc rounds) new m h (members_arg e es) ≡ some (map sheet (e ∷ es))
unfolding members_arg Behind
read_members-members read rounds new m h e [] l w v =
    let (n, k, r) = Goes-Behind new m h (sheet e) [] w in
    subst (λ new. read_members read (suc rounds) new m h (member_text e []) ≡ some (sheet e ∷ [])) n
      (read_members-text read rounds m h e [] v.0 k (unfold file_name_end in refl)
        ∙ behind_member-last _ (sheet e) m (e.is_activated || h) (elim r [
          | inl (a, c) ↦ c
          | inr (inl (c, g)) ↦ c
          | inr (inr g) ↦ absurd (Goes-nil false (suc m) (e.is_activated || h) g)
        ]))
read_members-members read zero new m h e (f ∷ es) l w v = absurd (omega (arith, l))
read_members-members read (suc rounds) new m h e (f ∷ es) l w v =
    let (n, k, r) = Goes-Behind new m h (sheet e) (map sheet (f ∷ es)) w in
    subst
      (λ new.
        read_members read (suc (suc rounds)) new m h (members_arg e (f ∷ es))
        ≡ some (map sheet (e ∷ f ∷ es)))
      n
      (elim r [
        | inl (a, c) ↦ absurd (ground (arith, a))
        | inr (inl (c, g)) ↦
            ap
              (λ b.
                read_members read (suc (suc rounds)) e.new_group m h
                  (member_text e ((if b then b';' else b',') ∷ members_arg f es)))
              (Goes-new true 1 false (sheet f) (map sheet es) g)
            ∙ read_members-text read (suc rounds) m h e (b';' ∷ members_arg f es) v.0 k
                (file_name_end-semicolon _)
            ∙ behind_member-new _ (sheet e) m (e.is_activated || h) (members_arg f es) _ c
                (read_members-members read rounds true 1 false f es (omega (arith, l)) g v.1)
        | inr (inr g) ↦
            ap
              (λ b.
                read_members read (suc (suc rounds)) e.new_group m h
                  (member_text e ((if b then b';' else b',') ∷ members_arg f es)))
              (Goes-new false (suc m) (e.is_activated || h) (sheet f) (map sheet es) g)
            ∙ read_members-text read (suc rounds) m h e (b',' ∷ members_arg f es) v.0 k
                (file_name_end-comma _)
            ∙ behind_member-more _ (sheet e) m (e.is_activated || h) (members_arg f es) _ (
                read_members-members read rounds false (suc m) (e.is_activated || h) f es
                  (omega (arith, l)) g v.1)
      ])

AreGroups-Goes : (c : UserCss) (cs : List UserCss) → AreGroups (c ∷ cs) → Goes true 1 false (c ∷ cs)
unfolding Goes all_of
AreGroups-Goes c cs ([], e, b) = absurd (ground (arith, e))
AreGroups-Goes c cs ([] ∷ gs, e, b) = absurd b.0
AreGroups-Goes c cs ((d ∷ g) ∷ gs, e, b) = (
  d,
  g,
  gs,
  e,
  b.0.0,
  b.0.1,
  b.1,
  omega (arith, b.0.2),
  λ y. omega (arith, b.0.3 (omega (arith, y))),
)

length-member_text : (e : Member) (rest : Bytes) → suc (length rest) ≤ length (member_text e rest)
unfolding member_text
length-member_text e rest = omega (
  arith,
  length-append e.label (b':' ∷ sign e.is_activated ∷ (e.filename ++ rest)),
  length-append e.filename rest,
)

length-members_arg : (e : Member) (es : List Member) → length es ≤ length (members_arg e es)
unfolding members_arg
length-members_arg e [] = omega arith
length-members_arg e (f ∷ es) = omega (
  arith,
  length-member_text e ((if f.new_group then b';' else b',') ∷ members_arg f es),
  length-members_arg f es,
)

-- Whatever initUserCSS accepts is in groups, in which only the first member begins one, at most
-- one member is active, and exactly one where there are several; and an argument that is put
-- together from members, with labels without colons and readable files whose names have no
-- comma or semicolon, with a semicolon before each member that begins a group and a comma
-- before the others, is read as exactly these members, their labels escaped, if and only if
-- they are in such groups.
pub init_user_css_lem :
    (read : Bytes → Option Bytes) (arg : Bytes) (e : Member) (es : List Member)
    → All (IsMember read) (e ∷ es)
    → Leaves AreGroups (init_user_css read arg)
      × ((init_user_css read (members_arg e es) ≡ some (map sheet (e ∷ es)))
          ↔ AreGroups (map sheet (e ∷ es)))
unfolding init_user_css
init_user_css_lem read arg e es v = (
  init_user_css-AreGroups read arg,
  (
    λ h. subst (Leaves AreGroups) h (init_user_css-AreGroups read (members_arg e es)),
    λ g.
        read_members-members read (length (members_arg e es)) true 1 false e es
          (length-members_arg e es) (AreGroups-Goes (sheet e) (map sheet es) g) v,
  ),
)
