-- ===== src/Server/Search.antt =====
-- The search for the connection of a file descriptor.
use shellinabox.Base.{
  ℕ, suc, ◌≡◌, ◌⊎◌, refl, sym, ap, ◌∙◌, true, false, Option, none, some, List, [], ◌∷◌, ◌++◌,
  length, get_elem?, set, arith, inl, inr, Bool-cases, ◌==◌, if◌then◌else◌,
}
use mathlib.Core.Path.{subst}
use shellinabox.Server.{
  PollFd, ServerConnection, Server, find_connection, live_fds, live_connections,
}
use shellinabox.Server.Swap.{Slot}

-- The entries that are not deleted, in the order of the arrays.
unfoldable pub live_slots : List PollFd → List ServerConnection → List Slot
live_slots (p ∷ ps) (c ∷ cs) =
    let rest = live_slots ps cs in if c.deleted then rest else (p, c) ∷ rest
live_slots _ _ = []

unfoldable pub live : Server → List Slot
unfolding live_slots
live s = live_slots s.poll_fds s.connections

abbrev pub IsAligned : Server → Type 0
IsAligned s = length s.poll_fds ≡ length s.connections

-- The first entry of a file descriptor, and the list without it.
unfoldable pub find : ℕ → List Slot → Option Slot
find fd [] = none
find fd ((p, c) ∷ l) = if fd == p.fd then some (p, c) else find fd l

unfoldable pub remove : ℕ → List Slot → List Slot
remove fd [] = []
remove fd ((p, c) ∷ l) = let rest = remove fd l in if fd == p.fd then l else (p, c) ∷ rest

pub live_slots-add :
    (ps : List PollFd) (cs : List ServerConnection) (p : PollFd) (c : ServerConnection)
    → length ps ≡ length cs
    → c.deleted ≡ false
    → live_slots (ps ++ p ∷ []) (cs ++ c ∷ []) ≡ live_slots ps cs ++ (p, c) ∷ []
unfolding live_slots
live_slots-add [] [] p c l h = rw h refl
live_slots-add [] (d ∷ cs) p c l h = absurd (omega (arith, l))
live_slots-add (q ∷ ps) [] p c l h = absurd (omega (arith, l))
live_slots-add (q ∷ ps) (d ∷ cs) p c l h =
    ground (arith, live_slots-add ps cs p c (omega (arith, l)) h)

pub live_slots-clean :
    (ps : List PollFd) (cs : List ServerConnection)
    → length ps ≡ length cs
    → (live_slots (live_fds ps cs) (live_connections cs) ≡ live_slots ps cs)
      × (length (live_fds ps cs) ≡ length (live_connections cs))
unfolding live_slots live_fds live_connections
live_slots-clean [] [] l = (refl, refl)
live_slots-clean [] (d ∷ cs) l = absurd (omega (arith, l))
live_slots-clean (q ∷ ps) [] l = absurd (omega (arith, l))
live_slots-clean (q ∷ ps) (d ∷ cs) l =
    let r = live_slots-clean ps cs (omega (arith, l)) in
    elim (Bool-cases d.deleted) [
      | inl e ↦ rw e r
      | inr e ↦ rw e (ap (λ s. (q, record d { deleted = false }) ∷ s) r.0, ap suc r.1)
    ]

-- The search for a file descriptor is that in the list.
unfoldable pub IsFound : ℕ → List PollFd → List ServerConnection → Option ℕ → Type 0
IsFound fd ps cs none = find fd (live_slots ps cs) ≡ none
IsFound fd ps cs (some i) =
    (p : PollFd) × (c : ServerConnection) × (get_elem? ps i ≡ some p)
    × (get_elem? cs i ≡ some c)
    × (find fd (live_slots ps cs) ≡ some (p, c))
    × (live_slots ps (set cs i (record c { deleted = true })) ≡ remove fd (live_slots ps cs))
    × (p.fd ≡ fd)
    × (c.deleted ≡ false)

-- An entry that is passed over: it is deleted, or of another file descriptor.
Differs : ℕ → PollFd → ServerConnection → Type 0
Differs fd q d = (d.deleted ≡ true) ⊎ ((fd == q.fd) ≡ false)

find-Differs :
    (fd : ℕ) (q : PollFd) (d : ServerConnection) (ps : List PollFd) (cs : List ServerConnection)
    → Differs fd q d
    → find fd (live_slots (q ∷ ps) (d ∷ cs)) ≡ find fd (live_slots ps cs)
unfolding Differs find live_slots
find-Differs fd q d ps cs (inl e) = rw e refl
find-Differs fd q d ps cs (inr e) = elim (Bool-cases d.deleted) [
  | inl h ↦ rw h refl
  | inr h ↦ rw h (rw e refl)
]

remove-Differs :
    (fd : ℕ) (q : PollFd) (d : ServerConnection) (ps : List PollFd) (cs ds : List ServerConnection)
    → Differs fd q d
    → live_slots ps ds ≡ remove fd (live_slots ps cs)
    → live_slots (q ∷ ps) (d ∷ ds) ≡ remove fd (live_slots (q ∷ ps) (d ∷ cs))
unfolding Differs remove live_slots
remove-Differs fd q d ps cs ds (inl e) f = rw e f
remove-Differs fd q d ps cs ds (inr e) f = elim (Bool-cases d.deleted) [
  | inl h ↦ rw h f
  | inr h ↦ rw h (rw e (ap (λ s. (q, record d { deleted = false }) ∷ s) f))
]

IsFound-Differs :
    (fd : ℕ) (q : PollFd) (d : ServerConnection) (ps : List PollFd) (cs : List ServerConnection)
    (o : Option ℕ)
    → Differs fd q d
    → IsFound fd ps cs o
    → IsFound fd (q ∷ ps) (d ∷ cs) (elim o [ none ↦ none | some i ↦ some (suc i) ])
unfolding IsFound
IsFound-Differs fd q d ps cs none w h = find-Differs fd q d ps cs w ∙ h
IsFound-Differs fd q d ps cs (some i) w (p, c, e, f, g, h, k, r) =
    (p, c, e, f, find-Differs fd q d ps cs w ∙ g, remove-Differs fd q d ps cs _ w h, k, r)

find_connection-here :
    (fd : ℕ) (q : PollFd) (d : ServerConnection) (ps : List PollFd) (cs : List ServerConnection)
    → (fd == q.fd) ≡ true
    → d.deleted ≡ false
    → IsFound fd (q ∷ ps) (d ∷ cs) (some 0)
unfolding IsFound find remove live_slots
find_connection-here fd q d ps cs e h =
    (q, d, refl, refl, ground (arith, e, h), ground (arith, e, h), ground (arith, e), h)

find_connection-Differs :
    (fd : ℕ) (q : PollFd) (d : ServerConnection) (ps : List PollFd) (cs : List ServerConnection)
    → Differs fd q d
    → find_connection fd (q ∷ ps) (d ∷ cs)
      ≡ elim (find_connection fd ps cs) [ none ↦ none | some i ↦ some (suc i) ]
unfolding Differs find_connection
find_connection-Differs fd q d ps cs (inl e) = ground (arith, e)
find_connection-Differs fd q d ps cs (inr e) = ground (arith, e)

pub find_connection-IsFound :
    (fd : ℕ) (ps : List PollFd) (cs : List ServerConnection)
    → length ps ≡ length cs
    → IsFound fd ps cs (find_connection fd ps cs)
unfolding find_connection
find_connection-IsFound fd [] [] l = unfold IsFound find live_slots in refl
find_connection-IsFound fd [] (d ∷ cs) l = absurd (omega (arith, l))
find_connection-IsFound fd (q ∷ ps) [] l = absurd (omega (arith, l))
find_connection-IsFound fd (q ∷ ps) (d ∷ cs) l =
    let found = IsFound fd (q ∷ ps) (d ∷ cs) in
    let behind = λ (w : Differs fd q d).
      subst found (sym (find_connection-Differs fd q d ps cs w)) (
        IsFound-Differs fd q d ps cs (find_connection fd ps cs) w
          (find_connection-IsFound fd ps cs (omega (arith, l)))) in
    elim (Bool-cases d.deleted) [
      | inl h ↦ behind (unfold Differs in inl h)
      | inr h ↦ elim (Bool-cases (fd == q.fd)) [
        | inl e ↦ subst found (ground (arith, e, h)) (find_connection-here fd q d ps cs e h)
        | inr e ↦ behind (unfold Differs in inr e)
      ]
    ]
