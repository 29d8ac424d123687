-- ===== src/Server/Table.antt =====
-- The table of connections as a list of those that are not deleted.
use shellinabox.Base.{
  ℕ, ◌≡◌, refl, sym, ◌∙◌, true, false, not, ◌&&◌, Option, none, some, List, [], ◌∷◌, ◌++◌,
  get_elem?, set, arith, inl, inr, Bool-cases, Option-cases, length-append, length-set, ◌==◌,
}
use mathlib.Core.Path.{subst}
use shellinabox.Server.Swap.{Slot}
use shellinabox.Server.{
  PollFd, ServerConnection, Server, pollin, server_add_connection, find_connection,
  server_delete_connection, hint_holds, server_get_connection, compact,
}
use shellinabox.Server.Search.{
  live, IsAligned, find, remove, live_slots-add, live_slots-clean, IsFound, find_connection-IsFound,
}

-- The calls, and the end of a round of the loop.
pub data Call : Type 0 where
  add : ℕ → ℕ → ℕ → Call
  delete : ℕ → Call
  clean_up : Call

unfoldable pub run : List Call → Server → Server
unfolding server_add_connection server_delete_connection compact
run [] s = s
run (add stale fd arg ∷ calls) s = run calls (server_add_connection stale fd arg s)
run (delete fd ∷ calls) s = run calls (server_delete_connection fd s)
run (clean_up ∷ calls) s = run calls (compact s)

-- What the calls mean for the list, and for the arguments of destroyConnection.
abbrev pub Meaning : Type 0
Meaning = List Slot × List ℕ

abbrev pub added : ℕ → ℕ → ℕ → Slot
added stale fd arg = (
  record { fd = fd; events = pollin; revents = stale },
  record { deleted = false; timeout = 0; arg = arg },
)

unfoldable pub mean_delete : ℕ → Meaning → Meaning
unfolding find remove
mean_delete fd (l, log) = elim (find fd l) [
  | none ↦ (l, log)
  | some (p, c) ↦ (remove fd l, log ++ c.arg ∷ [])
]

unfoldable pub mean : List Call → Meaning → Meaning
unfolding mean_delete
mean [] m = m
mean (add stale fd arg ∷ calls) m = mean calls (m.0 ++ added stale fd arg ∷ [], m.1)
mean (delete fd ∷ calls) m = mean calls (mean_delete fd m)
mean (clean_up ∷ calls) m = mean calls m

meaning : Server → Meaning
meaning s = (live s, s.destroyed)

-- What one call does.
IsMeant : Meaning → Server → Type 0
IsMeant m s = IsAligned s × (live s ≡ m.0) × (s.destroyed ≡ m.1)

add-IsMeant :
    (stale fd arg : ℕ) (s : Server)
    → IsAligned s
    → IsMeant
        (live s ++ added stale fd arg ∷ [], s.destroyed)
        (server_add_connection stale fd arg s)
unfolding IsMeant live server_add_connection
add-IsMeant stale fd arg s l = (
  omega (arith, l, length-append s.poll_fds (_ ∷ []), length-append s.connections (_ ∷ [])),
  live_slots-add s.poll_fds s.connections _ _ l refl,
  refl,
)

clean-IsMeant : (s : Server) → IsAligned s → IsMeant (live s, s.destroyed) (compact s)
unfolding IsMeant live compact
clean-IsMeant s l = let r = live_slots-clean s.poll_fds s.connections l in (r.1, r.0, refl)

delete-none :
    (fd : ℕ) (s : Server)
    → find_connection fd s.poll_fds s.connections ≡ none
    → server_delete_connection fd s ≡ s
unfolding server_delete_connection
delete-none fd s e = rw (server_delete_connection, e) refl

delete-some :
    (fd i : ℕ) (c : ServerConnection) (s : Server)
    → find_connection fd s.poll_fds s.connections ≡ some i
    → get_elem? s.connections i ≡ some c
    → server_delete_connection fd s ≡ record s {
      connections = set s.connections i (record c { deleted = true });
      destroyed = s.destroyed ++ c.arg ∷ [];
    }
unfolding server_delete_connection
delete-some fd i c s e f = rw (server_delete_connection, e) (rw f refl)

mean_delete-none :
    (fd : ℕ) (l : List Slot) (log : List ℕ) → find fd l ≡ none → mean_delete fd (l, log) ≡ (l, log)
unfolding mean_delete
mean_delete-none fd l log e = rw (mean_delete, e) refl

mean_delete-some :
    (fd : ℕ) (l : List Slot) (log : List ℕ) (p : PollFd) (c : ServerConnection)
    → find fd l ≡ some (p, c)
    → mean_delete fd (l, log) ≡ (remove fd l, log ++ c.arg ∷ [])
unfolding mean_delete
mean_delete-some fd l log p c e = rw (mean_delete, e) refl

delete-IsMeant :
    (fd : ℕ) (s : Server)
    → IsAligned s
    → IsMeant (mean_delete fd (live s, s.destroyed)) (server_delete_connection fd s)
unfolding IsMeant IsFound live
delete-IsMeant fd s l =
    let w = find_connection-IsFound fd s.poll_fds s.connections l in
    elim (Option-cases (find_connection fd s.poll_fds s.connections)) [
      | inl e ↦
          let v = subst (IsFound fd s.poll_fds s.connections) e w in
          rw (delete-none fd s e, mean_delete-none fd (live s) s.destroyed v) (l, refl, refl)
      | inr (i, e) ↦
          let (p, c, f, g, h, k, r, q) = subst (IsFound fd s.poll_fds s.connections) e w in
          rw (delete-some fd i c s e g, mean_delete-some fd (live s) s.destroyed p c h)
            (l ∙ sym (length-set s.connections i (record c { deleted = true })), k, refl)
    ]

IsMeant-meaning : (m : Meaning) (s : Server) → IsMeant m s → (live s, s.destroyed) ≡ m
unfolding IsMeant
IsMeant-meaning (l, log) s (a, e, f) = rw (e, f) refl

IsMeant-IsAligned : (m : Meaning) (s : Server) → IsMeant m s → IsAligned s
unfolding IsMeant
IsMeant-IsAligned m s w = w.0

-- Calls behind one that has done what is meant.
behind-IsMeant :
    (calls : List Call) (m : Meaning) (s : Server)
    → IsMeant m s
    → (IsAligned s → IsMeant (mean calls (live s, s.destroyed)) (run calls s))
    → IsMeant (mean calls m) (run calls s)
behind-IsMeant calls m s w f =
    subst (λ m. IsMeant (mean calls m) (run calls s)) (IsMeant-meaning m s w)
      (f (IsMeant-IsAligned m s w))

run-IsMeant :
    (calls : List Call) (s : Server)
    → IsAligned s
    → IsMeant (mean calls (live s, s.destroyed)) (run calls s)
unfolding run mean
run-IsMeant [] s l = unfold IsMeant in (l, refl, refl)
run-IsMeant (add stale fd arg ∷ calls) s l =
    let t = server_add_connection stale fd arg s in
    behind-IsMeant calls _ t (add-IsMeant stale fd arg s l) (run-IsMeant calls t)
run-IsMeant (delete fd ∷ calls) s l =
    let t = server_delete_connection fd s in
    behind-IsMeant calls _ t (delete-IsMeant fd s l) (run-IsMeant calls t)
run-IsMeant (clean_up ∷ calls) s l =
    let t = compact s in behind-IsMeant calls _ t (clean-IsMeant s l) (run-IsMeant calls t)

-- The index that serverGetConnection gives for a file descriptor, with a hint or without.
abbrev pub Answers : ℕ → Server → Option ℕ → Type 0
Answers fd s none = find fd (live s) ≡ none
Answers fd s (some i) =
    (p : PollFd) × (c : ServerConnection) × (get_elem? s.poll_fds i ≡ some p)
    × (get_elem? s.connections i ≡ some c)
    × (p.fd ≡ fd)
    × (c.deleted ≡ false)

find_connection-Answers :
    (fd : ℕ) (s : Server) (o : Option ℕ) → IsFound fd s.poll_fds s.connections o → Answers fd s o
unfolding IsFound live
find_connection-Answers fd s none w = w
find_connection-Answers fd s (some i) (p, c, e, f, g, h, k, r) = (p, c, e, f, k, r)

hint_holds-Answers :
    (hint fd : ℕ) (s : Server) → hint_holds hint fd s ≡ true → Answers fd s (some hint)
unfolding hint_holds
hint_holds-Answers hint fd s h = elim (Option-cases (get_elem? s.poll_fds hint)) [
  | inl e ↦ absurd (ground (arith, h, e))
  | inr (p, e) ↦ elim (Option-cases (get_elem? s.connections hint)) [
    | inl f ↦ absurd (ground (arith, h, e, f))
    | inr (c, f) ↦
        let g : (not c.deleted && p.fd == fd) ≡ true = ground (arith, h, e, f) in
        (p, c, e, f, ground (arith, g), ground (arith, g))
  ]
]

server_get_connection-Answers :
    (hint : Option ℕ) (fd : ℕ) (s : Server)
    → IsAligned s
    → Answers fd s (server_get_connection hint fd s)
unfolding server_get_connection
server_get_connection-Answers none fd s l =
    find_connection-Answers fd s _ (find_connection-IsFound fd s.poll_fds s.connections l)
server_get_connection-Answers (some hint) fd s l = elim (Bool-cases (hint_holds hint fd s)) [
  | inl e ↦ rw (Answers, e) (hint_holds-Answers hint fd s e)
  | inr e ↦
      rw (Answers, e)
        (find_connection-Answers fd s _ (find_connection-IsFound fd s.poll_fds s.connections l))
]

-- Without a hint it is the first entry of the list.
abbrev pub Finds : ℕ → Server → Option ℕ → Type 0
Finds fd s none = find fd (live s) ≡ none
Finds fd s (some i) =
    (p : PollFd) × (c : ServerConnection) × (get_elem? s.poll_fds i ≡ some p)
    × (get_elem? s.connections i ≡ some c)
    × (find fd (live s) ≡ some (p, c))

find_connection-Finds :
    (fd : ℕ) (s : Server) (o : Option ℕ) → IsFound fd s.poll_fds s.connections o → Finds fd s o
unfolding IsFound live
find_connection-Finds fd s none w = w
find_connection-Finds fd s (some i) (p, c, e, f, g, h, k, r) = (p, c, e, f, g)

-- Whatever sequence of calls of serverAddConnection and serverDeleteConnection and of ends of a
-- round of serverLoop happens to two arrays of one length, they stay of one length; the
-- connections that are not deleted are those of a list to which each addition appends and from
-- which each deletion takes the first of its file descriptor, and destroyConnection has been
-- called with the arguments of those taken, in order; serverGetConnection gives, whatever the
-- hint, only a connection that is not deleted and has the file descriptor, or NULL where there
-- is none, and without a hint the first.
pub run-refine :
    (calls : List Call) (s : Server) (hint : Option ℕ) (fd : ℕ)
    → IsAligned s
    → let m = mean calls (live s, s.destroyed) in
      let t = run calls s in
      IsAligned t
      × (live t ≡ m.0)
      × (t.destroyed ≡ m.1)
      × Answers fd t (server_get_connection hint fd t)
      × Finds fd t (server_get_connection none fd t)
unfolding IsMeant server_get_connection
run-refine calls s hint fd l =
    let w = run-IsMeant calls s l in
    let t = run calls s in
    (
      w.0,
      w.1,
      w.2,
      server_get_connection-Answers hint fd t w.0,
      find_connection-Finds fd t _ (find_connection-IsFound fd t.poll_fds t.connections w.0),
    )
