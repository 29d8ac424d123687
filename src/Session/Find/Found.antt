-- ===== src/Session/Find/Found.antt =====
-- Which session findSession gives for a key.
use shellinabox.Base.{
  ℕ, ◌≤◌, ◌≡◌, ◌≢◌, ◌⊎◌, refl, sym, ap, ◌∙◌, Bool, true, false, not, Option, none, some, List, [],
  ◌∷◌, ◌++◌, Bytes, ◌==ˢ◌, ==ˢ_iff, ==ˢ_refl, if◌then◌else◌, arith, inl, inr, Bool-cases,
  Option-cases,
}
use mathlib.Core.Path.{subst}
use shellinabox.HashMap.Effects.{present, Event, ◌>>=◌, return, Returns}
use shellinabox.HashMap.Refines.{call, IsValid, add-Models, spec_call}
use shellinabox.HashMap.Table.{total}
use shellinabox.HashMap.{HashMap, init_hash_map, get_ref_from_hash_map}
use shellinabox.Session.{session_key_of}
use shellinabox.Session.Find.{
  new_session, sessions_of, is_refused, look_up, is_named, fresh_key, new_session_key, first_key,
  Outcome, create, find_session,
}
use shellinabox.Terminal.{Session}

-- What the table has at a key.
abbrev pub at : HashMap Session → Bytes → Option Session
at m q = get_ref_from_hash_map m q

-- There is space for one more session: the table does not get near the size where ints overflow.
abbrev pub HasSpace : HashMap Session → Type 0
HasSpace m = total m.entries ≤ 818

-- No key, or an empty one.
abbrev pub NoKey : Option Bytes → Type 0
NoKey none = Unit
NoKey (some []) = Unit
NoKey (some (c ∷ key)) = ⊥

-- What a call may give: the session at the key that was asked for; a new one, at a key that had
-- none; or none, because the key names no session, or is not the one from CGI.
abbrev pub Answers :
    Option Bytes → Option Bytes → HashMap Session → HashMap Session → Option Session → Bool → Type 0
Answers cgi key m r (some s) false = (k : Bytes) × (key ≡ some k) × (at m k ≡ some s) × (r ≡ m)
Answers cgi key m r (some s) true =
    (at m s.session_key ≡ none)
    × ((q : Bytes) → at r q ≡ (if s.session_key ==ˢ q then some s else at m q))
    × (((cgi ≡ none) × NoKey key) ⊎ ((cgi ≡ some s.session_key) × (key ≡ some s.session_key)))
Answers cgi key m r none is_new =
    (r ≡ m)
    × (((k : Bytes) × (cgi ≡ none) × (key ≡ some k) × (at m k ≡ none))
        ⊎ ((c : Bytes) × (cgi ≡ some c) × (key ≢ some c)))

abbrev pub Finds :
    Option Bytes → Option Bytes → HashMap Session → Outcome → List (Event Session) → Type 0
Finds cgi key m o events = IsValid o.sessions × Answers cgi key m o.sessions o.session o.is_new

abbrev created : Bytes → HashMap Session → Outcome
created k r = record { sessions = r; session = some (new_session k); is_new = true }

create-Finds :
    (m : HashMap Session) (cgi key : Option Bytes) (k : Bytes)
    → IsValid m
    → HasSpace m
    → at m k ≡ none
    → ((cgi ≡ none) × NoKey key) ⊎ ((cgi ≡ some k) × (key ≡ some k))
    → Returns (create k m) (Finds cgi key m)
unfolding create call spec_call new_session
create-Finds m cgi key k v sp e w =
    let (r, events, run, t) = add-Models m (at m) k (new_session k) v (λ q. refl) sp in
    (
      created k r,
      events ++ [],
      ap (λ x. x >>= λ r. return (created k r)) run,
      (t.0.0, (e, t.0.1, w)),
    )

-- A call that finds a session, or refuses to, changes nothing.
still :
    (o : Outcome) (cgi key : Option Bytes) (m : HashMap Session)
    → Finds cgi key m o []
    → Returns (return o) (Finds cgi key m)
still o cgi key m w = (o, [], refl, w)

module _ (cgi session_key : Option Bytes) (random : Bytes) (m : HashMap Session) where
  -- The four ways through findSession.
  find_session-refused :
      is_refused cgi session_key ≡ true
      → find_session cgi session_key random (some m)
        ≡ return (record { sessions = m; session = none; is_new = true })
  unfolding find_session sessions_of
  find_session-refused e = rw (find_session, e) refl

  find_session-found :
      (s : Session)
      → is_refused cgi session_key ≡ false
      → look_up session_key m ≡ some s
      → find_session cgi session_key random (some m)
        ≡ return (record { sessions = m; session = some s; is_new = false })
  unfolding find_session sessions_of
  find_session-found s e f = rw (find_session, e) (rw f refl)

  find_session-unknown :
      is_refused cgi session_key ≡ false
      → look_up session_key m ≡ none
      → is_named cgi session_key ≡ true
      → find_session cgi session_key random (some m)
        ≡ return (record { sessions = m; session = none; is_new = false })
  unfolding find_session sessions_of
  find_session-unknown e f g = rw (find_session, e) (rw f (rw g refl))

  find_session-first :
      (k : Bytes) (o : Outcome) (events : List (Event Session))
      → is_refused cgi session_key ≡ false
      → look_up session_key m ≡ none
      → is_named cgi session_key ≡ false
      → first_key cgi random m ≡ return k
      → create k m ≡ some (o, events)
      → find_session cgi session_key random (some m) ≡ some (o, events)
  unfolding find_session sessions_of
  find_session-first k o events e f g h r = rw (find_session, e) (rw f (rw g (rw h (rw r refl))))

  first-Finds :
      (k : Bytes)
      → IsValid m
      → HasSpace m
      → is_refused cgi session_key ≡ false
      → look_up session_key m ≡ none
      → is_named cgi session_key ≡ false
      → first_key cgi random m ≡ return k
      → at m k ≡ none
      → ((cgi ≡ none) × NoKey session_key) ⊎ ((cgi ≡ some k) × (session_key ≡ some k))
      → Returns (find_session cgi session_key random (some m)) (Finds cgi session_key m)
  first-Finds k v sp e f g h a w =
      let (o, events, run, t) = create-Finds m cgi session_key k v sp a w in
      (o, events, find_session-first k o events e f g h run, t)

new_session_key-fresh :
    (random : Bytes) (m : HashMap Session)
    → at m (session_key_of random) ≡ none
    → first_key none random m ≡ return (session_key_of random)
unfolding first_key new_session_key fresh_key
new_session_key-fresh random m e = ap (λ o. fresh_key o (session_key_of random)) e

look_up-cons :
    (c : ℕ) (key : Bytes) (m : HashMap Session) → look_up (some (c ∷ key)) m ≡ at m (c ∷ key)
unfolding look_up
look_up-cons c key m = refl

is_refused-same :
    (cgi key : Bytes) (b : Bool) → (cgi ==ˢ key) ≡ b → is_refused (some cgi) (some key) ≡ not b
unfolding is_refused
is_refused-same cgi key b e = rw e refl

refuses :
    (cgi : Bytes) (key : Option Bytes) (random : Bytes) (m : HashMap Session)
    → IsValid m
    → is_refused (some cgi) key ≡ true
    → key ≢ some cgi
    → Returns (find_session (some cgi) key random (some m)) (Finds (some cgi) key m)
refuses cgi key random m v e n =
    (_, [], find_session-refused (some cgi) key random m e, (v, (refl, inr (cgi, refl, n))))

named-Finds :
    (cgi : Option Bytes) (c : ℕ) (key random : Bytes) (m : HashMap Session)
    → IsValid m
    → HasSpace m
    → is_refused cgi (some (c ∷ key)) ≡ false
    → (cgi ≡ none) ⊎ (cgi ≡ some (c ∷ key))
    → Returns (find_session cgi (some (c ∷ key)) random (some m)) (Finds cgi (some (c ∷ key)) m)
named-Finds cgi c key random m v sp r w = elim (Option-cases (at m (c ∷ key))) [
  | inr (s, e) ↦ (
    _,
    [],
    find_session-found cgi (some (c ∷ key)) random m s r (look_up-cons c key m ∙ e),
    (v, (c ∷ key, refl, e, refl)),
  )
  | inl e ↦ elim w [
    | inl n ↦ (
      _,
      [],
      find_session-unknown cgi (some (c ∷ key)) random m r (look_up-cons c key m ∙ e)
          (rw n (unfold is_named in refl)),
      (v, (refl, inl (c ∷ key, n, refl, e))),
    )
    | inr n ↦
        first-Finds cgi (some (c ∷ key)) random m (c ∷ key) v sp r (look_up-cons c key m ∙ e)
          (rw n (unfold is_named in refl)) (rw n (unfold first_key in refl)) e (inr (n, refl))
  ]
]

same-Finds :
    (key random : Bytes) (m : HashMap Session)
    → IsValid m
    → HasSpace m
    → some key ≢ some []
    → Returns (find_session (some key) (some key) random (some m)) (Finds (some key) (some key) m)
same-Finds [] random m v sp n = absurd (n refl)
same-Finds (c ∷ key) random m v sp n =
    named-Finds (some (c ∷ key)) c key random m v sp
      (is_refused-same (c ∷ key) (c ∷ key) true (==ˢ_refl (c ∷ key))) (inr refl)

some-Finds :
    (cgi key : Option Bytes) (random : Bytes) (m : HashMap Session)
    → IsValid m
    → HasSpace m
    → cgi ≢ some []
    → (cgi ≡ none → at m (session_key_of random) ≡ none)
    → Returns (find_session cgi key random (some m)) (Finds cgi key m)
some-Finds none none random m v sp n f =
    first-Finds none none random m (session_key_of random) v sp (unfold is_refused in refl)
      (unfold look_up in refl) (unfold is_named in refl) (new_session_key-fresh random m (f refl))
      (f refl) (inl (refl, tt))
some-Finds none (some []) random m v sp n f =
    first-Finds none (some []) random m (session_key_of random) v sp (unfold is_refused in refl)
      (unfold look_up in refl) (unfold is_named in refl) (new_session_key-fresh random m (f refl))
      (f refl) (inl (refl, tt))
some-Finds none (some (c ∷ key)) random m v sp n f =
    named-Finds none c key random m v sp (unfold is_refused in refl) (inl refl)
some-Finds (some cgi) none random m v sp n f =
    refuses cgi none random m v (unfold is_refused in refl) (λ e. ground (arith, e))
some-Finds (some cgi) (some key) random m v sp n f = elim (Bool-cases (cgi ==ˢ key)) [
  | inr e ↦
      refuses cgi (some key) random m v (is_refused-same cgi key false e)
        (λ x. ground (arith, e, ==ˢ_iff cgi key, x))
  | inl e ↦
      let k : key ≡ cgi = sym ((==ˢ_iff cgi key).0 e) in
      subst
        (λ c.
          Returns (find_session (some c) (some key) random (some m)) (Finds (some c) (some key) m))
        k (same-Finds key random m v sp (λ x. n (ap some (sym k) ∙ x)))
]

-- With a hash map of at most 818 sessions that calls of addToHashMap and deleteFromHashMap have
-- made of an empty one, or none yet, with no empty key from CGI, and, without a key from CGI, with
-- random bytes whose key no session has, findSession returns; the map is in order again, and the result is the session at the key that
-- was asked for, or a new one at a key that had none, where none was asked for or the one from
-- CGI, which the map has from then on with all others as before, or NULL, where the key names
-- no session or is not the one from CGI, and then the map is as before.
pub find_session-Finds :
    (cgi key : Option Bytes) (random : Bytes) (sessions : Option (HashMap Session))
    → IsValid (sessions_of sessions)
    → HasSpace (sessions_of sessions)
    → cgi ≢ some []
    → (cgi ≡ none → at (sessions_of sessions) (session_key_of random) ≡ none)
    → Returns (find_session cgi key random sessions) (Finds cgi key (sessions_of sessions))
unfolding find_session sessions_of
find_session-Finds cgi key random none v sp n f =
    some-Finds cgi key random (init_hash_map present) v sp n f
find_session-Finds cgi key random (some m) v sp n f = some-Finds cgi key random m v sp n f
