-- ===== src/Http/Progress.antt =====
-- When the loop of `httpHandleConnection` ends.
use shellinabox.Base.{
  ℕ, zero, suc, ◌-◌, ◌<◌, ◌≡◌, ◌↔◌, refl, Bool, true, false, Option, none, some, [], ◌∷◌, Bytes,
  length, take, drop, arith, inl, inr, ◌⊎◌, Bool-cases, Option-cases,
}
use shellinabox.Trie.{Node}
use shellinabox.Http.{
  State, sniffing_ssl, command, headers, payload, discard_payload, websocket, HttpConnection, Env,
}
use shellinabox.Http.Command.{Handler}
use shellinabox.Http.Machine.{is_state, is_complete, consumed_of}
use shellinabox.Http.Loop.{
  Parsed, good, bad, Round, failed, halt, next, split_line, behind_line, line_round, behind_payload,
  behind_parsed, http_parse_payload, payload_round, websocket_round, round_at, round, after_round,
  endless, keep, process, parse_line,
}

-- A connection in the middle of a request of which nothing is expected any more.
pub record IsStuck (c : HttpConnection) : Type 0 where
  pub waiting : (c.state ≡ payload) ⊎ (c.state ≡ discard_payload)
  pub expecting : c.expecting ≡ some 0
  pub open_still : c.closed ≡ false

module _ (env : Env) (handlers : Node Handler) (port : ℕ)
    (frames : HttpConnection → Bytes → HttpConnection × Bool) (buffered : ℕ) (eof : Bool) where
  abbrev pub turn : HttpConnection → Bytes → Round
  turn = round env handlers port frames buffered eof

  turn-IsStuck : (c : HttpConnection) (input : Bytes) → IsStuck c → turn c input ≡ next c input
  unfolding round payload_round is_complete
  turn-IsStuck c input s = ground (arith, s)

  pub process-IsStuck :
      (fuel : ℕ) (c : HttpConnection) (b : ℕ) (input : Bytes)
      → IsStuck c
      → process turn fuel c (b ∷ input) ≡ endless
  unfolding process
  process-IsStuck zero c b input s = refl
  process-IsStuck (suc fuel) c b input s =
      ground (arith, turn-IsStuck c (b ∷ input) s, s.open_still, process-IsStuck fuel c b input s)

  -- The connections and inputs that the loop comes to.
  pub data Reach (c : HttpConnection) (input : Bytes) : HttpConnection → Bytes → Type 0 where
    here : Reach c input c input
    step :
        {d : HttpConnection} {rest : Bytes} (e : HttpConnection) (b : ℕ) (more : Bytes)
        → Reach c input d rest
        → turn d rest ≡ next e (b ∷ more)
        → e.closed ≡ false
        → Reach c input e (b ∷ more)

  -- A stuck connection, with more input, that the loop comes to.
  pub record Sticks (c : HttpConnection) (input : Bytes) : Type 0 where
    pub at : HttpConnection
    pub byte : ℕ
    pub more : Bytes
    pub stuck : IsStuck at
    pub reached : Reach c input at (byte ∷ more)

-- The next round has less input, unless the connection waits with nothing to expect.
abbrev Shrinks : HttpConnection → Bytes → Round → Type 0
Shrinks c input (next d rest) =
    (length rest < length input)
    ⊎ ((rest ≡ [])
        ⊎ ((d ≡ c)
            × (rest ≡ input)
            × ((c.state ≡ payload) ⊎ (c.state ≡ discard_payload))
            × (c.expecting ≡ some 0)))
Shrinks c input _ = Unit

split_line-length : (s l r : Bytes) → split_line s ≡ some (l, r) → length r < length s
unfolding split_line
split_line-length [] l r e = absurd (ground arith)
split_line-length (c ∷ s) l r e = elim (Option-cases (split_line s)) [
  | inl n ↦ ground (arith, n)
  | inr ((l', r'), k) ↦ ground (arith, k, split_line-length s l' r' k)
]

module _ (env : Env) (handlers : Node Handler) (port : ℕ)
    (frames : HttpConnection → Bytes → HttpConnection × Bool) (buffered : ℕ) (eof : Bool) where
  behind_line-Shrinks :
      (c : HttpConnection) (input rest : Bytes) (p : Parsed)
      → (length rest < length input) ⊎ (rest ≡ [])
      → Shrinks c input (behind_line p rest)
  unfolding behind_line
  behind_line-Shrinks c input rest Parsed.aborted h = tt
  behind_line-Shrinks c input rest (bad d) h = tt
  behind_line-Shrinks c input rest (good d) (inl h) = inl h
  behind_line-Shrinks c input rest (good d) (inr h) = inr (inl h)

  line_round-Shrinks :
      (c : HttpConnection) (input : Bytes)
      → Shrinks c input (line_round env handlers port eof c input)
  unfolding line_round
  line_round-Shrinks c input = elim (Bool-cases (is_complete c.expecting)) [
    | inr e ↦ rw e tt
    | inl e ↦ elim (Option-cases (split_line input)) [
      | inr ((l, r), k) ↦
          rw (e, k)
            (behind_line-Shrinks c input r (parse_line env handlers port true l c)
              (inl (split_line-length input l r k)))
      | inl n ↦ elim (Bool-cases eof) [
        | inl f ↦
            rw (e, n, f)
              (behind_line-Shrinks c input [] (parse_line env handlers port false input c)
                (inr refl))
        | inr f ↦ rw (e, n, f) tt
      ]
    ]
  ]

  is_complete-zero : (x : Option ℕ) → is_complete x ≡ true → x ≡ some 0
  unfolding is_complete
  is_complete-zero none e = absurd (ground arith)
  is_complete-zero (some n) e = ground arith

  behind_payload-Shrinks :
      (c : HttpConnection) (input : Bytes) (o : Option HttpConnection) (rest : Bytes)
      → Shrinks c input (behind_payload o rest)
  unfolding behind_payload
  behind_payload-Shrinks c input none rest = tt
  behind_payload-Shrinks c input (some d) [] = inr (inl refl)
  behind_payload-Shrinks c input (some d) (b ∷ rest) = tt

  behind_parsed-Shrinks :
      (c : HttpConnection) (input : Bytes) (o : Option (HttpConnection × ℕ))
      → Shrinks c input (behind_parsed o input)
  unfolding behind_parsed
  behind_parsed-Shrinks c input none = tt
  behind_parsed-Shrinks c input (some (d, n)) =
      behind_payload-Shrinks c input (some d) (drop n input)

  payload_round-Shrinks :
      (c : HttpConnection) (input : Bytes)
      → (c.state ≡ payload) ⊎ (c.state ≡ discard_payload)
      → Shrinks c input (payload_round env buffered c input)
  unfolding payload_round
  payload_round-Shrinks c input h = elim (Bool-cases (is_complete c.expecting)) [
    | inl e ↦ rw e (inr (inr (refl, refl, h, is_complete-zero c.expecting e)))
    | inr e ↦ elim (Bool-cases (is_state c.state payload)) [
      | inl f ↦
          rw (e, f)
            (behind_parsed-Shrinks c input (
              http_parse_payload env (length input - buffered)
                (take (consumed_of c.expecting (length input)) input) c))
      | inr f ↦
          rw (e, f)
            (behind_payload-Shrinks c input (some c)
              (drop (consumed_of c.expecting (length input)) input))
    ]
  ]

  round_at-Shrinks :
      (s : State) (c : HttpConnection) (input : Bytes)
      → c.state ≡ s
      → Shrinks c input (round_at env handlers port frames buffered s eof c input)
  unfolding round_at websocket_round
  round_at-Shrinks sniffing_ssl c input e = line_round-Shrinks c input
  round_at-Shrinks command c input e = line_round-Shrinks c input
  round_at-Shrinks headers c input e = line_round-Shrinks c input
  round_at-Shrinks payload c input e = payload_round-Shrinks c input (inl e)
  round_at-Shrinks discard_payload c input e = payload_round-Shrinks c input (inr e)
  round_at-Shrinks websocket c input e = elim (Bool-cases (frames c input).1) [
    | inl f ↦ rw f (inr (inl refl))
    | inr f ↦ rw f tt
  ]

  turn-Shrinks :
      (c : HttpConnection) (input : Bytes)
      → Shrinks c input (turn env handlers port frames buffered eof c input)
  unfolding round
  turn-Shrinks c input = round_at-Shrinks c.state c input refl

  Reach-before :
      {c d : HttpConnection} {input : Bytes} (b : ℕ) (more : Bytes) {e : HttpConnection}
      {rest : Bytes}
      → turn env handlers port frames buffered eof c input ≡ next d (b ∷ more)
      → d.closed ≡ false
      → Reach env handlers port frames buffered eof d (b ∷ more) e rest
      → Reach env handlers port frames buffered eof c input e rest
  Reach-before b more t o here = step _ b more here t o
  Reach-before b more t o (step e b' more' r t' o') =
      step e b' more' (Reach-before b more t o r) t' o'

  after_round-endless :
      (fuel : ℕ) (c : HttpConnection) (input : Bytes) (r : Round)
      → c.closed ≡ false
      → length input < suc fuel
      → ((d : HttpConnection) (rest : Bytes)
          → d.closed ≡ false
          → length rest < fuel
          → process (turn env handlers port frames buffered eof) fuel d rest ≡ endless
          → Sticks env handlers port frames buffered eof d rest)
      → turn env handlers port frames buffered eof c input ≡ r
      → Shrinks c input r
      → after_round r (process (turn env handlers port frames buffered eof) fuel) ≡ endless
      → Sticks env handlers port frames buffered eof c input
  unfolding after_round keep
  after_round-endless fuel c input failed o h ih t s e = absurd (ground (arith, e))
  after_round-endless fuel c input (halt d rest) o h ih t s e = absurd (ground (arith, e))
  after_round-endless fuel c input (next d []) o h ih t s e = absurd (ground (arith, e))
  after_round-endless fuel c input (next d (b ∷ more)) o h ih t s e = elim (Bool-cases d.closed) [
    | inl f ↦ absurd (ground (arith, f, e))
    | inr f ↦ elim s [
      | inl lt ↦
          let w = ih d (b ∷ more) f (omega (arith, lt, h)) (ground (arith, f, e)) in
          record {
            at = w.at;
            byte = w.byte;
            more = w.more;
            stuck = w.stuck;
            reached = Reach-before b more t f w.reached;
          }
      | inr (inl n) ↦ absurd (ground (arith, n))
      | inr (inr (dc, ri, wait, done)) ↦ record {
        at = c;
        byte = b;
        more = more;
        stuck = record { waiting = wait; expecting = done; open_still = o };
        reached = rw ri here;
      }
    ]
  ]

  process-endless :
      (fuel : ℕ) (c : HttpConnection) (input : Bytes)
      → c.closed ≡ false
      → length input < fuel
      → process (turn env handlers port frames buffered eof) fuel c input ≡ endless
      → Sticks env handlers port frames buffered eof c input
  unfolding process
  process-endless zero c input o h e = absurd (omega arith)
  process-endless (suc fuel) c input o h e =
      after_round-endless fuel c input (turn env handlers port frames buffered eof c input) o h
        (process-endless fuel) refl (turn-Shrinks c input) e

  before-endless :
      (fuel : ℕ) (c : HttpConnection) (input : Bytes) (d : HttpConnection) (b : ℕ) (more : Bytes)
      → turn env handlers port frames buffered eof c input ≡ next d (b ∷ more)
      → d.closed ≡ false
      → ((f : ℕ) → process (turn env handlers port frames buffered eof) f d (b ∷ more) ≡ endless)
      → process (turn env handlers port frames buffered eof) fuel c input ≡ endless
  unfolding process after_round
  before-endless zero c input d b more t o h = refl
  before-endless (suc fuel) c input d b more t o h = ground (arith, t, o, h fuel)

  process-Reach :
      (fuel : ℕ) {c : HttpConnection} {input : Bytes} {d : HttpConnection} {rest : Bytes}
      → Reach env handlers port frames buffered eof c input d rest
      → ((f : ℕ) → process (turn env handlers port frames buffered eof) f d rest ≡ endless)
      → process (turn env handlers port frames buffered eof) fuel c input ≡ endless
  unfolding process after_round
  process-Reach fuel here h = h fuel
  process-Reach fuel (step {d} {rest} e b more r t o) h =
      process-Reach fuel r (λ f. before-endless f d rest e b more t o h)

  -- On an open connection, and with more rounds than there are bytes, the loop of
  -- httpHandleConnection does not end if and only if it comes to an open connection in the
  -- middle of a request of which nothing is expected any more, with a byte left to read.
  pub process-endless_iff :
      (fuel : ℕ) (c : HttpConnection) (input : Bytes)
      → c.closed ≡ false
      → length input < fuel
      → (process (turn env handlers port frames buffered eof) fuel c input ≡ endless)
        ↔ Sticks env handlers port frames buffered eof c input
  process-endless_iff fuel c input o h = (
    process-endless fuel c input o h,
    λ s.
        process-Reach fuel s.reached
          (λ f. process-IsStuck env handlers port frames buffered eof f s.at s.byte s.more s.stuck),
  )
