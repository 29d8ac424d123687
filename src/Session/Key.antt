-- ===== src/Session/Key.antt =====
-- A session's key stands for all the random bytes that it is made from.
use shellinabox.Base.{
  ℕ, zero, suc, ◌+◌, ◌-◌, ◌*◌, ◌/◌, ◌%◌, ◌^◌, ◌<◌, ◌≡◌, ◌≢◌, refl, ap, ◌∙◌, Bool, true, ◌&&◌, [],
  ◌∷◌, leb, ◌==◌, All, Bytes, if◌then◌else◌, get_or, arith, Bool-cases, inl, inr, length,
}
use shellinabox.Session.{key_characters, drain, shift_byte, key_from, session_key_of}

-- The place of a character in a list.
unfoldable place : Bytes → ℕ → ℕ
place [] c = 0
place (d ∷ ds) c = let rest = place ds c in if c == d then 0 else suc rest

unfoldable holds_below : ℕ → (ℕ → Bool) → Bool
holds_below zero test = true
holds_below (suc n) test = test n && holds_below n test

holds_below-test :
    (m : ℕ) (test : ℕ → Bool) → holds_below m test ≡ true → (n : ℕ) → n < m → test n ≡ true
unfolding holds_below
holds_below-test zero test h n k = absurd (omega arith)
holds_below-test (suc m) test h n k = elim (Bool-cases (n == m)) [
  | inl e ↦ ground (arith, h)
  | inr e ↦ holds_below-test m test (ground (arith, h)) n (ground arith)
]

is_placed : ℕ → Bool
unfolding place
is_placed n = place key_characters (get_or key_characters n 0) == n

all-is_placed : holds_below 64 is_placed ≡ true
unfolding holds_below is_placed place
all-is_placed = refl

place-get_or : (n : ℕ) → n < 64 → place key_characters (get_or key_characters n 0) ≡ n
unfolding is_placed
place-get_or n h = ground (arith, holds_below-test 64 is_placed all-is_placed n h)

-- A reader of keys: six bits at a time, and a byte whenever there are eight.
unfoldable pub read_key : ℕ → ℕ → Bytes → Bytes
unfolding place
read_key bits count [] = []
read_key bits count (c ∷ key) =
    let all = bits * 64 + place key_characters c in
    let left = count + 6 - 8 in
    let some_left = read_key (all % 2 ^ left) left key in
    let more = read_key all (count + 6) key in
    if leb 8 (count + 6) then all / 2 ^ left ∷ some_left else more

module _ (h n : ℕ) (key : Bytes) (small : n < 64) where
  read_key-0 : read_key 0 0 (get_or key_characters n 0 ∷ key) ≡ read_key n 6 key
  unfolding read_key
  read_key-0 = ground (arith, place-get_or n small)

  read_key-6 :
      (b r : ℕ)
      → h * 64 + n ≡ b * 16 + r
      → r < 16
      → read_key h 6 (get_or key_characters n 0 ∷ key) ≡ b ∷ read_key r 4 key
  unfolding read_key
  read_key-6 b r e k = ground (arith, place-get_or n small)

  read_key-4 :
      (b r : ℕ)
      → h * 64 + n ≡ b * 4 + r
      → r < 4
      → read_key h 4 (get_or key_characters n 0 ∷ key) ≡ b ∷ read_key r 2 key
  unfolding read_key
  read_key-4 b r e k = ground (arith, place-get_or n small)

  read_key-2 :
      (b : ℕ)
      → h * 64 + n ≡ b
      → read_key h 2 (get_or key_characters n 0 ∷ key) ≡ b ∷ read_key 0 0 key
  unfolding read_key
  read_key-2 b e = ground (arith, place-get_or n small)

key_from-0 :
    (bits b : ℕ) (buf : Bytes)
    → key_from bits 0 (b ∷ buf)
      ≡ get_or key_characters ((shift_byte bits b / 4) % 64) 0 ∷ key_from (shift_byte bits b) 2 buf
unfolding key_from drain
key_from-0 bits b buf = refl

key_from-2 :
    (bits b : ℕ) (buf : Bytes)
    → key_from bits 2 (b ∷ buf)
      ≡ get_or key_characters ((shift_byte bits b / 16) % 64) 0 ∷ key_from (shift_byte bits b) 4 buf
unfolding key_from drain
key_from-2 bits b buf = refl

key_from-4 :
    (bits b : ℕ) (buf : Bytes)
    → key_from bits 4 (b ∷ buf)
      ≡ get_or key_characters ((shift_byte bits b / 64) % 64) 0
        ∷ get_or key_characters ((shift_byte bits b / 1) % 64) 0
        ∷ key_from (shift_byte bits b) 0 buf
unfolding key_from drain
key_from-4 bits b buf = refl

key_from-end :
    (bits : ℕ) → key_from bits 2 [] ≡ get_or key_characters ((shift_byte bits 0 / 16) % 64) 0 ∷ []
unfolding key_from drain
key_from-end bits = refl

read_key-nil : (bits count : ℕ) → read_key bits count [] ≡ []
unfolding read_key
read_key-nil bits count = refl

shift_byte-low : (bits b : ℕ) → b < 256 → shift_byte bits b % 65536 ≡ (bits % 256) * 256 + b
unfolding shift_byte
shift_byte-low bits b h = omega arith

-- Three bytes are four characters.
read_key-three :
    (bits a b c : ℕ) (buf : Bytes)
    → a < 256
    → b < 256
    → c < 256
    → (s : ℕ) × (read_key 0 0 (key_from bits 0 (a ∷ b ∷ c ∷ buf))
        ≡ a ∷ b ∷ c ∷ read_key 0 0 (key_from s 0 buf))
read_key-three bits a b c buf ha hb hc =
    let s = shift_byte bits a in
    let t = shift_byte s b in
    let u = shift_byte t c in
    let low_s = shift_byte-low bits a ha in
    let low_t = shift_byte-low s b hb in
    let low_u = shift_byte-low t c hc in
    (
      u,
      ap (read_key 0 0) (key_from-0 bits a (b ∷ c ∷ buf))
          ∙ read_key-0 0 ((s / 4) % 64) _ (omega arith)
          ∙ ap (read_key ((s / 4) % 64) 6) (key_from-2 s b (c ∷ buf))
          ∙ read_key-6 ((s / 4) % 64) ((t / 16) % 64) _ (omega arith) a (b / 16)
              (omega (arith, low_s, low_t)) (omega arith)
          ∙ ap (λ k. a ∷ read_key (b / 16) 4 k) (key_from-4 t c buf)
          ∙ ap (◌∷◌ a) (
              read_key-4 (b / 16) ((u / 64) % 64) _ (omega arith) b (c / 64)
                (omega (arith, low_t, low_u)) (omega arith))
          ∙ ap (λ l. a ∷ b ∷ l)
              (read_key-2 (c / 64) ((u / 1) % 64) _ (omega arith) c (omega (arith, low_u))),
    )

read_key-one : (bits a : ℕ) → a < 256 → read_key 0 0 (key_from bits 0 (a ∷ [])) ≡ a ∷ []
read_key-one bits a ha =
    let s = shift_byte bits a in
    let t = shift_byte s 0 in
    let low_s = shift_byte-low bits a ha in
    let low_t = shift_byte-low s 0 (omega arith) in
    ap (read_key 0 0) (key_from-0 bits a [])
    ∙ read_key-0 0 ((s / 4) % 64) _ (omega arith)
    ∙ ap (read_key ((s / 4) % 64) 6) (key_from-end s)
    ∙ read_key-6 ((s / 4) % 64) ((t / 16) % 64) [] (omega arith) a 0 (omega (arith, low_s, low_t))
        (omega arith)
    ∙ ap (◌∷◌ a) (read_key-nil 0 4)

read_key-key_from :
    (bits : ℕ) (buf : Bytes)
    → All (λ b. b < 256) buf
    → length buf % 3 ≢ 2
    → read_key 0 0 (key_from bits 0 buf) ≡ buf
read_key-key_from bits [] h k = unfold read_key key_from in refl
read_key-key_from bits (a ∷ []) h k = read_key-one bits a h.0
read_key-key_from bits (a ∷ b ∷ []) h k = absurd (k (omega arith))
read_key-key_from bits (a ∷ b ∷ c ∷ buf) h k =
    let w = read_key-three bits a b c buf h.0 h.1.0 h.1.1.0 in
    w.1 ∙ ap (λ l. a ∷ b ∷ c ∷ l) (read_key-key_from w.0 buf h.1.1.1 (λ e. k (omega (arith, e))))

-- The key that newSessionKey makes from 16 random bytes determines them: a reader of six bits
-- for each character gets the bytes back.
pub read_key-session_key_of :
    (buf : Bytes)
    → All (λ b. b < 256) buf
    → length buf ≡ 16
    → read_key 0 0 (session_key_of buf) ≡ buf
unfolding session_key_of
read_key-session_key_of buf h k = read_key-key_from 0 buf h (λ e. omega (arith, e))

length-key_from :
    (bits : ℕ) (buf : Bytes)
    → length buf % 3 ≢ 2
    → length (key_from bits 0 buf) ≡ (8 * length buf + 5) / 6
length-key_from bits [] k = unfold key_from in omega arith
length-key_from bits (a ∷ []) k =
    rw (key_from-0 bits a [], key_from-end (shift_byte bits a)) (omega arith)
length-key_from bits (a ∷ b ∷ []) k = absurd (k (omega arith))
length-key_from bits (a ∷ b ∷ c ∷ buf) k =
    let s = shift_byte bits a in
    let t = shift_byte s b in
    rw (key_from-0 bits a (b ∷ c ∷ buf), key_from-2 s b (c ∷ buf), key_from-4 t c buf)
      (omega (arith, length-key_from (shift_byte t c) buf (λ e. k (omega (arith, e)))))

-- The key that newSessionKey makes from 16 bytes has exactly the (8*16 + 5)/6 characters for
-- which, with the NUL, it allocates memory.
pub length-session_key_of :
    (buf : Bytes) → length buf ≡ 16 → length (session_key_of buf) ≡ (8 * 16 + 5) / 6
unfolding session_key_of
length-session_key_of buf h = omega (arith, length-key_from 0 buf (λ e. omega (arith, e)), h)

-- The key that newSessionKey makes from 16 random bytes determines them, since a reader of six
-- bits for each character gets the bytes back, and has exactly the (8*16 + 5)/6 characters for
-- which, with the NUL, it allocates memory.
pub session_key_of_lem :
    (buf : Bytes)
    → All (λ b. b < 256) buf
    → length buf ≡ 16
    → (read_key 0 0 (session_key_of buf) ≡ buf) × (length (session_key_of buf) ≡ (8 * 16 + 5) / 6)
session_key_of_lem buf h k = (read_key-session_key_of buf h k, length-session_key_of buf k)
