-- ===== src/Terminal/Respond.antt =====
-- The text of a reply: what its Content-Length says is the length of its body.
use shellinabox.Base.{
  ℕ, zero, suc, ◌/◌, ◌≤◌, ◌≡◌, refl, ap, ◌∙◌, Bool, true, false, ◌&&◌, [], ◌∷◌, ◌++◌, ltb, leb,
  ◌==◌, if◌then◌else◌, Bytes, length, arith, codes, decimal, digits, read_decimal,
  read_decimal-decimal, All, All-append, Bool-cases, inl, inr,
}
use shellinabox.Terminal.{Reply, crlf, json_of, response}

-- Whether a text begins with another one.
unfoldable begins : Bytes → Bytes → Bool
begins [] s = true
begins (p ∷ ps) [] = false
begins (p ∷ ps) (c ∷ s) = p == c && begins ps s

unfoldable skip : Bytes → Bytes → Bytes
skip [] s = s
skip (p ∷ ps) [] = []
skip (p ∷ ps) (c ∷ s) = skip ps s

-- The text behind the first place where another one stands.
unfoldable behind : Bytes → Bytes → Bytes
unfolding begins skip
behind p [] = []
behind p (c ∷ s) = let rest = behind p s in if begins p (c ∷ s) then skip p (c ∷ s) else rest

-- The digits at the beginning of a text, and the rest.
unfoldable lead_digits : Bytes → Bytes × Bytes
lead_digits [] = ([], [])
lead_digits (c ∷ s) =
    let r = lead_digits s in if leb b'0' c && leb c b'9' then (c ∷ r.0, r.1) else ([], c ∷ s)

-- A reader of HTTP replies: the number behind Content-Length and the text behind the empty line.
unfoldable pub read_response : Bytes → ℕ × Bytes
unfolding behind lead_digits
read_response r =
    let t = lead_digits (behind (codes "Content-Length: ") r) in
    (read_decimal 0 t.0, behind (crlf ++ crlf) t.1)

abbrev IsDigit : ℕ → Type 0
IsDigit c = (b'0' ≤ c) × (c ≤ b'9')

digits-All : (fuel n : ℕ) → All IsDigit (digits fuel n)
unfolding digits
digits-All zero n = tt
digits-All (suc fuel) n = elim (Bool-cases (ltb n 10)) [
  | inl e ↦ rw e ((omega arith, omega arith), tt)
  | inr e ↦ rw e (
      All-append IsDigit (digits fuel (n / 10)) _ (digits-All fuel (n / 10))
        ((omega arith, omega arith), tt))
]

decimal-All : (n : ℕ) → All IsDigit (decimal n)
unfolding decimal
decimal-All n = digits-All (suc n) n

lead_digits-digits : (ds s : Bytes) → All IsDigit ds → lead_digits (ds ++ 13 ∷ s) ≡ (ds, 13 ∷ s)
unfolding lead_digits
lead_digits-digits [] s h = refl
lead_digits-digits (d ∷ ds) s h = ground (arith, lead_digits-digits ds s h.1)

behind-length :
    (s : Bytes)
    → behind (codes "Content-Length: ") (
        codes "HTTP/1.1 200 OK"
        ++ crlf
        ++ codes "Content-Type: application/json; charset=utf-8"
        ++ crlf
        ++ codes "Content-Length: "
        ++ s)
      ≡ s
unfolding behind begins skip
behind-length s = refl

behind-line :
    (s : Bytes)
    → behind (crlf ++ crlf) (crlf ++ codes "Cache-Control: no-cache" ++ crlf ++ crlf ++ s) ≡ s
unfolding behind begins skip
behind-line s = refl

regrouped :
    (d b : Bytes)
    → d ++ crlf ++ codes "Cache-Control: no-cache" ++ crlf ++ crlf ++ b
      ≡ d ++ (crlf ++ codes "Cache-Control: no-cache" ++ crlf ++ crlf ++ b)
regrouped [] b = refl
regrouped (c ∷ d) b = ap (◌∷◌ c) (regrouped d b)

read_response-text :
    (n : ℕ) (b : Bytes)
    → read_response (
        codes "HTTP/1.1 200 OK"
        ++ crlf
        ++ codes "Content-Type: application/json; charset=utf-8"
        ++ crlf
        ++ codes "Content-Length: "
        ++ decimal n
        ++ crlf
        ++ codes "Cache-Control: no-cache"
        ++ crlf
        ++ crlf
        ++ b)
      ≡ (n, b)
unfolding read_response
read_response-text n b =
    let read : Bytes × Bytes → ℕ × Bytes = λ t. (read_decimal 0 t.0, behind (crlf ++ crlf) t.1) in
    let line = crlf ++ codes "Cache-Control: no-cache" ++ crlf ++ crlf ++ b in
    ap (λ t. read (lead_digits t))
      (behind-length (decimal n ++ crlf ++ codes "Cache-Control: no-cache" ++ crlf ++ crlf ++ b)
        ∙ regrouped (decimal n) b)
    ∙ ap read (
        lead_digits-digits (decimal n) (10 ∷ (codes "Cache-Control: no-cache" ++ crlf ++ crlf ++ b))
          (decimal-All n))
    ∙ cc (read_decimal-decimal n, behind-line b)

-- From the text of a reply, a reader of HTTP gets the length of its JSON text as
-- Content-Length, and behind the empty line exactly this JSON text, or nothing where the method
-- is HEAD.
pub read_response-response :
    (session_key : Bytes) (reply : Reply)
    → let json = json_of session_key reply.text in
      read_response (response session_key reply)
      ≡ (length json, if reply.http.is_head then [] else json)
unfolding response
read_response-response session_key reply =
    read_response-text (length (json_of session_key reply.text)) _
