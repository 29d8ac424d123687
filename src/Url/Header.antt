-- ===== src/Url/Header.antt =====
-- `urlParseHeaderLine` on a line of fields.
use shellinabox.Base.{
  ℕ, ◌≡◌, ◌≢◌, refl, ap, ◌∙◌, true, false, none, some, List, [], ◌∷◌, ◌++◌, map, All, Bytes, length,
  arith, length-append, get_or, All-append,
}
use mathlib.Core.List.{append_assoc, append-nil}
use shellinabox.Url.{
  c_string, lower_byte, lower_key, is_quoted_value, header_value, add_header, header_from,
  url_parse_header_line,
}

-- A value as it is written: bare, or between quotes.
pub data Value : Type 0 where
  bare : Bytes → Value
  quoted : Bytes → Value

unfoldable pub value_text : Value → Bytes
value_text (bare v) = v
value_text (quoted v) = b'"' ∷ v ++ b'"' ∷ []

-- What is read of a value: the closing quote stays.
unfoldable pub value_read : Value → Bytes
value_read (bare v) = v
value_read (quoted v) = v ++ b'"' ∷ []

-- `key=value; key=value; …`
unfoldable pub line_text : List (Bytes × Value) → Bytes
unfolding value_text
line_text [] = []
line_text ((k, v) ∷ fs) = k ++ (b'=' ∷ (value_text v ++ b';' ∷ b' ' ∷ line_text fs))

abbrev IsPlain : ℕ → Type 0
IsPlain c = (c ≢ b';') × (c ≢ 0)

abbrev IsValue : Value → Type 0
IsValue (bare v) = All IsPlain v × (is_quoted_value v ≡ false)
IsValue (quoted v) = All IsPlain v

-- A key starts with no space and has no `=`, `;` or NUL; a value has no `;` or NUL, and a bare one
-- does not stand between quotes.
abbrev pub IsField : Bytes × Value → Type 0
IsField (k, v) = (get_or k 0 b' ' ≢ b' ') × All (λ c. (c ≢ b'=') × IsPlain c) k × IsValue v

-- The bytes that are made lower case are lower case already.
lower_key-same : (k : Bytes) → lower_key k ≡ k
unfolding lower_key lower_byte
lower_key-same [] = refl
lower_key-same (c ∷ k) = ground (arith, lower_key-same k)

c_string-same : (P : ℕ → Type 0) → ((c : ℕ) → P c → c ≢ 0) → (s : Bytes) → All P s → c_string s ≡ s
unfolding c_string
c_string-same P f [] h = refl
c_string-same P f (c ∷ s) h = ground (arith, f c h.0, c_string-same P f s h.1)

header_from-key :
    (key k s : Bytes)
    → All (λ c. (c ≢ b'=') × IsPlain c) k
    → header_from true key none (k ++ s) ≡ header_from true (key ++ k) none s
unfolding header_from
header_from-key key [] s h = rw (append-nil key) refl
header_from-key key (c ∷ k) s h =
    ground (arith, h.0, header_from-key (key ++ c ∷ []) k s h.1, append_assoc key (c ∷ []) k)

header_from-value :
    (key value v s : Bytes)
    → All IsPlain v
    → header_from true key (some value) (v ++ s) ≡ header_from true key (some (value ++ v)) s
unfolding header_from
header_from-value key value [] s h = rw (append-nil value) refl
header_from-value key value (c ∷ v) s h =
    ground
      (arith, h.0, header_from-value key (value ++ c ∷ []) v s h.1, append_assoc value (c ∷ []) v)

get_or-last : (xs : Bytes) (c d : ℕ) → get_or (xs ++ c ∷ []) (length xs) d ≡ c
get_or-last [] c d = refl
get_or-last (x ∷ xs) c d = get_or-last xs c d

quoted-is_quoted : (v : Bytes) → is_quoted_value (value_text (quoted v)) ≡ true
unfolding is_quoted_value value_text
quoted-is_quoted v = ground (arith, length-append v (b'"' ∷ []), get_or-last (b'"' ∷ v) b'"' 0)

value_text-IsPlain : (v : Value) → IsValue v → All IsPlain (value_text v)
unfolding value_text
value_text-IsPlain (bare v) h = h.0
value_text-IsPlain (quoted v) h = (
  ((λ e. omega arith), (λ e. omega arith)),
  All-append IsPlain v (b'"' ∷ []) h (((λ e. omega arith), (λ e. omega arith)), tt),
)

header_value-value_text :
    (v : Value) → IsValue v → header_value (some (value_text v)) ≡ some (value_read v)
unfolding header_value value_read value_text
header_value-value_text (bare v) h = rw h.1 (ap some (c_string-same IsPlain (λ c p. p.1) v h.0))
header_value-value_text (quoted v) h = rw (quoted-is_quoted v) (
    ap some
      (c_string-same IsPlain (λ c p. p.1) (v ++ b'"' ∷ []) (value_text-IsPlain (quoted v) h).1))

header_from-start :
    (c : ℕ) (s : Bytes)
    → c ≢ b' '
    → c ≢ b';'
    → c ≢ b'='
    → header_from false [] none (c ∷ s) ≡ header_from true (c ∷ []) none s
unfolding header_from
header_from-start c s h k l = ground (arith, h, k, l)

header_from-equals :
    (key s : Bytes) → header_from true key none (b'=' ∷ s) ≡ header_from true key (some []) s
unfolding header_from
header_from-equals key s = refl

header_from-end :
    (key value s : Bytes)
    → header_from true key (some value) (b';' ∷ b' ' ∷ s)
      ≡ add_header key (some value) ++ header_from false [] none s
unfolding header_from
header_from-end key value s = refl

add_header-value_text :
    (c : ℕ) (k : Bytes) (v : Value)
    → IsField (c ∷ k, v)
    → add_header (c ∷ k) (some (value_text v)) ≡ (c ∷ k, some (value_read v)) ∷ []
unfolding add_header
add_header-value_text c k v h = ground (
  arith,
  lower_key-same (c_string (c ∷ k)),
  c_string-same (λ c. (c ≢ b'=') × IsPlain c) (λ c p. p.1.1) (c ∷ k) h.1,
  header_value-value_text v h.2,
)

header_from-field :
    (k : Bytes) (v : Value) (s : Bytes)
    → IsField (k, v)
    → header_from false [] none (k ++ (b'=' ∷ (value_text v ++ b';' ∷ b' ' ∷ s)))
      ≡ (k, some (value_read v)) ∷ header_from false [] none s
header_from-field [] v s h = absurd (h.0 refl)
header_from-field (c ∷ k) v s h =
    let rest = value_text v ++ b';' ∷ b' ' ∷ s in
    header_from-start c (k ++ b'=' ∷ rest) h.0 h.1.0.1.0 h.1.0.0
    ∙ header_from-key (c ∷ []) k (b'=' ∷ rest) h.1.1
    ∙ header_from-equals (c ∷ k) rest
    ∙ header_from-value (c ∷ k) [] (value_text v) (b';' ∷ b' ' ∷ s) (value_text-IsPlain v h.2)
    ∙ header_from-end (c ∷ k) (value_text v) s
    ∙ ap (λ l. l ++ header_from false [] none s) (add_header-value_text c k v h)

-- On a line of fields, each closed by a semicolon and a space, urlParseHeaderLine adds these
-- fields in their order, with keys whose letters keep their case, and with values which lose
-- the quote before them but keep the one behind them, if no key starts with a space or has =, ;
-- or NUL, no value has ; or NUL, and none that is written bare stands between quotes.
pub url_parse_header_line-line_text :
    (fs : List (Bytes × Value))
    → All IsField fs
    → url_parse_header_line (line_text fs) ≡ map (λ f. (f.0, some (value_read f.1))) fs
unfolding url_parse_header_line line_text
url_parse_header_line-line_text [] h = unfold header_from in refl
url_parse_header_line-line_text ((k, v) ∷ fs) h =
    cc (header_from-field k v (line_text fs) h.0, url_parse_header_line-line_text fs h.1)
