-- ===== src/WebSocket/Read/Sent.antt =====
-- Text frames that are sent by httpSendWebSocketTextMsg and come in again, in any parts.
use shellinabox.Base.{
  ℕ, ◌+◌, ◌/◌, ◌%◌, ◌<◌, ◌≡◌, ◌≢◌, refl, ap, ◌∙◌, Bool, true, false, some, List, [], ◌∷◌, ◌++◌,
  Bytes, leb, arith, inl, inr, Bool-cases, All,
}
use mathlib.Core.Path.{subst}
use shellinabox.WebSocket.{text_frame, utf8_of}
use shellinabox.WebSocket.Read.{Reader, read, read_calls}
use shellinabox.WebSocket.Read.Stream.{at_type, in_text, Seen, feed, feeds, onto, view, Reads}
use shellinabox.WebSocket.Read.Cut.{all_of, read_calls-Reads}

-- Before any frame.
abbrev pub fresh : Reader
fresh = record { kind = 0; undefined = true; starts = false; expecting = 0; log = [] }

no_end : (c : ℕ) → c < 256 → (0xC0 + c / 64 ≢ 0xFF) × (0x80 + c % 64 ≢ 0xFF)
no_end c h = (omega arith, omega arith)

low_byte : (c : ℕ) → leb 128 c ≡ false → c ≢ 0xFF
low_byte c e = ground (arith, e)

utf8_of-All : (buf : Bytes) → All (λ b. b < 256) buf → All (λ b. b ≢ 0xFF) (utf8_of buf)
unfolding utf8_of
utf8_of-All [] h = tt
utf8_of-All (c ∷ buf) h = elim (Bool-cases (leb 128 c)) [
  | inl e ↦ rw e ((no_end c h.0).0, ((no_end c h.0).1, utf8_of-All buf h.1))
  | inr e ↦ rw e (low_byte c e, utf8_of-All buf h.1)
]

feed-kept :
    (type c : ℕ) (seen : Seen)
    → c ≢ 0xFF
    → feed (in_text type) c seen ≡ some (in_text type, (type, c) ∷ seen)
unfolding feed
feed-kept type c seen h = ground arith

feed-type : (type : ℕ) → type < 128 → feed at_type type [] ≡ some (in_text type, [])
unfolding feed
feed-type type h = ground arith

feeds-kept :
    (type : ℕ) (s rest : Bytes) (seen : Seen)
    → All (λ b. b ≢ 0xFF) s
    → feeds (s ++ rest) (some (in_text type, seen))
      ≡ feeds rest (some (in_text type, onto type s seen))
unfolding feeds feed onto
feeds-kept type [] rest seen h = refl
feeds-kept type (c ∷ s) rest seen h =
    ap (feeds (s ++ rest)) (feed-kept type c seen h.0)
    ∙ feeds-kept type s rest ((type, c) ∷ seen) h.1

feeds-text_frame :
    (type : ℕ) (buf : Bytes)
    → type < 128
    → All (λ b. b < 256) buf
    → feeds (text_frame type buf) (some (at_type, [])) ≡ some (at_type, onto type (utf8_of buf) [])
unfolding feeds feed text_frame
feeds-text_frame type buf t h =
    ap (feeds (utf8_of buf ++ 0xFF ∷ [])) (feed-type type t)
    ∙ feeds-kept type (utf8_of buf) (0xFF ∷ []) [] (utf8_of-All buf h)

-- If the frame that httpSendWebSocketTextMsg makes of any bytes, with a type below 128, comes
-- in in any parts, and the handler always answers HTTP_DONE, then httpHandleWebSocket does not
-- refuse it, passes on exactly the bytes of its text, and waits for the next frame.
pub read_calls-text_frame :
    (accepts : ℕ → Bool) (calls : List (Bytes × Bytes)) (type : ℕ) (buf : Bytes)
    → ((n : ℕ) → accepts n ≡ true)
    → type < 128
    → All (λ b. b < 256) buf
    → all_of calls ≡ text_frame type buf
    → Reads (read_calls accepts calls (read fresh)) (some (at_type, onto type (utf8_of buf) []))
unfolding view
read_calls-text_frame accepts calls type buf willing t h e =
    subst (Reads (read_calls accepts calls (read fresh)))
      (ap (λ s. feeds s (some (at_type, []))) e ∙ feeds-text_frame type buf t h)
      (read_calls-Reads accepts willing calls fresh)
