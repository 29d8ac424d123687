-- ===== src/WebSocket/Read/Stream.antt =====
-- The bytes of web socket frames one by one: what a stream of frames means, however it is cut.
use shellinabox.Base.{
  ℕ, ◌+◌, ◌-◌, ◌*◌, ◌%◌, ◌≡◌, Option, none, some, List, [], ◌∷◌, Bytes, ltb, leb, ◌==◌,
  if◌then◌else◌,
}
use shellinabox.WebSocket.Read.{Message, Reader, Read, refused, read}

-- Where in a frame a byte stands: at its type, in the length of a frame of a kind, in a text, or in
-- binary data of which some bytes are left.
pub data Mode : Type 0 where
  at_type : Mode
  in_length : ℕ → ℕ → Mode
  in_text : ℕ → Mode
  in_data : ℕ → ℕ → Mode

-- Where data of some length begins.
unfoldable pub at_data : ℕ → ℕ → Mode
at_data kind n = if leb 128 kind then (if n == 0 then at_type else in_data kind n) else in_text kind

-- A byte of a message, with the type of its frame, in front of those before it.
abbrev pub Seen : Type 0
Seen = List (ℕ × ℕ)

-- What a byte means: where the next one stands, and what has been seen; a length of more than four
-- digits is refused.
unfoldable pub feed : Mode → ℕ → Seen → Option (Mode × Seen)
unfolding at_data
feed at_type c seen = some (if leb 128 c then in_length c 0 else in_text c, seen)
feed (in_length kind n) c seen =
    if ltb 0xFFFFFF n
    then none
    else some (
      if leb 128 c then in_length kind (128 * n + c % 128) else at_data kind (128 * n + c % 128),
      seen,
    )
feed (in_text kind) c seen =
    some (if c == 0xFF then (at_type, seen) else (in_text kind, (kind, c) ∷ seen))
feed (in_data kind n) c seen = some (at_data kind (n - 1), (kind, c) ∷ seen)

unfoldable pub feeds : Bytes → Option (Mode × Seen) → Option (Mode × Seen)
unfolding feed
feeds [] x = x
feeds (c ∷ s) none = none
feeds (c ∷ s) (some (m, seen)) = feeds s (feed m c seen)

unfoldable pub mode_of : Reader → Mode
unfolding at_data
mode_of r =
    if r.undefined
    then (if r.kind == 0 then at_type else in_length r.kind r.expecting)
    else at_data r.kind r.expecting

-- The bytes of a message on top of those before it.
unfoldable pub onto : ℕ → Bytes → Seen → Seen
onto kind [] seen = seen
onto kind (c ∷ s) seen = onto kind s ((kind, c) ∷ seen)

unfoldable pub seen_of : List Message → Seen
unfolding onto
seen_of [] = []
seen_of (m ∷ log) = onto m.kind m.text (seen_of log)

-- Where a reader stands, and what its handler has seen.
unfoldable pub view : Reader → Mode × Seen
unfolding mode_of seen_of
view r = (mode_of r, seen_of r.log)

-- The loop has ended, with 0 where the stream is refused, and else where the stream leads.
abbrev pub Reads : Read → Option (Mode × Seen) → Type 0
Reads refused none = Unit
Reads (read r) (some x) = view r ≡ x
Reads _ _ = ⊥
