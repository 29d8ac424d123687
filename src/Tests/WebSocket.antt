-- ===== src/Tests/WebSocket.antt =====
-- Frames of a web socket.
use shellinabox.Base.{
  ℕ, Bool, true, false, codes, ◌++◌, ◌≡◌, refl, some, List, [], ◌∷◌, Bytes, arith, length,
}
use shellinabox.WebSocket.{text_frame, utf8_len, length_digits}
use shellinabox.WebSocket.Text.{read_frame}
use shellinabox.WebSocket.Read.{refused, read, read_text, with_rest, read_calls}
use shellinabox.WebSocket.Read.Stream.{at_type, feeds, onto, view, Reads}
use shellinabox.WebSocket.Read.Cut.{all_of, read_calls-Reads}
use shellinabox.WebSocket.Read.Sent.{fresh, read_calls-text_frame}
use shellinabox.WebSocket.Binary.{value, text_frame_lem}

abbrev text : Bytes
text = codes "caf" ++ 233 ∷ []

text_frame-text : text_frame 0 text ≡ 0 ∷ codes "caf" ++ 195 ∷ 169 ∷ 255 ∷ []
unfolding text_frame
text_frame-text = refl

length_digits-300 : length_digits 300 ≡ 2 ∷ 172 ∷ []
unfolding length_digits
length_digits-300 = refl

text_frame_lem_example :
    (read_frame (text_frame 0 text) ≡ some text)
    × (length (text_frame 0 text) ≡ utf8_len text)
    × (value 0 (length_digits 300) ≡ 300)
text_frame_lem_example = text_frame_lem 0 text 300 (omega arith)

-- A frame that comes in in two parts, of which the second stands in `partial` and in the buffer.
abbrev parts : List (Bytes × Bytes)
parts = ([], 0 ∷ codes "ca") ∷ (codes "f", 195 ∷ 169 ∷ 255 ∷ []) ∷ []

abbrev obliging : ℕ → Bool
obliging n = true

-- Each part is passed on with WS_END_OF_FRAME.
read_calls-parts :
    read_calls obliging parts (read fresh)
    ≡ read (record fresh {
      log =
          record { kind = 0; starts = false; ends = true; text = 195 ∷ 169 ∷ [] }
          ∷ record { kind = 0; starts = false; ends = true; text = codes "f" }
          ∷ record { kind = 0; starts = true; ends = true; text = codes "ca" }
          ∷ [];
    })
unfolding read_calls read_text
read_calls-parts = refl

-- A length of more than four digits.
read_calls-long :
    read_calls obliging (([], 128 ∷ 255 ∷ 255 ∷ 255 ∷ 255 ∷ 255 ∷ []) ∷ []) (read fresh) ≡ refused
unfolding read_calls with_rest
read_calls-long = refl

read_calls-Reads_example :
    Reads (read_calls obliging parts (read fresh)) (feeds (all_of parts) (some (view fresh)))
read_calls-Reads_example = read_calls-Reads obliging (λ n. refl) parts fresh

read_calls-text_frame_example :
    Reads
      (read_calls obliging parts (read fresh))
      (some (at_type, onto 0 (codes "caf" ++ 195 ∷ 169 ∷ []) []))
unfolding text_frame all_of
read_calls-text_frame_example =
    read_calls-text_frame obliging parts 0 text (λ n. refl) (omega arith) (omega arith) refl
