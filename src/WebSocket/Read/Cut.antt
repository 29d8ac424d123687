-- ===== src/WebSocket/Read/Cut.antt =====
-- Frames in parts: `httpHandleWebSocket` reads them as if they came byte by byte.
use shellinabox.Base.{
  ℕ, zero, suc, ◌+◌, ◌*◌, ◌≤◌, ◌≡◌, refl, sym, Bool, true, Option, none, some, List, [], ◌∷◌, ◌++◌,
  Bytes, length, arith,
}
use mathlib.Core.Path.{subst}
use shellinabox.WebSocket.Read.{
  Reader, read_round, Read, refused, unfinished, read, read_part, read_rest, http_handle_web_socket,
  read_calls,
}
use shellinabox.WebSocket.Read.Stream.{Mode, Seen, feeds, view, Reads}
use shellinabox.WebSocket.Read.Bulk.{feeds-none, feeds-append}
use shellinabox.WebSocket.Read.Round.{slack, slack-le, Shrunk, read_round-Follows}

-- All bytes that come in.
unfoldable pub all_of : List (Bytes × Bytes) → Bytes
all_of [] = []
all_of ((partial, buf) ∷ calls) = (partial ++ buf) ++ all_of calls

module _ (accepts : ℕ → Bool) (willing : (n : ℕ) → accepts n ≡ true) where
  behind_round-Reads :
      (o : Option (Reader × Bytes)) (fuel : ℕ) (r : Reader) (part : Bytes)
      → 2 * length part + slack r ≤ suc fuel
      → Shrunk accepts willing r part o
      → ((d : Reader) (rest : Bytes)
          → 2 * length rest + slack d ≤ fuel
          → Reads (read_part accepts fuel d rest) (feeds rest (some (view d))))
      → Reads
          (elim o [ none ↦ refused | some (d, rest) ↦ read_part accepts fuel d rest ])
          (feeds part (some (view r)))
  behind_round-Reads none fuel r part h f ih = subst (Reads refused) (sym f) tt
  behind_round-Reads (some (d, rest)) fuel r part h f ih =
      subst (Reads (read_part accepts fuel d rest)) (sym f.agrees)
        (ih d rest (omega (arith, h, f.shrinks)))

  read_part-Reads :
      (fuel : ℕ) (r : Reader) (part : Bytes)
      → 2 * length part + slack r ≤ fuel
      → Reads (read_part accepts fuel r part) (feeds part (some (view r)))
  unfolding read_part feeds
  read_part-Reads fuel r [] h = refl
  read_part-Reads zero r (c ∷ s) h = absurd (omega arith)
  read_part-Reads (suc fuel) r (c ∷ s) h =
      behind_round-Reads (read_round accepts r c s) fuel r (c ∷ s) h
        (read_round-Follows accepts willing r c s) (read_part-Reads fuel)

  read_part-enough :
      (r : Reader) (part : Bytes)
      → Reads (read_part accepts (2 * length part + 1) r part) (feeds part (some (view r)))
  read_part-enough r part =
      read_part-Reads (2 * length part + 1) r part (omega (arith, slack-le accepts willing r))

  read_rest-Reads :
      (buf : Bytes) (x : Read) (y : Option (Mode × Seen))
      → Reads x y
      → Reads (read_rest accepts buf x) (feeds buf y)
  unfolding read_rest
  read_rest-Reads buf refused none h = subst (Reads refused) (sym (feeds-none buf)) tt
  read_rest-Reads buf (read r) (some v) h =
      subst (λ w. Reads (read_part accepts (2 * length buf + 1) r buf) (feeds buf (some w))) h
        (read_part-enough r buf)
  read_rest-Reads buf refused (some v) h = absurd h
  read_rest-Reads buf unfinished y h = absurd h
  read_rest-Reads buf (read r) none h = absurd h

  handle-Reads :
      (r : Reader) (partial buf : Bytes)
      → Reads
          (http_handle_web_socket accepts r partial buf)
          (feeds (partial ++ buf) (some (view r)))
  unfolding http_handle_web_socket
  handle-Reads r partial buf =
      subst (Reads (http_handle_web_socket accepts r partial buf))
        (sym (feeds-append partial buf (some (view r))))
        (read_rest-Reads buf (read_part accepts (2 * length partial + 1) r partial)
          (feeds partial (some (view r))) (read_part-enough r partial))

  read_all-Reads :
      (calls : List (Bytes × Bytes)) (x : Read) (y : Option (Mode × Seen))
      → Reads x y
      → Reads (read_calls accepts calls x) (feeds (all_of calls) y)
  unfolding read_calls all_of feeds
  read_all-Reads [] x y h = h
  read_all-Reads ((partial, buf) ∷ calls) (read r) (some v) h =
      subst (Reads (read_calls accepts calls (http_handle_web_socket accepts r partial buf)))
        (sym (feeds-append (partial ++ buf) (all_of calls) (some v)))
        (read_all-Reads calls (http_handle_web_socket accepts r partial buf)
          (feeds (partial ++ buf) (some v))
          (subst
            (λ w.
              Reads (http_handle_web_socket accepts r partial buf)
                (feeds (partial ++ buf) (some w)))
            h (handle-Reads r partial buf)))
  read_all-Reads ((partial, buf) ∷ calls) refused none h =
      subst (Reads refused) (sym (feeds-none ((partial ++ buf) ++ all_of calls))) tt
  read_all-Reads (call ∷ calls) refused (some v) h = absurd h
  read_all-Reads (call ∷ calls) unfinished y h = absurd h
  read_all-Reads (call ∷ calls) (read r) none h = absurd h

  -- If the handler always answers HTTP_DONE, then calls of httpHandleWebSocket, whatever each
  -- of them has in partial and in the buffer, end, and they do what the bytes mean one by one:
  -- they return 0 exactly where a length goes on behind a value above 0xFFFFFF, and else leave
  -- the reader where the bytes lead, and its handler with exactly their data, each byte with
  -- the type of its frame.
  pub read_calls-Reads :
      (calls : List (Bytes × Bytes)) (r : Reader)
      → Reads (read_calls accepts calls (read r)) (feeds (all_of calls) (some (view r)))
  read_calls-Reads calls r = read_all-Reads calls (read r) (some (view r)) refl
