-- ===== src/Payload/Whole.antt =====
-- A body that arrives in parts reaches the handler once and whole.
use shellinabox.Base.{
  ℕ, ◌+◌, ◌≤◌, ◌<◌, ◌≡◌, refl, sym, ap, ◌∙◌, false, Option, none, some, List, [], ◌∷◌, ◌++◌,
  if◌then◌else◌, Bytes, length, take, ◌==◌, length-append, arith,
}
use mathlib.Core.List.{append_assoc, append-nil}
use shellinabox.Terminal.Complete.{take-all}
use shellinabox.Payload.{
  Rc, http_done, http_error, http_read_more, http_suspend, http_partial_reply, PayLoad, Collected,
  max_payload_length, all_bytes, append_part, is_held, is_complete, tear_down, offer,
  server_collect_full_payload,
}

pub record Calls : Type 0 where
  pub payload : PayLoad
  pub calls : List (Option Bytes)

-- A part, and the rest behind it unless status 400 has been sent.
unfoldable after : Collected → Calls → Calls
after r rest =
    if r.bad_request
    then record { payload = r.payload; calls = r.calls }
    else record { payload = rest.payload; calls = r.calls ++ rest.calls }

-- The parts of a body, one after the other.
unfoldable pub collect_all : (Bytes → Rc) → Option ℕ → PayLoad → List Bytes → Calls
unfolding server_collect_full_payload after
collect_all handler n p [] = record { payload = p; calls = [] }
collect_all handler n p (buf ∷ bufs) =
    let r = server_collect_full_payload handler n p (some buf) in
    after r (collect_all handler n r.payload bufs)

unfoldable pub body : List Bytes → Bytes
body [] = []
body (buf ∷ bufs) = buf ++ body bufs

-- The payload holds exactly these bytes.
record Holds (p : PayLoad) (acc : Bytes) : Type 0 where
  len : p.len ≡ length acc
  bytes : all_bytes p ≡ acc

-- A payload of length 0, whatever its memory.
blank : Option Bytes → PayLoad
blank bytes = record { len = 0; bytes = bytes }

blank-Holds : (bytes : Option Bytes) → Holds (blank bytes) []
unfolding blank all_bytes
blank-Holds none = record { len = refl; bytes = refl }
blank-Holds (some b) = record { len = refl; bytes = refl }

append_part-Holds :
    (p : PayLoad) (acc buf : Bytes) → Holds p acc → Holds (append_part p buf) (acc ++ buf)
unfolding append_part all_bytes
append_part-Holds p acc buf h =
    let total : p.len + length buf ≡ length (acc ++ buf) =
      omega (arith, h.len, length-append acc buf) in
    record {
      len = total;
      bytes =
          ap (λ b. take (p.len + length buf) (b ++ buf)) (unfold all_bytes in h.bytes)
          ∙ take-all (p.len + length buf) (acc ++ buf) (omega (arith, total));
    }

tear_down-open : (c : Collected) → tear_down false c ≡ c
unfolding tear_down
tear_down-open c = go c.rc
  where
    go :
        (r : Rc)
        → elim r as (λ r. Collected) [
          | http_done ↦ c
          | http_error ↦ c
          | http_read_more ↦ c
          | http_suspend ↦ c
          | http_partial_reply ↦ c
        ]
          ≡ c
    go http_done = refl
    go http_error = refl
    go http_read_more = refl
    go http_suspend = refl
    go http_partial_reply = refl

nonempty : (c : ℕ) (buf : Bytes) → (length (c ∷ buf) == 0) ≡ false
nonempty c buf = ground arith

module _ (handler : Bytes → Rc) (n : ℕ) where
  -- A part that does not complete the body.
  part : PayLoad → Bytes → PayLoad
  part p buf = if length buf == 0 then p else append_part p buf

  part-Holds : (p : PayLoad) (acc buf : Bytes) → Holds p acc → Holds (part p buf) (acc ++ buf)
  unfolding part
  part-Holds p acc [] h = rw append-nil h
  part-Holds p acc (c ∷ buf) h = rw (nonempty c buf) (append_part-Holds p acc (c ∷ buf) h)

  collect-part :
      (p : PayLoad) (acc buf : Bytes)
      → Holds p acc
      → length acc + length buf < n
      → length acc + length buf ≤ max_payload_length
      → server_collect_full_payload handler (some n) p (some buf)
        ≡ record { payload = part p buf; calls = []; bad_request = false; rc = http_read_more }
  unfolding server_collect_full_payload offer is_complete tear_down part
  collect-part p acc [] t h k = ground (arith, t.len)
  collect-part p acc (c ∷ buf) t h k =
      ground (arith, t.len, (append_part-Holds p acc (c ∷ buf) t).len, length-append acc (c ∷ buf))

  -- The part that completes the body.
  collect-last :
      (p : PayLoad) (acc : Bytes) (c : ℕ) (buf : Bytes)
      → Holds p acc
      → n ≤ length acc + length (c ∷ buf)
      → length acc + length (c ∷ buf) ≤ max_payload_length
      → server_collect_full_payload handler (some n) p (some (c ∷ buf)) ≡ record {
        payload = record { len = 0; bytes = none };
        calls = some (acc ++ c ∷ buf) ∷ [];
        bad_request = false;
        rc = handler (acc ++ c ∷ buf);
      }
  unfolding server_collect_full_payload offer is_complete is_held append_part
  collect-last p acc c buf t h k =
      let all = append_part-Holds p acc (c ∷ buf) t in
      ground
        (arith, t.len, t.bytes, all.len, all.bytes, length-append acc (c ∷ buf), tear_down-open _)

  collect_all-from :
      (p : PayLoad) (acc : Bytes) (bufs : List Bytes) (c : ℕ) (buf : Bytes)
      → Holds p acc
      → length acc + length (body bufs) < n
      → n ≤ length acc + length (body bufs) + length (c ∷ buf)
      → length acc + length (body bufs) + length (c ∷ buf) ≤ max_payload_length
      → collect_all handler (some n) p (bufs ++ (c ∷ buf) ∷ []) ≡ record {
        payload = record { len = 0; bytes = none };
        calls = some (acc ++ (body bufs ++ c ∷ buf)) ∷ [];
      }
  unfolding collect_all body after
  collect_all-from p acc [] c buf t h k l =
      ap (λ r. after r (collect_all handler (some n) r.payload []))
        (collect-last p acc c buf t (omega (arith, k)) (omega (arith, l)))
  collect_all-from p acc (b ∷ bufs) c buf t h k l =
      let split = length-append b (body bufs) in
      let grown = length-append acc b in
      ap (λ r. after r (collect_all handler (some n) r.payload (bufs ++ (c ∷ buf) ∷ [])))
        (collect-part p acc b t (omega (arith, split, h)) (omega (arith, split, l)))
      ∙ collect_all-from (part p b) (acc ++ b) bufs c buf (part-Holds p acc b t)
          (omega (arith, split, grown, h)) (omega (arith, split, grown, k))
          (omega (arith, split, grown, l))
      ∙ ap (λ bs. record { payload = record { len = 0; bytes = none }; calls = some bs ∷ [] })
          (append_assoc acc b (body bufs ++ c ∷ buf)
            ∙ ap (λ bs. acc ++ bs) (sym (append_assoc b (body bufs) (c ∷ buf))))

  -- For a Content-Length of n, and a body that arrives in any parts, of which all but the last
  -- are shorter than n together and with the last, which is not empty, as long as n or longer
  -- and no longer than MAX_PAYLOAD_LENGTH, serverCollectFullPayload, from a payload of length 0 on,
  -- be its bytes NULL or memory of malloc(0), with which serverCollectHandler starts, calls its
  -- handler exactly once, with the parts in their order, and is empty again, with NULL.
  pub collect_all-body :
      (bytes : Option Bytes) (bufs : List Bytes) (c : ℕ) (buf : Bytes)
      → length (body bufs) < n
      → n ≤ length (body bufs) + length (c ∷ buf)
      → length (body bufs) + length (c ∷ buf) ≤ max_payload_length
      → collect_all handler (some n) (record { len = 0; bytes = bytes }) (bufs ++ (c ∷ buf) ∷ [])
        ≡ record {
          payload = record { len = 0; bytes = none };
          calls = some (body bufs ++ c ∷ buf) ∷ [];
        }
  unfolding blank
  collect_all-body bytes bufs c buf h k l =
      collect_all-from (blank bytes) [] bufs c buf (blank-Holds bytes) (omega (arith, h))
        (omega (arith, k)) (omega (arith, l))
