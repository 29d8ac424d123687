-- ===== src/Http/Parts.antt =====
-- A payload of which the first bytes are in `partial`.
use shellinabox.Base.{
  ℕ, ◌+◌, ◌-◌, ◌≤◌, ◌<◌, ◌≡◌, true, false, none, some, Bytes, length, take, drop, arith, inl, inr,
  Option-cases, length-drop, length-take,
}
use shellinabox.Payload.{http_done}
use shellinabox.Http.{payload, HttpConnection, Env}
use shellinabox.Http.Machine.{
  is_state, is_complete, consumed_of, http_consume_payload, left_of, settle, conclude,
  http_set_state, answer, make_call,
}
use shellinabox.Http.Loop.{failed, http_parse_payload, behind_parsed, payload_round}

-- A callback that is done before the payload is over.
module _ (env : Env) (c : HttpConnection) (n : ℕ) (waits : c.state ≡ payload)
    (expects : c.expecting ≡ some n) (calls : c.callback ≡ true) (fresh : c.done ≡ false)
    (ends : (answer env c).rc ≡ http_done) (stays : (answer env c).callback ≡ true) where
  first_part :
      (part : Bytes)
      → length part < n
      → (d : HttpConnection) × (http_consume_payload env part c ≡ some d)
        × (d.expecting ≡ some (n - length part))
        × (d.callback ≡ true)
        × (d.done ≡ true)
  unfolding http_consume_payload settle conclude http_set_state make_call answer consumed_of left_of
      is_complete
  first_part part h = elim (Option-cases (http_consume_payload env part c)) [
    | inl k ↦ absurd (ground (arith, waits, expects, calls, fresh, ends, stays, k))
    | inr (d, k) ↦ (
      d,
      k,
      ground (arith, waits, expects, calls, fresh, ends, stays, k),
      ground (arith, waits, expects, calls, fresh, ends, stays, k),
      ground (arith, waits, expects, calls, fresh, ends, stays, k),
    )
  ]

  second_part :
      (d : HttpConnection) (part : Bytes)
      → d.callback ≡ true
      → d.done ≡ true
      → http_consume_payload env part d ≡ none
  unfolding http_consume_payload
  second_part d part k o = ground (arith, k, o)

  parse_payload-aborts :
      (held : ℕ) (input : Bytes)
      → 0 < held
      → held < n
      → held < length input
      → http_parse_payload env held input c ≡ none
  unfolding http_parse_payload is_complete
  parse_payload-aborts held input a b l =
      let size = length-take held input (omega (arith, l)) in
      let f = first_part (take held input) (omega (arith, size, b)) in
      let rest = second_part f.0 (drop held input) f.3 f.4 in
      ground (arith, f.1, f.2, size, rest, length-drop held input)

  consumed-short : (len : ℕ) → consumed_of c.expecting len ≤ len
  unfolding consumed_of
  consumed-short len = ground (arith, expects)

  consumed-long : (held len : ℕ) → held < n → held < len → held < consumed_of c.expecting len
  unfolding consumed_of
  consumed-long held len a b = ground (arith, expects)

  -- If a payload of known length comes in of which the first bytes, but not all, are in
  -- partial, further bytes are in the buffer, and the callback that gets the first bytes is
  -- done with them and stays, then a check fails: the server stops.
  pub payload_round-aborts :
      (buffered : ℕ) (input : Bytes)
      → 0 < buffered
      → buffered < length input
      → length input < n + buffered
      → payload_round env buffered c input ≡ failed
  unfolding payload_round behind_parsed is_state is_complete consumed_of
  payload_round-aborts buffered input a b l =
      let len = consumed_of c.expecting (length input) in
      let size = length-take len input (consumed-short (length input)) in
      let long =
        consumed-long (length input - buffered) (length input) (omega (arith, b, l))
          (omega (arith, a, b)) in
      ground (
        arith,
        waits,
        expects,
        parse_payload-aborts (length input - buffered) (take len input) (omega (arith, b))
            (omega (arith, b, l)) (omega (arith, size, long)),
      )
