-- ===== src/Session.antt =====
-- shellinabox/session.c: the keys of sessions and the graveyard.
pub mod Key
pub mod Find
pub mod Graveyard
use shellinabox.Base.{
  ℕ, zero, suc, ◌+◌, ◌-◌, ◌*◌, ◌/◌, ◌%◌, ◌^◌, Bool, true, false, List, [], ◌∷◌, ◌++◌, ltb, leb,
  if◌then◌else◌, Bytes, get_or, codes,
}

-- The characters of a key.
abbrev pub key_characters : Bytes
key_characters = codes "ABCDEFGHIJKLMNOPQRSTUVWXYZabcdefghijklmnopqrstuvwxyz0123456789-/"

-- The loop at the label `drain` of `newSessionKey`: the characters, and `count` behind them. Each
-- round takes six bits, so that `count` rounds are more than enough.
unfoldable pub drain : ℕ → ℕ → ℕ → Bytes × ℕ
drain zero bits count = ([], count)
drain (suc rounds) bits count =
    let rest = drain rounds bits (count - 6) in
    if leb 6 count
    then (get_or key_characters ((bits / 2 ^ (count - 6)) % 64) 0 ∷ rest.0, rest.1)
    else ([], count)

-- `bits << 8`; of the 32 bits of an `int`, whose sign plays no part, at most 13 are looked at.
unfoldable pub shift_byte : ℕ → ℕ → ℕ
shift_byte bits byte = (bits * 2 ^ 8 + byte) % 2 ^ 32

-- The loop over `buf`.
unfoldable pub key_from : ℕ → ℕ → Bytes → Bytes
unfolding drain shift_byte
key_from bits count [] =
    if ltb 0 count then (drain (count + 8) (shift_byte bits 0) (count + 8)).0 else []
key_from bits count (b ∷ buf) =
    let d = drain (count + 8) (shift_byte bits b) (count + 8) in
    d.0 ++ key_from (shift_byte bits b) d.1 buf

-- `newSessionKey`, from the bytes of /dev/urandom, of which it takes 16.
unfoldable pub session_key_of : Bytes → Bytes
unfolding key_from
session_key_of buf = key_from 0 0 buf

-- `struct Graveyard`
pub record Grave : Type 0 where
  pub timeout : ℕ
  pub session_key : Bytes

-- `AJAX_TIMEOUT`
abbrev pub ajax_timeout : ℕ
ajax_timeout = 45

-- `addToGraveyard` at a time.
unfoldable pub add_to_graveyard : ℕ → Bytes → List Grave → List Grave
add_to_graveyard now key graves =
    record { timeout = now + ajax_timeout; session_key = key } ∷ graves

-- The loop of `checkGraveyardInternal`: the graves that stay, and the keys that
-- `deleteFromHashMap` is called with.
unfoldable pub reap : ℕ → List Grave → List Grave × List Bytes
reap timeout [] = ([], [])
reap timeout (g ∷ graves) =
    let rest = reap timeout graves in
    if ltb g.timeout timeout then (rest.0, g.session_key ∷ rest.1) else (g ∷ rest.0, rest.1)

-- `checkGraveyardInternal` at a time, which is at least 90.
unfoldable pub check_graveyard_internal : Bool → ℕ → List Grave → List Grave × List Bytes
unfolding reap
check_graveyard_internal expire_all now graves =
    reap (now - (if expire_all then 2 * ajax_timeout else 0)) graves
