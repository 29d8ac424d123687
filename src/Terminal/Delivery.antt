-- ===== src/Terminal/Delivery.antt =====
-- A session in the server's loop, from event to event: its output is delivered whole and in order.
use shellinabox.Base.{◌≡◌, false, none, List, [], ◌∷◌, ◌++◌, Bytes, ◌⊎◌}
use shellinabox.Terminal.Complete.{held, IsStored, sent}
use shellinabox.Terminal.Life.{
  Event, keys, State, aborted, ended, expired, alive, Trace, is_waiting, advance,
}

-- What a session holds, or held when it was thrown away.
abbrev pub held_by : State → Bytes
held_by aborted = []
held_by ended = []
held_by (expired b) = b
held_by (alive s) = held s.buffered

-- The buffer is in order, and where a request waits, it is empty.
abbrev pub IsSound : State → Type 0
IsSound aborted = ⊥
IsSound ended = Unit
IsSound (expired b) = Unit
IsSound (alive s) = IsStored s.buffered s.len × ((s.http ≡ none) ⊎ (held s.buffered ≡ []))

-- Keys do not come on a connection whose request waits: no other request is read there before it
-- has been answered.
abbrev pub IsFair : State → Event → Type 0
IsFair (alive s) (keys false r) = is_waiting s r ≡ false
IsFair _ _ = Unit

abbrev pub AreFair : State → List Event → Type 0
AreFair st [] = Unit
AreFair st (e ∷ es) = IsFair st e × AreFair (advance st e).state es

-- From the state `st` on, `t` delivers.
pub record Delivers (st : State) (t : Trace) : Type 0 where
  pub sound : IsSound t.state
  pub delivered : sent t.replies ++ held_by t.state ≡ held_by st ++ t.taken
