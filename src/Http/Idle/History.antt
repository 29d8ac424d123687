-- ===== src/Http/Idle/History.antt =====
-- The life of a connection: bytes come in, and replies are sent while it waits.
use shellinabox.Base.{ℕ, ◌≡◌, refl, Bool, false, Option, none, some, List, [], ◌∷◌, Bytes}
use shellinabox.Trie.{Node}
use shellinabox.Base.{Leaves}
use shellinabox.Http.{HttpConnection, Env}
use shellinabox.Http.Command.{Handler}
use shellinabox.Http.Machine.{resume, init_http_connection}
use shellinabox.Http.Loop.{Outcome, broken, endless, stopped, round, process}
use shellinabox.Http.Idle.{IsIdle, resume-IsIdle}
use shellinabox.Http.Idle.Process.{Stops, process-Stops}

-- What happens to a connection: some bytes come in, the last `buffered` of them in the buffer and the
-- others in `partial`, and so many rounds are made; or `httpTransfer` has sent a reply.
pub data Event : Type 0 where
  arrives : ℕ → ℕ → Bytes → Event
  replies : Event

unfoldable pub left_open : Outcome → Option HttpConnection
left_open (stopped c rest) = some c
left_open _ = none

module _ (env : Env) (handlers : Node Handler) (port : ℕ)
    (frames : HttpConnection → Bytes → HttpConnection × Bool) where
  unfoldable pub happens : Event → HttpConnection → Option HttpConnection
  unfolding left_open
  happens (arrives fuel buffered input) c =
      left_open (process (round env handlers port frames buffered false) fuel c input)
  happens replies c = resume env c

  -- One event after the other, up to a failed check.
  unfoldable pub history : List Event → Option HttpConnection → Option HttpConnection
  unfolding happens
  history [] c = c
  history (e ∷ events) none = none
  history (e ∷ events) (some c) = history events (happens e c)

  left_open-Leaves : (o : Outcome) → Stops o → Leaves IsIdle (left_open o)
  unfolding left_open
  left_open-Leaves (stopped c rest) h = h
  left_open-Leaves broken h = tt
  left_open-Leaves endless h = tt

  module _ (stays : (c : HttpConnection) (s : Bytes) → (frames c s).0.state ≡ c.state) where
    happens-Leaves : (e : Event) (c : HttpConnection) → IsIdle c → Leaves IsIdle (happens e c)
    unfolding happens
    happens-Leaves (arrives fuel buffered input) c h =
        left_open-Leaves (process (round env handlers port frames buffered false) fuel c input)
          (process-Stops env handlers port frames buffered stays false fuel c input h)
    happens-Leaves replies c h = resume-IsIdle env c h

    history-Leaves :
        (events : List Event) (c : Option HttpConnection)
        → Leaves IsIdle c
        → Leaves IsIdle (history events c)
    unfolding history
    history-Leaves [] c h = h
    history-Leaves (e ∷ events) none h = tt
    history-Leaves (e ∷ events) (some c) h =
        history-Leaves events (happens e c) (happens-Leaves e c h)

    -- From initHttpConnection on, whatever bytes come in in whatever parts, and whenever
    -- replies are sent, a connection whose checks have not failed expects nothing while it
    -- waits for a line, whatever handlers and callbacks answer; the reader of web sockets is
    -- one that leaves the state alone.
    pub history-IsIdle :
        (events : List Event) (ssl : Bool)
        → Leaves IsIdle (history events (some (init_http_connection ssl)))
    unfolding init_http_connection
    history-IsIdle events ssl = history-Leaves events (some (init_http_connection ssl)) (λ l. refl)
