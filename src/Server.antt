-- ===== src/Server.antt =====
-- libhttp/server.c: the table of connections, and the parts of serverLoop that work on it.
pub mod Swap
pub mod Sorted
pub mod Search
pub mod Table
use shellinabox.Base.{
  ℕ, zero, suc, ◌+◌, ◌-◌, ◌*◌, ◌<◌, Bool, true, false, not, ◌&&◌, ◌||◌, Option, none, some, List,
  [], ◌∷◌, ◌++◌, ltb, leb, ◌==◌, if◌then◌else◌, get_elem?, get_or, set,
}

-- `struct pollfd`
pub record PollFd : Type 0 where
  pub fd : ℕ
  pub events : ℕ
  pub revents : ℕ

-- `struct ServerConnection`; `arg` stands for its callbacks and their argument. A timeout of 0 is none.
pub record ServerConnection : Type 0 where
  pub deleted : Bool
  pub timeout : ℕ
  pub arg : ℕ

-- `struct Server`, as far as the table goes: `poll_fds` begins at pollFds[1], with the entry of the
-- first connection. `destroyed` has the arguments with which destroyConnection has been called.
pub record Server : Type 0 where
  pub poll_fds : List PollFd
  pub connections : List ServerConnection
  pub destroyed : List ℕ

abbrev pub pollin : ℕ
pollin = 1

-- `serverAddConnection`; `stale` is what the memory for revents had in it.
unfoldable pub server_add_connection : ℕ → ℕ → ℕ → Server → Server
server_add_connection stale fd arg s = record s {
  poll_fds = s.poll_fds ++ record { fd = fd; events = pollin; revents = stale } ∷ [];
  connections = s.connections ++ record { deleted = false; timeout = 0; arg = arg } ∷ [];
}

-- The first entry of the file descriptor that is not deleted.
unfoldable pub find_connection : ℕ → List PollFd → List ServerConnection → Option ℕ
find_connection fd (p ∷ ps) (c ∷ cs) =
    if fd == p.fd && not c.deleted
    then some 0
    else elim (find_connection fd ps cs) [ none ↦ none | some i ↦ some (suc i) ]
find_connection fd _ _ = none

-- `serverDeleteConnection`
unfoldable pub server_delete_connection : ℕ → Server → Server
unfolding find_connection
server_delete_connection fd s = elim (find_connection fd s.poll_fds s.connections) [
  | none ↦ s
  | some i ↦ elim (get_elem? s.connections i) [
    | none ↦ s
    | some c ↦ record s {
      connections = set s.connections i (record c { deleted = true });
      destroyed = s.destroyed ++ c.arg ∷ [];
    }
  ]
]

unfoldable pub hint_holds : ℕ → ℕ → Server → Bool
hint_holds hint fd s = elim (get_elem? s.poll_fds hint) [
  | none ↦ false
  | some p ↦ elim (get_elem? s.connections hint) [
    | none ↦ false
    | some c ↦ not c.deleted && p.fd == fd
  ]
]

-- `serverGetConnection`: the index of the connection; `hint` is the one of `hint`, if it points into
-- the table.
unfoldable pub server_get_connection : Option ℕ → ℕ → Server → Option ℕ
unfolding find_connection hint_holds
server_get_connection none fd s = find_connection fd s.poll_fds s.connections
server_get_connection (some hint) fd s =
    if hint_holds hint fd s then some hint else find_connection fd s.poll_fds s.connections

-- `serverSetTimeout`, at the time `now`.
unfoldable pub server_set_timeout : ℕ → ℕ → ServerConnection → ServerConnection
server_set_timeout now timeout c = record c { timeout = if ltb 0 timeout then timeout + now else 0 }

-- `serverGetTimeout`: none if no timeout is set, else what remains and what is over; one of the two
-- is 0.
unfoldable pub server_get_timeout : ℕ → ServerConnection → Option (ℕ × ℕ)
server_get_timeout now c =
    if c.timeout == 0
    then none
    else some (c.timeout - now, if c.timeout == now then 1 else now - c.timeout)

-- `serverConnectionSetEvents`, of the connection with this index: the events it had before.
unfoldable pub server_connection_set_events : ℕ → ℕ → Server → Option (ℕ × Server)
server_connection_set_events i events s = elim (get_elem? s.poll_fds i) [
  | none ↦ none
  | some p ↦
      some (p.events, record s { poll_fds = set s.poll_fds i (record p { events = events }) })
]

-- The end of a round of serverLoop: what is deleted goes, and the rest of both arrays moves up.
unfoldable pub live_fds : List PollFd → List ServerConnection → List PollFd
live_fds (p ∷ ps) (c ∷ cs) = let rest = live_fds ps cs in if c.deleted then rest else p ∷ rest
live_fds ps _ = ps

unfoldable pub live_connections : List ServerConnection → List ServerConnection
live_connections [] = []
live_connections (c ∷ cs) = let rest = live_connections cs in if c.deleted then rest else c ∷ rest

unfoldable pub compact : Server → Server
unfolding live_fds live_connections
compact s = record s {
  poll_fds = live_fds s.poll_fds s.connections;
  connections = live_connections s.connections;
}

-- The entry in front and the one with this index change places.
unfoldable pub swap_first : {A : Type 0} → ℕ → List A → List A
swap_first zero xs = xs
swap_first (suc n) [] = []
swap_first (suc n) (x ∷ xs) = get_or xs n x ∷ set xs n x

-- Both arrays from the index `i` on, and the number of entries from there on that are to be polled,
-- numFds - 1 - i, or 0 where `i` is further on.
pub record Rest : Type 0 where
  pub to_poll : ℕ
  pub poll_fds : List PollFd
  pub connections : List ServerConnection

unfoldable pub first_is_idle : List PollFd → Bool
first_is_idle [] = false
first_is_idle (p ∷ ps) = p.events == 0

-- The inner loop: as long as the entry at `i` expects no events, the last one to be polled takes its
-- place.
unfoldable pub settle : ℕ → List PollFd → List ServerConnection → Rest
unfolding swap_first first_is_idle
settle zero ps cs = record { to_poll = 0; poll_fds = ps; connections = cs }
settle (suc n) ps cs =
    let rest = settle n (swap_first n ps) (swap_first n cs) in
    if first_is_idle ps then rest else record { to_poll = suc n; poll_fds = ps; connections = cs }

-- The earlier of the timeouts.
unfoldable pub earlier : Option ℕ → ServerConnection → Option ℕ
earlier none c = if c.timeout == 0 then none else some c.timeout
earlier (some t) c = if not (c.timeout == 0) && ltb c.timeout t then some c.timeout else some t

pub record Sorting : Type 0 where
  pub timeout : Option ℕ
  pub rest : Rest

-- How many entries are to be polled, if `n` are from this one on and `k` behind it.
unfoldable pub counted : ℕ → ℕ → ℕ
counted zero k = k
counted (suc n) k = suc k

unfoldable pub less_one : ℕ → ℕ
less_one zero = zero
less_one (suc n) = n

-- The outer loop: the entry in front is in its place, and `next` is the loop from the next one on.
unfoldable pub sort_behind :
    (ℕ → Option ℕ → List PollFd → List ServerConnection → Sorting)
    → Option ℕ
    → ℕ
    → List PollFd
    → List ServerConnection
    → Sorting
unfolding earlier counted less_one
sort_behind next timeout n (p ∷ ps) (c ∷ cs) =
    let b = next (less_one n) (earlier timeout c) ps cs in
    record {
      timeout = b.timeout;
      rest = record {
        to_poll = counted n b.rest.to_poll;
        poll_fds = p ∷ b.rest.poll_fds;
        connections = c ∷ b.rest.connections;
      };
    }
sort_behind next timeout n ps cs = record {
  timeout = timeout;
  rest = record { to_poll = n; poll_fds = ps; connections = cs };
}

-- In as many rounds as there are connections.
unfoldable pub sort_fds : ℕ → ℕ → Option ℕ → List PollFd → List ServerConnection → Sorting
unfolding settle sort_behind
sort_fds zero n timeout ps cs = record {
  timeout = timeout;
  rest = record { to_poll = n; poll_fds = ps; connections = cs };
}
sort_fds (suc rounds) n timeout ps cs =
    let r = settle n ps cs in
    sort_behind (sort_fds rounds) timeout r.to_poll r.poll_fds r.connections

-- What poll() is given: the time to wait, in milliseconds, or none for without end.
unfoldable pub earliest : Option ℕ → Option ℕ → ℕ → Option ℕ
earliest timeout none now = timeout
earliest none (some d) now = some (d + now)
earliest (some t) (some d) now = some (if ltb (d + now) t then d + now else t)

unfoldable pub poll_timeout : Option ℕ → Option ℕ → ℕ → ℕ → Option ℕ
unfolding earliest
poll_timeout timeout server_timeout current_time last_time =
    elim (earliest timeout server_timeout current_time) [
      | none ↦ none
      | some t ↦ some (if leb last_time t then (t - last_time + 1) * 1000 else 1000)
    ]
