-- ===== src/Tests/Server.antt =====
-- A table of a few connections.
use shellinabox.Base.{◌≡◌, refl, false, none, some, List, [], ◌∷◌, All, take, drop, length}
use mathlib.Core.List.{Perm}
use shellinabox.Server.{
  PollFd, ServerConnection, Server, Sorting, server_get_connection, server_set_timeout,
  server_get_timeout, sort_fds, poll_timeout,
}
use shellinabox.Server.Swap.{slots, Waits, IsIdle}
use shellinabox.Server.Search.{live, IsAligned}
use shellinabox.Server.Sorted.{Covers, ComesFrom, sort_fds_lem}
use shellinabox.Server.Table.{Call, add, delete, clean_up, run, mean, Answers, Finds, run-refine}

abbrev empty : Server
empty = record { poll_fds = []; connections = []; destroyed = [] }

abbrev fds : List PollFd
fds =
    record { fd = 4; events = 0; revents = 0 }
    ∷ record { fd = 5; events = 1; revents = 0 }
    ∷ record { fd = 6; events = 0; revents = 0 }
    ∷ record { fd = 7; events = 4; revents = 0 }
    ∷ []

abbrev connections : List ServerConnection
connections =
    record { deleted = false; timeout = 90; arg = 40 }
    ∷ record { deleted = false; timeout = 0; arg = 50 }
    ∷ record { deleted = false; timeout = 70; arg = 60 }
    ∷ record { deleted = false; timeout = 80; arg = 70 }
    ∷ []

abbrev sorted : Sorting
sorted = sort_fds 4 4 none fds connections

to_poll-sorted : sorted.rest.to_poll ≡ 2
unfolding sort_fds
to_poll-sorted = refl

timeout-sorted : sorted.timeout ≡ some 70
unfolding sort_fds
timeout-sorted = refl

poll_timeout-sorted : poll_timeout (some 70) (some 60) 5 5 ≡ some 61000
unfolding poll_timeout
poll_timeout-sorted = refl

server_get_timeout-set :
    server_get_timeout 10
      (server_set_timeout 5 5 (record { deleted = false; timeout = 0; arg = 1 }))
    ≡ some (0, 1)
unfolding server_get_timeout server_set_timeout
server_get_timeout-set = refl

sort_fds_lem_example :
    Perm (slots sorted.rest.poll_fds sorted.rest.connections) (slots fds connections)
    × (length sorted.rest.poll_fds ≡ length sorted.rest.connections)
    × All Waits (take sorted.rest.to_poll sorted.rest.poll_fds)
    × All IsIdle (drop sorted.rest.to_poll sorted.rest.poll_fds)
    × All (Covers sorted.timeout) sorted.rest.connections
    × ComesFrom none sorted.rest.connections sorted.timeout
sort_fds_lem_example = sort_fds_lem fds connections refl

abbrev calls : List Call
calls = add 0 4 40 ∷ add 0 5 50 ∷ delete 4 ∷ add 0 4 41 ∷ clean_up ∷ []

destroyed-calls : (run calls empty).destroyed ≡ 40 ∷ []
unfolding run
destroyed-calls = refl

run-refine_example :
    let m = mean calls (live empty, []) in
    let t = run calls empty in
    IsAligned t
    × (live t ≡ m.0)
    × (t.destroyed ≡ m.1)
    × Answers 4 t (server_get_connection (some 0) 4 t)
    × Finds 4 t (server_get_connection none 4 t)
run-refine_example = run-refine calls empty (some 0) 4 refl
