-- ===== src/Tests/Terminal.antt =====
-- A session that buffers, answers and ends.
use shellinabox.Base.{
  codes, ℕ, ◌≡◌, refl, true, false, none, some, List, [], ◌∷◌, ◌++◌, arith, length,
}
use shellinabox.Terminal.Respond.{read_response, read_response-response}
use shellinabox.Terminal.{response, json_of, Request, Session, complete_pending_request, poll}
use shellinabox.Terminal.Complete.{Completes, complete_pending_request-Completes}
use shellinabox.Terminal.Poll.{Polls, poll-Polls}
use shellinabox.Terminal.Life.{
  Event, run, pty, request, keys, disconnect, expire, alive, ended, expired, bell,
}

abbrev get : ℕ → Request
get n = record { id = n; is_head = false }

-- A session with ten bytes of output and no request.
abbrev logged_in : Session
logged_in = record {
  session_key = codes "k";
  http = none;
  done = false;
  buffered = some (codes "Last login");
  len = 10;
  use_login = true;
  pty_first_read = false;
  cleanup = false;
}

-- The same with a request.
abbrev polled : Session
polled = record logged_in { http = some (get 4) }

abbrev events : List Event
events =
    pty true false false (codes ": Mon\n")
    ∷ request (get 1)
    ∷ request (get 2)
    ∷ request (get 3)
    ∷ pty true false false (codes "$ ")
    ∷ keys false (get 4)
    ∷ keys true (get 4)
    ∷ request (get 5)
    ∷ disconnect (get 4)
    ∷ pty false true false []
    ∷ request (get 6)
    ∷ expire
    ∷ []

run-taken : (run (alive logged_in) events).taken ≡ codes ": Mon\n$ " ++ bell
unfolding run
run-taken = refl

-- A request that waits goes away, and with it the session.
run-disconnect :
    (run (alive logged_in) (request (get 1) ∷ request (get 2) ∷ disconnect (get 2) ∷ [])).state
    ≡ ended
unfolding run
run-disconnect = refl

-- A session that is done and that nobody asks for is thrown away.
run-expire :
    (run (alive logged_in) (pty false true false [] ∷ expire ∷ [])).state
    ≡ expired (codes "Last login")
unfolding run
run-expire = refl

complete_pending_request-Completes_example :
    Completes polled (codes ": Mon") 4 (complete_pending_request polled (codes ": Mon") 4)
complete_pending_request-Completes_example =
    complete_pending_request-Completes polled (codes ": Mon") 4 (omega arith)

poll-Polls_example : Polls polled (get 5) (poll polled (get 5) false)
poll-Polls_example = poll-Polls polled (get 5) false (omega arith)

read_response-response_example :
    let json = json_of (codes "k") (codes "hi") in
    read_response (response (codes "k") (record { http = get 1; text = codes "hi" }))
    ≡ (length json, json)
read_response-response_example =
    read_response-response (codes "k") (record { http = get 1; text = codes "hi" })
