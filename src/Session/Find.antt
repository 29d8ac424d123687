-- ===== src/Session/Find.antt =====
-- shellinabox/session.c: findSession, which looks a session up in the hash map of all sessions, or
-- adds a new one.
pub mod Found
use shellinabox.Base.{
  ℕ, zero, suc, Bool, true, false, not, ◌&&◌, Option, none, some, List, [], ◌∷◌, Bytes, ◌==ˢ◌,
  if◌then◌else◌,
}
use shellinabox.HashMap.Effects.{present, Run, ◌>>=◌, return}
use shellinabox.HashMap.{HashMap, init_hash_map, add_to_hash_map, get_ref_from_hash_map}
use shellinabox.Session.{session_key_of}
use shellinabox.Terminal.{Session}

-- `initSession`: the fields that the model of a session has.
unfoldable pub new_session : Bytes → Session
new_session key = record {
  session_key = key;
  http = none;
  done = false;
  buffered = none;
  len = 0;
  use_login = false;
  pty_first_read = true;
  cleanup = false;
}

-- `sessions`, which is NULL before the first call.
unfoldable pub sessions_of : Option (HashMap Session) → HashMap Session
unfolding init_hash_map
sessions_of none = init_hash_map present
sessions_of (some m) = m

-- With a key from CGI, any other is refused.
unfoldable pub is_refused : Option Bytes → Option Bytes → Bool
is_refused none session_key = false
is_refused (some cgi) none = true
is_refused (some cgi) (some key) = not (cgi ==ˢ key)

unfoldable pub look_up : Option Bytes → HashMap Session → Option Session
unfolding get_ref_from_hash_map
look_up none m = none
look_up (some []) m = none
look_up (some (c ∷ key)) m = get_ref_from_hash_map m (c ∷ key)

-- A key that names a session, where there is none from CGI.
unfoldable pub is_named : Option Bytes → Option Bytes → Bool
is_named none (some (c ∷ key)) = true
is_named _ _ = false

-- `newSessionKey` from its random bytes: the check fails if there is a session with this key.
unfoldable pub fresh_key : Option Session → Bytes → Run Session Bytes
fresh_key none key = return key
fresh_key (some s) key = none

unfoldable pub new_session_key : Bytes → HashMap Session → Run Session Bytes
unfolding session_key_of get_ref_from_hash_map fresh_key
new_session_key random m =
    fresh_key (get_ref_from_hash_map m (session_key_of random)) (session_key_of random)

unfoldable pub first_key : Option Bytes → Bytes → HashMap Session → Run Session Bytes
unfolding new_session_key
first_key none random m = new_session_key random m
first_key (some cgi) random m = return cgi

-- The sessions, the result, and `sessionIsNew`.
pub record Outcome : Type 0 where
  pub sessions : HashMap Session
  pub session : Option Session
  pub is_new : Bool

unfoldable pub create : Bytes → HashMap Session → Run Session Outcome
unfolding new_session add_to_hash_map
create key m = add_to_hash_map (suc m.num_entries) m key (new_session key) >>= λ r.
    return (record { sessions = r; session = some (new_session key); is_new = true })

-- `findSession`
unfoldable pub find_session :
    Option Bytes → Option Bytes → Bytes → Option (HashMap Session) → Run Session Outcome
unfolding sessions_of is_refused look_up is_named first_key create
find_session cgi_session_key session_key random sessions =
    let m = sessions_of sessions in
    if is_refused cgi_session_key session_key
    then return (record { sessions = m; session = none; is_new = true })
    else elim (look_up session_key m) [
      | some s ↦ return (record { sessions = m; session = some s; is_new = false })
      | none ↦
          if is_named cgi_session_key session_key
          then return (record { sessions = m; session = none; is_new = false })
          else first_key cgi_session_key random m >>= λ key. create key m
    ]
