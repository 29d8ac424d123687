-- ===== src/Terminal/Handle.antt =====
-- `handleSession`: no check fails, no output is lost but on a timeout, and the buffer is bounded.
use shellinabox.Base.{
  ◌+◌, ◌-◌, ◌≤◌, ◌≡◌, ◌↔◌, ◌⊎◌, Bool, true, false, none, [], ◌++◌, leb, Bytes, length,
}
use shellinabox.Terminal.{Session, Handled, complete_pending_request, max_response}
use shellinabox.Terminal.Complete.{held, IsStored, sent}

-- A hang-up is passed over: there is no output, no timeout, and /bin/login has not been read from.
pub record PassesOver (s : Session) (buf : Bytes) (timed_out : Bool) (h : Handled) : Type 0 where
  pub silent : buf ≡ []
  pub in_time : timed_out ≡ false
  pub login : s.use_login ≡ true
  pub unread : s.pty_first_read ≡ true
  pub unchanged : (h.session.http ≡ s.http) × (h.session.buffered ≡ s.buffered) × (h.replies ≡ [])

-- What `handleSession` does to a session `s` whose pty gives the bytes `buf`.
pub record Handles (s : Session) (buf : Bytes) (timed_out : Bool) (h : Handled) : Type 0 where
  pub stored : IsStored h.session.buffered h.session.len
  pub conserved : h.kept ≡ true → sent h.replies ++ held h.session.buffered ≡ held s.buffered ++ buf
  pub closed :
      h.kept ≡ false
      → (h.replies ≡ []) × (h.session.buffered ≡ s.buffered) × (h.session.http ≡ s.http)
  pub dropped : h.kept ≡ false → (buf ≡ []) ⊎ ((timed_out ≡ true) × (s.http ≡ none))
  pub bounded : (h.session.len ≤ max_response) ⊎ (h.session.len ≤ s.len + 1)
  pub renewed : h.kept ≡ true → (h.renewed ≡ true) ⊎ PassesOver s buf timed_out h
  pub answered : h.renewed ≡ true → h.session.http ≡ none
  pub paused :
      (h.paused ≡ true) ↔ ((h.kept ≡ true) × (h.renewed ≡ true) × (max_response ≤ h.session.len))
  pub first_read : h.kept ≡ true → h.session.pty_first_read ≡ false
  pub same_done : h.session.done ≡ s.done

module _ (s : Session) (stored : IsStored s.buffered s.len) where
  module _ (running : s.done ≡ false) where
    module _ (buf : Bytes) (timed_out : Bool)
        (small : (length buf ≤ max_response - s.len) ⊎ (length buf ≤ 1)) where
      passed_on : Handled
      passed_on =
          let o = complete_pending_request s buf max_response in
          record {
            session = record o.session { pty_first_read = false };
            replies = o.replies;
            paused = leb max_response o.session.len;
            renewed = true;
            kept = true;
          }
