-- ===== src/Terminal/Poll.antt =====
-- A request that polls: it is answered or it waits, and so is the one that waited before it.
use shellinabox.Base.{
  ◌≤◌, ◌≡◌, ◌⊎◌, refl, sym, ◌∙◌, inl, inr, Bool, true, false, not, ◌&&◌, ◌||◌, Option, none, some,
  List, [], ◌∷◌, ◌++◌, if◌then◌else◌, Bytes, length, All, arith, Bool-cases, map, All-append,
}
use mathlib.Core.List.{append_assoc, append-nil, map-append}
use shellinabox.Terminal.{
  Request, Session, Reply, Outcome, Polled, is_null, complete_pending_request, max_response,
  has_other, enqueue, poll,
}
use shellinabox.Terminal.Complete.{
  held, IsStored, sent, sent-append, requests_of, Completes, complete_pending_request-Completes,
}

-- What `dataHandler` does to a session `s`, which has been found, on a request `http`.
pub record Polls (s : Session) (http : Request) (p : Polled) : Type 0 where
  pub stored : IsStored p.session.buffered p.session.len
  pub conserved : sent p.replies ++ held p.session.buffered ≡ held s.buffered
  pub ended : p.live ≡ false → held p.session.buffered ≡ []
  pub bounded : All (λ r. length r.text ≤ max_response) p.replies
  pub answered :
      map (λ r. r.http) p.replies ++ requests_of p.session.http
      ≡ (if has_other s http then requests_of s.http else [])
        ++ (if p.bad_request then [] else http ∷ [])
  pub waits : p.suspended ≡ true → held p.session.buffered ≡ []
  pub queue : (p.session.http ≡ none) ⊎ (held p.session.buffered ≡ [])

pub null-held : (b : Option Bytes) → is_null b ≡ true → held b ≡ []
unfolding is_null
null-held none e = refl
null-held (some b) e = absurd (ground arith)

pub ended-held : (done : Bool) (b : Option Bytes) → not (done && is_null b) ≡ false → held b ≡ []
unfolding is_null
ended-held done none e = refl
ended-held false (some b) e = absurd (ground arith)
ended-held true (some b) e = absurd (ground arith)

module _ (http : Request) where
  -- What `enqueue` does to a session `s` behind the replies `rs`.
  record Enqueues (s : Session) (rs : List Reply) (p : Polled) : Type 0 where
    stored : IsStored p.session.buffered p.session.len
    conserved : sent p.replies ++ held p.session.buffered ≡ sent rs ++ held s.buffered
    ended : p.live ≡ false → held p.session.buffered ≡ []
    bounded :
        All (λ r. length r.text ≤ max_response) rs
        → All (λ r. length r.text ≤ max_response) p.replies
    answered :
        map (λ r. r.http) p.replies ++ requests_of p.session.http
        ≡ map (λ r. r.http) rs ++ http ∷ []
    waits : p.suspended ≡ true → held p.session.buffered ≡ []
    queue : (p.session.http ≡ none) ⊎ (held p.session.buffered ≡ [])
    good : p.bad_request ≡ false

  module _ (s : Session) (rs : List Reply) (stored : IsStored s.buffered s.len) where
    waiting : Session
    waiting = record s { http = some http }

    done_at_once : Outcome
    unfolding waiting
    done_at_once = complete_pending_request waiting [] max_response

    c : Completes waiting [] max_response done_at_once
    unfolding waiting done_at_once
    c = complete_pending_request-Completes waiting [] max_response stored

    replied : Polled
    replied = record {
      session = done_at_once.session;
      replies = rs ++ done_at_once.replies;
      live = done_at_once.live;
      bad_request = false;
      suspended = false;
    }

    replied-Enqueues : Enqueues s rs replied
    unfolding replied waiting
    replied-Enqueues = record {
      stored = c.stored;
      conserved = cc (
        sent-append rs done_at_once.replies,
        c.conserved,
        append-nil (held s.buffered),
        append_assoc (sent rs) (sent done_at_once.replies) (held done_at_once.session.buffered),
      );
      ended = λ e. ended-held s.done done_at_once.session.buffered (sym c.returned ∙ e);
      bounded = λ h. All-append _ rs done_at_once.replies h (c.bounded (omega arith));
      answered =
          rw
            (
              c.idle,
              append-nil (map (λ r. r.http) (rs ++ done_at_once.replies)),
              map-append (λ r. r.http) rs done_at_once.replies,
              c.answered,
            )
            refl;
      waits = λ e. absurd (ground arith);
      queue = inl c.idle;
      good = refl;
    }

    queued : Polled
    unfolding waiting
    queued = record {
      session = waiting;
      replies = rs;
      live = true;
      bad_request = false;
      suspended = true;
    }

    queued-Enqueues : is_null s.buffered ≡ true → Enqueues s rs queued
    unfolding queued waiting
    queued-Enqueues e = record {
      stored = stored;
      conserved = refl;
      ended = λ e'. absurd (ground arith);
      bounded = λ h. h;
      answered = refl;
      waits = λ e'. null-held s.buffered e;
      queue = inr (null-held s.buffered e);
      good = refl;
    }

    enqueue-Enqueues : (new : Bool) → Enqueues s rs (enqueue s rs http new)
    unfolding enqueue replied queued waiting done_at_once
    enqueue-Enqueues new = elim (Bool-cases (not (is_null s.buffered) || new)) [
      | inl e ↦ rw e replied-Enqueues
      | inr e ↦ rw e (queued-Enqueues (ground arith))
    ]

-- A request that polls a session whose buffer is in order: the data in the replies, at most
-- MAX_RESPONSE bytes each, followed by what is kept, are what was kept before; a request of
-- another connection that was waiting is answered first, then the new one is answered or waits,
-- unless it gets status 400; it waits, and any request does, only where nothing is kept; and
-- nothing is kept where the session is gone.
pub poll-Polls :
    (s : Session) (http : Request) (session_is_new : Bool)
    → IsStored s.buffered s.len
    → Polls s http (poll s http session_is_new)
unfolding poll
poll-Polls s http new stored = elim (Bool-cases (has_other s http)) [
  | inr e ↦
      let q = enqueue-Enqueues http s [] stored new in
      rw e (record {
        stored = q.stored;
        conserved = q.conserved;
        ended = q.ended;
        bounded = q.bounded tt;
        answered = rw (e, q.good) q.answered;
        waits = q.waits;
        queue = q.queue;
      })
  | inl e ↦
      let c = complete_pending_request-Completes s [] max_response stored in
      let o = complete_pending_request s [] max_response in
      elim (Bool-cases o.live) [
        | inl l ↦
            let q = enqueue-Enqueues http o.session o.replies c.stored new in
            rw (e, l)
              (record {
                stored = q.stored;
                conserved = q.conserved ∙ c.conserved ∙ append-nil (held s.buffered);
                ended = q.ended;
                bounded = q.bounded (c.bounded (omega arith));
                answered = rw (e, q.good, ← c.answered) q.answered;
                waits = q.waits;
                queue = q.queue;
              })
        | inr l ↦
            rw (e, l)
              (record {
                stored = c.stored;
                conserved = c.conserved ∙ append-nil (held s.buffered);
                ended = λ w. ended-held s.done o.session.buffered (sym c.returned ∙ l);
                bounded = c.bounded (omega arith);
                answered = rw (e, c.idle, c.answered) refl;
                waits = λ w. absurd (ground arith);
                queue = inl c.idle;
              })
      ]
]
