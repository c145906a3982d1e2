-- ===== src/Listener/Events.antt =====
-- A response over any number of epoll events (runtime/src/listener_thread.c).
use sledge_serverless_framew.Base.{
  ℕ, ◌+◌, ◌<◌, ◌≡◌, refl, true, List, [], ◌∷◌, ◌++◌, Run, ok, ◌>>=◌, if◌then◌else◌, length, arith,
  Returns, Returns-ok, ◌⊎◌, inl, inr,
}
use sledge_serverless_framew.Listener.{
  Session, Write, on_client_response_header_sending, on_client_socket_epoll_event,
}
use sledge_serverless_framew.Listener.Transmit.{AllWrites}
use sledge_serverless_framew.Listener.Sending.{
  Waiting, Ended, Outcome, waits, answered, cut_off, remaining,
}
use sledge_serverless_framew.Listener.Respond.{Ready, respond_correct, event_correct}

-- Events at a session, each with what its socket answers then; epoll reports a session that is
-- registered, and the EPOLLOUT for which it is.
unfoldable pub run_events : List (List Write) → Session → Run Session
run_events [] s = ok s
run_events (answers ∷ events) s =
    let rest = (do s' ← on_client_socket_epoll_event true answers s; run_events events s') in
    if s.registered then rest else ok s

-- The answers of all events.
unfoldable pub answers_of : List (List Write) → ℕ
answers_of [] = 0
answers_of (answers ∷ events) = length answers + answers_of events

pub data EachWrites : List (List Write) → Type 0 where
  no_event : EachWrites []
  event :
      (answers : List Write) (events : List (List Write))
      → AllWrites answers
      → EachWrites events
      → EachWrites (answers ∷ events)

-- The client has the response, and the session is gone.
abbrev pub Delivered : List ℕ → List ℕ → Session → Type 0
Delivered header body s = Ended s × (s.client ≡ header ++ body)

run-ended :
    (header body : List ℕ) (events : List (List Write)) (s : Session)
    → Delivered header body s
    → Returns (Delivered header body) (run_events events s)
unfolding run_events
run-ended header body [] s d = (s, refl, d)
run-ended header body (answers ∷ events) s d = (s, ground (arith, d.0.unregistered), d)

-- One more write than bytes of the response are left, spread over any events, is enough: a session that
-- waits for its socket ends, and its client has the header and the body, in order and once.
pub run_events-Delivered :
    (header body : List ℕ) (events : List (List Write)) (s : Session)
    → Waiting header body s
    → EachWrites events
    → remaining header body s < answers_of events
    → Returns (Delivered header body) (run_events events s)
unfolding run_events answers_of
run_events-Delivered header body [] s w e h = absurd (omega (arith, h))
run_events-Delivered header body (answers ∷ events) s w (event _ _ a e) h =
    let (s', run, out) = event_correct header body answers s w in
    elim out [
      | answered f c ↦
          let (s'', rest, d) = run-ended header body events s' (f, c) in
          (s'', ground (arith, w.registered, run, rest), d)
      | cut_off f p broken ↦ absurd (broken a)
      | waits v p ↦
          let (s'', rest, d) =
            run_events-Delivered header body events s' v e (omega (arith, p a, h)) in
          (s'', ground (arith, w.registered, run, rest), d)
    ]

-- A session that the listener begins to answer, and events after it.
pub data Served (s : Session) : Session → Type 0 where
  begins :
      (answers : List Write) (s' : Session)
      → on_client_response_header_sending answers s ≡ ok s'
      → Served s s'
  continues :
      (answers : List Write) (s' s'' : Session)
      → Served s s'
      → s'.registered ≡ true
      → on_client_socket_epoll_event true answers s' ≡ ok s''
      → Served s s''

pub of-Outcome :
    {header body : List ℕ} {answers : List Write} {start s : Session}
    → Outcome header body answers start s
    → Waiting header body s ⊎ Ended s
of-Outcome (waits w p) = inl w
of-Outcome (answered f c) = inr f
of-Outcome (cut_off f p n) = inr f

-- Whatever the socket answers to a response and to the events after it: the session either waits,
-- in use and known to epoll, with a part of header and body sent from their beginning, or it is
-- closed once, freed once, and not known to epoll.
pub Served-safe :
    (header body : List ℕ) (s s' : Session)
    → Ready header body s
    → Served s s'
    → Waiting header body s' ⊎ Ended s'
Served-safe header body s s' r (begins answers _ e) = of-Outcome (
    Returns-ok (on_client_response_header_sending answers s) s'
      (respond_correct header body answers s r) e)
Served-safe header body s s'' r (continues answers s' _ v reg e) =
    elim (Served-safe header body s s' r v) [
      | inl w ↦ of-Outcome (
          Returns-ok (on_client_socket_epoll_event true answers s') s''
            (event_correct header body answers s' w) e)
      | inr f ↦ absurd (ground (arith, f.unregistered, reg))
    ]
