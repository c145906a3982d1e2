-- ===== src/Listener/Respond.antt =====
-- A response on its way to the client (runtime/include/http_session.h, runtime/src/listener_thread.c).
use sledge_serverless_framew.Base.{
  true, ◌++◌, ◌⊎◌, ℕ, ◌≡◌, refl, sym, ap, ◌∙◌, false, List, [], take, arith, inl, inr, Returns,
}
use sledge_serverless_framew.Listener.{
  execution_complete, Session, Write, transmit, unregister, send_response_header,
  send_response_body, on_client_response_body_sending, on_client_response_header_sending,
  on_client_socket_epoll_event, send_response,
}
use sledge_serverless_framew.Listener.Transmit.{AllWrites}
use sledge_serverless_framew.Listener.Sending.{
  Ended, InBody, InHeader, IsOpen, Outcome, Rc-cases, Waiting, answered, body_sending_lem, cut_off,
  header_sending_lem, remaining, waits,
}

-- A response that is written and of which nothing is sent.
pub record Ready (header body : List ℕ) (s : Session) : Type 0 where
  pub in_use : IsOpen header body s
  pub state : s.state ≡ execution_complete
  pub unregistered : s.registered ≡ false
  pub no_header : s.response_header_written ≡ 0
  pub no_body : s.response_body_written ≡ 0
  pub client : s.client ≡ []

-- What the handler found, with another registration.
found_as :
    {header body : List ℕ} {answers : List Write} (start start' r : Session)
    → Outcome header body answers start r
    → remaining header body start ≡ remaining header body start'
    → Outcome header body answers start' r
found_as start start' r (answered f c) e = answered f c
found_as start start' r (cut_off f c n) e = cut_off f c n
found_as start start' r (waits v p) e = waits v (λ w. omega (arith, p w, e))

module _ (header body : List ℕ) (answers : List Write) (s : Session) where
  Ready-InHeader : Ready header body s → InHeader header s
  unfolding take
  Ready-InHeader r = record {
    no_body = r.no_body;
    within = ground (arith, r.no_header);
    client = r.client ∙ ap (λ n. take n header) (sym r.no_header);
  }

  -- The listener sends a response: whatever the socket answers, on_client_response_header_sending
  -- returns; either the client has all of header and body, in order, or an error of the socket cut
  -- it off after a part of them, and the session is closed and freed, each once, or it waits for
  -- the socket, with a part sent.
  pub respond_correct :
      Ready header body s
      → Returns (Outcome header body answers s) (on_client_response_header_sending answers s)
  respond_correct r =
      header_sending_lem header body answers s r.in_use r.unregistered (Ready-InHeader r)
        (inl r.state)

  -- The same of a session that waits, when epoll tells that its socket takes bytes again.
  pub event_correct :
      Waiting header body s
      → Returns (Outcome header body answers s) (on_client_socket_epoll_event true answers s)
  unfolding on_client_socket_epoll_event unregister
  event_correct w =
      let s₁ : Session = record s { registered = false } in
      let o : IsOpen header body s₁ = record {
        header = w.in_use.header;
        body = w.in_use.body;
        closed = w.in_use.closed;
        freed = w.in_use.freed;
      } in
      elim w.phase [
        | inl (st, i) ↦
            let (r, e, out) =
              header_sending_lem header body answers s₁ o refl
                (record { no_body = i.no_body; within = i.within; client = i.client }) (inr st) in
            (r, ground (arith, st, w.registered, e), found_as s₁ s r out refl)
        | inr (st, b) ↦
            let (r, e, out) =
              body_sending_lem header body answers s₁ o refl
                (record { whole_header = b.whole_header; within = b.within; client = b.client })
                (inr st) in
            (r, ground (arith, st, w.registered, e), found_as s₁ s r out refl)
      ]

-- What a handler leaves, when nothing is said of how it found the session.
pub data Answered (header body : List ℕ) (answers : List Write) (s : Session) : Type 0 where
  waits_for : Waiting header body s → Answered header body answers s
  whole : Ended s → s.client ≡ header ++ body → Answered header body answers s
  partial :
      Ended s
      → InHeader header s ⊎ InBody header body s
      → (AllWrites answers → ⊥)
      → Answered header body answers s

pub Outcome-Answered :
    {header body : List ℕ} {answers : List Write} {start s : Session}
    → Outcome header body answers start s
    → Answered header body answers s
Outcome-Answered (waits w p) = waits_for w
Outcome-Answered (answered f c) = whole f c
Outcome-Answered (cut_off f p n) = partial f p n

-- A worker sends as the listener does.
send_response-listener :
    (answers : List Write) (s : Session)
    → s.state ≡ execution_complete
    → send_response answers s ≡ on_client_response_header_sending answers s
unfolding send_response on_client_response_header_sending on_client_response_body_sending
    send_response_header send_response_body
send_response-listener answers s st =
    let first = transmit answers s.response_header s.response_header_written s.client in
    let second = transmit first.0 s.response_body s.response_body_written first.2 in
    elim (Rc-cases first.3) [
      | inr (inl e) ↦ ground (arith, st, e)
      | inr (inr e) ↦ ground (arith, st, e)
      | inl e ↦ elim (Rc-cases second.3) [
        | inl e' ↦ ground (arith, st, e, e')
        | inr (inl e') ↦ ground (arith, st, e, e')
        | inr (inr e') ↦ ground (arith, st, e, e')
      ]
    ]

-- http_session_send_response of a response that is written and of which nothing is sent returns,
-- whatever the socket answers: either the client has all of header and body, in order, or an error
-- of the socket cut it off after a part of them, and the session is closed and freed, each once, or
-- it waits for the socket, known to epoll, with a part sent.
pub send_response_correct :
    (header body : List ℕ) (answers : List Write) (s : Session)
    → Ready header body s
    → Returns (Answered header body answers) (send_response answers s)
send_response_correct header body answers s r =
    let (s', run, out) = respond_correct header body answers s r in
    (s', send_response-listener answers s r.state ∙ run, Outcome-Answered out)
