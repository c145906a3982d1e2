-- ===== src/Listener/Sending.antt =====
-- The two senders of a response and what they leave (runtime/include/http_session.h,
-- runtime/src/listener_thread.c).
use sledge_serverless_framew.Base.{
  ℕ, ◌+◌, ◌-◌, ◌≤◌, ◌≡◌, refl, sym, ap, ◌∙◌, true, false, List, [], ◌++◌, length, take, arith, inl,
  inr, ◌⊎◌, Returns, take-all,
}
use mathlib.Core.List.{append-nil}
use sledge_serverless_framew.Listener.{
  State, execution_complete, sending_response_header, send_response_header_blocked,
  sent_response_header, sending_response_body, send_response_body_blocked, sent_response_body,
  Session, Write, Rc, done, eagain, failed, transmit, register, close_and_free,
  send_response_header, send_response_body, on_client_response_body_sending,
  on_client_response_header_sending,
}
use sledge_serverless_framew.Listener.Transmit.{
  Took, transmit-Took, AllWrites, Progressed, transmit-Progressed,
}

pub Rc-cases : (r : Rc) → (r ≡ done) ⊎ ((r ≡ eagain) ⊎ (r ≡ failed))
Rc-cases done = inl refl
Rc-cases eagain = inr (inl refl)
Rc-cases failed = inr (inr refl)

-- A session of the response `header` and `body` that is in use.
pub record IsOpen (h b : List ℕ) (s : Session) : Type 0 where
  pub header : s.response_header ≡ h
  pub body : s.response_body ≡ b
  pub closed : s.closed ≡ 0
  pub freed : s.freed ≡ false

-- The client has a part of the header, or the header and a part of the body.
pub record InHeader (header : List ℕ) (s : Session) : Type 0 where
  pub no_body : s.response_body_written ≡ 0
  pub within : s.response_header_written ≤ length header
  pub client : s.client ≡ take s.response_header_written header

pub record InBody (header body : List ℕ) (s : Session) : Type 0 where
  pub whole_header : s.response_header_written ≡ length header
  pub within : s.response_body_written ≤ length body
  pub client : s.client ≡ header ++ take s.response_body_written body

-- The socket blocks, and epoll will tell when it does not any more.
pub record Waiting (header body : List ℕ) (s : Session) : Type 0 where
  pub in_use : IsOpen header body s
  pub registered : s.registered ≡ true
  pub phase :
      ((s.state ≡ send_response_header_blocked) × InHeader header s)
      ⊎ ((s.state ≡ send_response_body_blocked) × InBody header body s)

-- The session is closed and freed, each once, and epoll does not know it.
pub record Ended (s : Session) : Type 0 where
  pub closed : s.closed ≡ 1
  pub freed : s.freed ≡ true
  pub unregistered : s.registered ≡ false

-- The bytes that are not yet sent.
abbrev pub remaining : List ℕ → List ℕ → Session → ℕ
remaining header body s =
    (length header - s.response_header_written) + (length body - s.response_body_written)

-- How a handler leaves a session that it found as `start`, if the socket gives `answers`: only an
-- error of the socket cuts a response off, and every write sends a byte at least.
pub data Outcome (header body : List ℕ) (answers : List Write) (start s : Session) : Type 0 where
  waits :
      Waiting header body s
      → (AllWrites answers → remaining header body s + length answers ≤ remaining header body start)
      → Outcome header body answers start s
  answered : Ended s → s.client ≡ header ++ body → Outcome header body answers start s
  cut_off :
      Ended s
      → InHeader header s ⊎ InBody header body s
      → (AllWrites answers → ⊥)
      → Outcome header body answers start s

module _ (header body : List ℕ) (answers : List Write) (s : Session) (o : IsOpen header body s)
    (u : s.registered ≡ false) where
  module _ (b : InBody header body s) where
    abbrev body_sent : List Write × ℕ × List ℕ × Rc
    body_sent = transmit answers s.response_body s.response_body_written s.client

    body-Took : Took header body s.response_body_written body_sent
    body-Took =
        rw o.body
          (transmit-Took answers header body s.response_body_written s.client b.within b.client)

    body-Progressed : AllWrites answers → Progressed answers body s.response_body_written body_sent
    body-Progressed w =
        rw o.body (transmit-Progressed answers body s.response_body_written s.client w b.within)

    abbrev with_body : State → Session
    with_body state = record s {
      state = state;
      response_body_written = body_sent.1;
      client = body_sent.2;
    }

    pub body_sending_lem :
        (s.state ≡ sent_response_header) ⊎ (s.state ≡ send_response_body_blocked)
        → Returns (Outcome header body answers s) (on_client_response_body_sending answers s)
    unfolding on_client_response_body_sending send_response_body register close_and_free
    body_sending_lem st =
        let t = body-Took in
        elim (Rc-cases body_sent.3) [
          | inl e ↦ (
            close_and_free (with_body sent_response_body),
            ground (arith, e, st),
            answered (record { closed = ground (arith, o.closed); freed = refl; unregistered = u })
                (t.client
                  ∙ ap (λ l. header ++ l)
                      (take-all body_sent.1 body (ground (arith, t.complete e)))),
          )
          | inr (inl e) ↦ (
            record (with_body send_response_body_blocked) { registered = true },
            ground (arith, e, st, u),
            waits
                (record {
                  in_use = record {
                    header = o.header;
                    body = o.body;
                    closed = o.closed;
                    freed = o.freed;
                  };
                  registered = refl;
                  phase = inr (
                    refl,
                    record { whole_header = b.whole_header; within = t.within; client = t.client },
                  );
                })
                (λ w.
                  let p = body-Progressed w in
                  omega (arith, p.count, p.used e, t.within, b.within)),
          )
          | inr (inr e) ↦ (
            close_and_free (with_body sending_response_body),
            ground (arith, e, st),
            cut_off (record { closed = ground (arith, o.closed); freed = refl; unregistered = u })
                (inr
                  (record { whole_header = b.whole_header; within = t.within; client = t.client }))
                (λ w. (body-Progressed w).unbroken e),
          )
        ]

module _ (header body : List ℕ) (answers : List Write) (s : Session) (o : IsOpen header body s)
    (u : s.registered ≡ false) where
  module _ (i : InHeader header s) where
    abbrev header_sent : List Write × ℕ × List ℕ × Rc
    header_sent = transmit answers s.response_header s.response_header_written s.client

    header-Took : Took [] header s.response_header_written header_sent
    header-Took =
        rw o.header
          (transmit-Took answers [] header s.response_header_written s.client i.within i.client)

    header-Progressed :
        AllWrites answers → Progressed answers header s.response_header_written header_sent
    header-Progressed w =
        rw o.header
          (transmit-Progressed answers header s.response_header_written s.client w i.within)

    abbrev with_header : State → Session
    with_header state = record s {
      state = state;
      response_header_written = header_sent.1;
      client = header_sent.2;
    }

    header-IsOpen : (state : State) → IsOpen header body (with_header state)
    header-IsOpen state = record {
      header = o.header;
      body = o.body;
      closed = o.closed;
      freed = o.freed;
    }

    header-InHeader : (state : State) → InHeader header (with_header state)
    header-InHeader state =
        let t = header-Took in record { no_body = i.no_body; within = t.within; client = t.client }

    header-InBody : header_sent.3 ≡ done → InBody header body (with_header sent_response_header)
    unfolding take
    header-InBody e =
        let t = header-Took in
        record {
          whole_header = t.complete e;
          within = ground (arith, i.no_body);
          client =
              t.client
              ∙ take-all header_sent.1 header (ground (arith, t.complete e))
              ∙ sym (append-nil header)
              ∙ ap (λ n. header ++ take n body) (sym i.no_body);
        }

    after-header :
        header_sent.3 ≡ done
        → (r : Session) → Outcome header body header_sent.0 (with_header sent_response_header) r
        → Outcome header body answers s r
    after-header e r (answered f c) = answered f c
    after-header e r (cut_off f c n) = cut_off f c (λ w. n (header-Progressed w).rest)
    after-header e r (waits v p) = waits v (λ w.
        let q = header-Progressed w in
        omega (arith, q.count, p q.rest, header-Took.within, header-Took.complete e, i.no_body))

    pub header_sending_lem :
        (s.state ≡ execution_complete) ⊎ (s.state ≡ send_response_header_blocked)
        → Returns (Outcome header body answers s) (on_client_response_header_sending answers s)
    unfolding on_client_response_header_sending send_response_header register close_and_free
    header_sending_lem st =
        let t = header-Took in
        elim (Rc-cases header_sent.3) [
          | inl e ↦
              let (r, run, out) =
                body_sending_lem header body header_sent.0 (with_header sent_response_header)
                  (header-IsOpen sent_response_header) u (header-InBody e) (inl refl) in
              (r, ground (arith, e, st, run), after-header e r out)
          | inr (inl e) ↦ (
            record (with_header send_response_header_blocked) { registered = true },
            ground (arith, e, st, u),
            waits
                (record {
                  in_use = record {
                    header = o.header;
                    body = o.body;
                    closed = o.closed;
                    freed = o.freed;
                  };
                  registered = refl;
                  phase =
                      inl (
                        refl,
                        record { no_body = i.no_body; within = t.within; client = t.client },
                      );
                })
                (λ w.
                  let p = header-Progressed w in
                  omega (arith, p.count, p.used e, t.within, i.within)),
          )
          | inr (inr e) ↦ (
            close_and_free (with_header sending_response_header),
            ground (arith, e, st),
            cut_off (record { closed = ground (arith, o.closed); freed = refl; unregistered = u })
                (inl (record { no_body = i.no_body; within = t.within; client = t.client }))
                (λ w. (header-Progressed w).unbroken e),
          )
        ]
