-- ===== src/Listener/Receive/Arrival.antt =====
-- From the bytes of a request to its sandbox (on_client_request_receiving of
-- runtime/src/listener_thread.c).
use mathlib.Core.Path.{subst}
use sledge_serverless_framew.Base.{
  ◌⊎◌, inl, inr, ℕ, ◌+◌, ◌<◌, ◌^◌, ◌≡◌, refl, sym, ◌∙◌, ap, Bool, true, false, none, List, ◌++◌,
  ◌||◌, ok, Returns, arith,
}
use sledge_serverless_framew.Admissions.{Control}
use sledge_serverless_framew.Listener.{
  initialized, receive_request_blocked, received_request, receiving_request, Session, Write, Rc, is,
  unregister,
}
use sledge_serverless_framew.Listener.Requests
use sledge_serverless_framew.Listener.Requests.{
  Arrived, Refused, Verdict, Received, refuse, refuse-Refused, received_correct,
}
use sledge_serverless_framew.Listener.Receive.{
  Read, Parser, Reader, with_state, receive, receive_request, on_client_request_receiving,
  on_client_socket_readable,
}
use sledge_serverless_framew.Listener.Receive.Incoming.{Conforms, Reading}
use sledge_serverless_framew.Listener.Receive.Loop
use sledge_serverless_framew.Listener.Receive.Loop.{
  bytes_of, Stopped, complete, waits, gives_up, receive-Received,
}

module _ {P : Type 0} (parser : Parser P) (law : Conforms parser) (moves : ℕ → Bool)
    (env : Requests.Environment) (answers : List Write) where
  -- Nothing of a response is there, once the request has arrived.
  abbrev pub as_arrived : Session → Session
  as_arrived s = record s { state = received_request; registered = false }

  -- A session that waits for more of its request, known to epoll.
  pub record WaitsForMore (r : Reader P) : Type 0 where
    pub reading : Reading parser law moves r
    pub state : r.session.state ≡ receive_request_blocked
    pub registered : r.session.registered ≡ true
    pub untouched : Arrived env answers (as_arrived r.session)

  -- What becomes of a session that is read from.
  pub data Progress (c : Control) (reads : List Read) (before : List ℕ)
      : Reader P × Received → Type 0 where
    more_to_come :
        (taken left : List Read) (r' : Reader P)
        → taken ++ left ≡ reads
        → r'.request_buffer ≡ before ++ bytes_of taken
        → WaitsForMore r'
        → Progress c reads before (r', record { control = c; session = r'.session; queued = none })
    bad_request :
        (r' : Reader P) (s : Session)
        → Refused env answers 400 s
        → Progress c reads before (r', record { control = c; session = s; queued = none })
    arrives :
        (taken left : List Read) (r' : Reader P) (received : Received)
        → taken ++ left ≡ reads
        → r'.request_buffer ≡ before ++ bytes_of taken
        → r'.request.message_end ≡ true
        → Verdict env answers r'.request.full_url c r'.session received
        → Progress c reads before (r', received)

  module _ (c : Control) (positive : (route : ℕ) → 0 < env.estimate route)
      (fits : (route : ℕ) → c.admitted + env.estimate route < 2 ^ 64)
      (alloc : env.no_sandbox ≡ false) (room : env.queue_full ≡ false) where
    -- Once the loop has ended, at what it has left.
    Received-Progress :
        (reads : List Read) (r : Reader P) (out : List Read × Reader P × Rc)
        → (is initialized r.session || is receive_request_blocked r.session) ≡ true
        → r.session.registered ≡ false
        → Arrived env answers (as_arrived r.session)
        → receive parser moves reads (with_state receiving_request r) ≡ ok out
        → Loop.Received parser law moves reads (with_state receiving_request r) out
        → Returns
            (Progress c reads r.request_buffer)
            (on_client_request_receiving parser moves env answers reads c r)
    unfolding on_client_request_receiving receive_request
    Received-Progress reads r out state u a run (complete taken left r' parts buffer end same) =
        let path : as_arrived r.session ≡ r'.session =
          ap {A = Bool} (λ b. record r.session { state = received_request; registered = b }) (sym u)
          ∙ sym same in
        let (received, then_run, verdict) =
          received_correct env answers r'.request.full_url c r'.session
            (subst (λ s. Arrived env answers s) path a) positive fits alloc room in
        (
          (r', received),
          ground (arith, state, run, then_run),
          arrives taken left r' received parts buffer end verdict,
        )
    Received-Progress reads r out state u a run
          (waits taken left r' parts buffer more reading same) =
        (
          (r', record { control = c; session = r'.session; queued = none }),
          ground (arith, state, run),
          more_to_come taken left r' parts buffer (record {
            reading = reading;
            state = ap (λ s. s.state) same;
            registered = ap (λ s. s.registered) same;
            untouched = subst (λ s. Arrived env answers s) (ap as_arrived (sym same)) a;
          }),
        )
    Received-Progress reads r out state u a run (gives_up left r' same) =
        let path : record (as_arrived r.session) { state = receiving_request } ≡ r'.session =
          ap {A = Bool} (λ b. record r.session { state = receiving_request; registered = b })
            (sym u)
          ∙ sym same in
        let (s, then_run, refused) =
          subst (λ s. Returns (Refused env answers 400) (refuse env answers 400 s)) path
            (refuse-Refused env answers 400 (as_arrived r.session) receiving_request r.session.route
              a) in
        (
          (r', record { control = c; session = s; queued = none }),
          ground (arith, state, run, then_run),
          bad_request r' s refused,
        )

    receiving-Progress :
        (reads : List Read) (r : Reader P)
        → Reading parser law moves r
        → (is initialized r.session || is receive_request_blocked r.session) ≡ true
        → r.session.registered ≡ false
        → Arrived env answers (as_arrived r.session)
        → Stopped parser law moves reads r.request_buffer
            (on_client_request_receiving parser moves env answers reads c r)
          ⊎ Returns
              (Progress c reads r.request_buffer)
              (on_client_request_receiving parser moves env answers reads c r)
    unfolding on_client_request_receiving receive_request
    receiving-Progress reads r g state u a =
        elim (receive-Received parser law moves reads (with_state receiving_request r)
          (record { fits = g.fits; parsed = g.parsed }) refl u) [
            | inl stop ↦ inl (record {
              taken = stop.taken;
              left = stop.left;
              reader = stop.reader;
              reason = stop.reason;
              parts = stop.parts;
              buffer = stop.buffer;
              callbacks = stop.callbacks;
              stops = ground (arith, state, stop.stops);
            })
            | inr (out, run, so) ↦ inr (Received-Progress reads r out state u a run so)
          ]

    -- An event EPOLLIN on the socket of a session that waits for its request, whatever the socket
    -- gives, in whatever pieces. Either a callback of the HTTP parser fails an assertion or
    -- overruns an array, at bytes that were received, and the process stops; or the handler
    -- returns: the bytes are at the end of the buffer, and the session waits for more, known to
    -- epoll and with nothing answered; or the header for 400 is on its way; or the whole request is
    -- there and meets its verdict. A sandbox can be allocated and the global queue has room;
    -- estimates are positive and fit; the parser parses no more than it is given, and the bytes of
    -- a body come after some of a header.
    pub readable-Progress :
        (reads : List Read) (r : Reader P)
        → WaitsForMore r
        → Stopped parser law moves reads r.request_buffer
            (on_client_socket_readable parser moves env answers true reads c r)
          ⊎ Returns
              (Progress c reads r.request_buffer)
              (on_client_socket_readable parser moves env answers true reads c r)
    unfolding on_client_socket_readable unregister
    readable-Progress reads r w =
        let s : Session = record r.session { registered = false } in
        elim (receiving-Progress reads (record r { session = s })
          (record { fits = w.reading.fits; parsed = w.reading.parsed }) (ground (arith, w.state))
          refl w.untouched) [
            | inl stop ↦ inl (record {
              taken = stop.taken;
              left = stop.left;
              reader = stop.reader;
              reason = stop.reason;
              parts = stop.parts;
              buffer = stop.buffer;
              callbacks = stop.callbacks;
              stops = ground (arith, w.registered, stop.stops);
            })
            | inr (out, run, so) ↦ inr (out, ground (arith, w.registered, run), so)
          ]
