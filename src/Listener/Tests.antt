-- ===== src/Listener/Tests.antt =====
-- Sessions of the listener, and the theorems at them (runtime/src/listener_thread.c).
use sledge_serverless_framew.Base.{
  ℕ, ◌≡◌, ◌≢◌, refl, true, false, none, some, List, [], ◌∷◌, arith, Returns, inl, ◌⊎◌, ◌++◌, length,
  take, drop,
}
use sledge_serverless_framew.Admissions.{Control}
use sledge_serverless_framew.Listener.{
  execution_complete, send_response_header_blocked, received_request, receive_request_blocked, done,
  Session, Write, wrote, blocked, on_client_response_header_sending, send_response, transmit,
  send_response_header, register,
}
use sledge_serverless_framew.Listener.Transmit.{no_more, one_more}
use sledge_serverless_framew.Listener.Sending.{Waiting, Ended}
use sledge_serverless_framew.Listener.Respond.{Ready, Answered, send_response_correct}
use sledge_serverless_framew.Listener.Events.{
  run_events, answers_of, EachWrites, no_event, event, Delivered, run_events-Delivered, Served,
  begins, Served-safe,
}
use sledge_serverless_framew.Listener.Router.{Found, match_route, match_route_correct}
use sledge_serverless_framew.Listener.Requests.{
  Environment, Arrived, Verdict, on_client_request_received, received_correct,
}
use sledge_serverless_framew.HttpRequest
use sledge_serverless_framew.HttpRequest.{headers_end, body_part, message_ends}
use sledge_serverless_framew.Listener.Receive.{
  Read, bytes, Parser, Reader, receive, on_client_socket_readable,
}
use sledge_serverless_framew.Listener.Receive.Loop.{Stopped}
use sledge_serverless_framew.Listener.Receive.Arrival.{Progress, WaitsForMore, readable-Progress}
use sledge_serverless_framew.Listener.Receive.Moved.{receive-misplaces}
use sledge_serverless_framew.Listener.Receive.Samples.{counting, counting-Conforms}

abbrev header : List ℕ
header = 72 ∷ 73 ∷ 74 ∷ []

abbrev body : List ℕ
body = 1 ∷ 2 ∷ []

abbrev ready : Session
ready = record {
  state = execution_complete;
  response_header = header;
  response_header_written = 0;
  response_body = body;
  response_body_written = 0;
  registered = false;
  client = [];
  closed = 0;
  freed = false;
  route = none;
}

-- The socket took two bytes of the header, and blocked.
abbrev waiting : Session
waiting = record ready {
  state = send_response_header_blocked;
  response_header_written = 2;
  registered = true;
  client = 72 ∷ 73 ∷ [];
}

ready-Ready : Ready header body ready
ready-Ready = record {
  in_use = record { header = refl; body = refl; closed = refl; freed = refl };
  state = refl;
  unregistered = refl;
  no_header = refl;
  no_body = refl;
  client = refl;
}

waiting-Waiting : Waiting header body waiting
unfolding take length
waiting-Waiting = record {
  in_use = record { header = refl; body = refl; closed = refl; freed = refl };
  registered = refl;
  phase = inl (refl, record { no_body = refl; within = omega arith; client = refl });
}

abbrev events : List (List Write)
events = (wrote 0 ∷ []) ∷ (wrote 5 ∷ wrote 0 ∷ wrote 0 ∷ []) ∷ []

events-EachWrites : EachWrites events
events-EachWrites =
    event _ _ (one_more 0 [] no_more)
      (event _ [] (one_more 5 _ (one_more 0 _ (one_more 0 [] no_more))) no_event)

run_events-Delivered_example : Returns (Delivered header body) (run_events events waiting)
unfolding answers_of length
run_events-Delivered_example =
    run_events-Delivered header body events waiting waiting-Waiting events-EachWrites (omega arith)

begun : Served ready waiting
unfolding on_client_response_header_sending send_response_header transmit register length take drop
begun = begins (wrote 1 ∷ blocked ∷ []) waiting refl

Served-safe_example : Waiting header body waiting ⊎ Ended waiting
Served-safe_example = Served-safe header body ready waiting ready-Ready begun

send_response_correct_example :
    Returns (Answered header body (wrote 1 ∷ [])) (send_response (wrote 1 ∷ []) ready)
send_response_correct_example = send_response_correct header body (wrote 1 ∷ []) ready ready-Ready

-- The routes "/ab" and "/abc".
abbrev routes : List (List ℕ)
routes = (47 ∷ 97 ∷ 98 ∷ []) ∷ (47 ∷ 97 ∷ 98 ∷ 99 ∷ []) ∷ []

match_route_correct_example :
    Found 0 routes (47 ∷ 97 ∷ 98 ∷ 99 ∷ []) (match_route routes (47 ∷ 97 ∷ 98 ∷ 99 ∷ []))
match_route_correct_example = match_route_correct routes (47 ∷ 97 ∷ 98 ∷ 99 ∷ [])

abbrev env : Environment
env = record {
  routes = routes;
  estimate = λ route. 100;
  no_sandbox = false;
  queue_full = false;
  header = λ status. status ∷ [];
}

abbrev control : Control
control = record { admitted = 700; capacity = 1000 }

abbrev arrived : Session
arrived = record ready { state = received_request; response_header = []; response_body = [] }

arrived-Arrived : (e : Environment) → Arrived e [] arrived
arrived-Arrived e = record {
  state = refl;
  no_header = refl;
  no_body = refl;
  header_written = refl;
  body_written = refl;
  unregistered = refl;
  client = refl;
  closed = refl;
  freed = refl;
}

received_correct_example :
    Returns
      (Verdict env [] (47 ∷ 97 ∷ 98 ∷ []) control arrived)
      (on_client_request_received env [] (47 ∷ 97 ∷ 98 ∷ []) control arrived)
received_correct_example =
    received_correct env [] (47 ∷ 97 ∷ 98 ∷ []) control arrived (arrived-Arrived env)
      (λ route. omega arith) (λ route. omega arith) refl refl

-- A request of three bytes, of which one is there.
abbrev waiting_reader : Reader ℕ
waiting_reader = record {
  session = record arrived { state = receive_request_blocked; registered = true };
  request = HttpRequest.blank;
  parser = 1;
  request_buffer = 80 ∷ [];
  length_parsed = 1;
}

waiting_reader-WaitsForMore :
    WaitsForMore counting counting-Conforms (λ n. true) env [] waiting_reader
unfolding counting-Conforms length HttpRequest.blank
waiting_reader-WaitsForMore = record {
  reading = record {
    fits = record {
      nothing_read = omega arith;
      header = λ e. absurd (ground (arith, e));
      open_header = λ e. refl;
      fresh = λ e. refl;
      some_bytes = omega arith;
    };
    parsed = omega arith;
  };
  state = refl;
  registered = refl;
  untouched = record {
    state = refl;
    no_header = refl;
    no_body = refl;
    header_written = refl;
    body_written = refl;
    unregistered = refl;
    client = refl;
    closed = refl;
    freed = refl;
  };
}

abbrev two_reads : List Read
two_reads = bytes (79 ∷ []) ∷ bytes (83 ∷ []) ∷ []

readable-Progress_example :
    Stopped counting counting-Conforms
      (λ n. true)
      two_reads
      (80 ∷ [])
      (on_client_socket_readable counting (λ n. true) env [] true two_reads control waiting_reader)
    ⊎ Returns (Progress counting counting-Conforms (λ n. true) env [] control two_reads (80 ∷ [])) (
        on_client_socket_readable counting (λ n. true) env [] true two_reads control waiting_reader)
readable-Progress_example =
    readable-Progress counting counting-Conforms (λ n. true) env [] control (λ route. omega arith)
      (λ route. omega arith) refl refl two_reads waiting_reader waiting_reader-WaitsForMore

-- A parser that finds the end of the header and a body of two bytes at byte 4.
abbrev finding : Parser ℕ
finding = record {
  execute = λ p xs. (p, headers_end 3 2 ∷ body_part 4 2 ∷ message_ends ∷ [], length xs, true);
  has_body = λ method. true;
}

receive-misplaces_example :
    Returns
      (λ out. (out.2 ≡ done) × (out.1.request.body ≡ some 1) × (out.1.request.body ≢ some 4))
      (receive finding (λ n. true) (bytes (83 ∷ 84 ∷ 10 ∷ 1 ∷ 2 ∷ []) ∷ []) waiting_reader)
unfolding length HttpRequest.blank
receive-misplaces_example =
    receive-misplaces finding (λ n. true) waiting_reader 1 83 (84 ∷ 10 ∷ 1 ∷ 2 ∷ []) 3 2 4 2
      (length (drop 1 (80 ∷ [] ++ 83 ∷ 84 ∷ 10 ∷ 1 ∷ 2 ∷ []))) refl refl refl (omega arith) refl
      refl (omega arith) (omega arith) (omega arith) refl
