-- ===== src/Listener.antt =====
-- The HTTP sessions on the listener thread: runtime/include/http_session.h,
-- runtime/include/tcp_session.h, runtime/src/listener_thread.c and the router,
-- runtime/include/http_router.h. The socket is the kernel's: its answers to `write` and `read` are
-- lists, and what it took is kept beside the session. Logs and timestamps are left out.
pub mod Transmit
pub mod Sending
pub mod Respond
pub mod Events
pub mod Router
pub mod Requests
pub mod Receive
mod Tests
use sledge_serverless_framew.Base.{
  ℕ, ◌+◌, ◌-◌, Bool, true, false, ◌||◌, not, Option, none, some, List, [], ◌∷◌, ◌++◌, Run, ok,
  fault, panicked, null_pointer, ◌>>=◌, ◌>>◌, assert, panic_if, leb, ltb, ◌==◌, if◌then◌else◌,
  length, take, drop,
}

-- `enum http_session_state`
pub data State : Type 0 where
  uninitialized initialized receiving_request receive_request_blocked received_request : State
  executing execution_complete sending_response_header send_response_header_blocked : State
  sent_response_header sending_response_body send_response_body_blocked sent_response_body : State

abbrev pub index : State → ℕ
index uninitialized = 0
index initialized = 1
index receiving_request = 2
index receive_request_blocked = 3
index received_request = 4
index executing = 5
index execution_complete = 6
index sending_response_header = 7
index send_response_header_blocked = 8
index sent_response_header = 9
index sending_response_body = 10
index send_response_body_blocked = 11
index sent_response_body = 12

-- `struct http_session`, as far as the response goes, and the route; `registered` tells whether its
-- socket is on the listener's epoll instance, `client` is what the socket took, and `closed` how
-- often it was closed.
pub record Session : Type 0 where
  pub state : State
  pub response_header : List ℕ
  pub response_header_written : ℕ
  pub response_body : List ℕ
  pub response_body_written : ℕ
  pub registered : Bool
  pub route : Option ℕ
  pub client : List ℕ
  pub closed : ℕ
  pub freed : Bool

-- What `write` does: it takes one byte more than `n`, or all it is given; EAGAIN; another error.
pub data Write : Type 0 where
  wrote : ℕ → Write
  blocked broken : Write

-- The return codes 0, -EAGAIN and another below 0.
pub data Rc : Type 0 where
  done eagain failed : Rc

abbrev pub is : State → Session → Bool
is state s = index s.state == index state

-- listener_thread_register_http_session, the callback `on_eagain`.
unfoldable pub register : Session → Run Session
register s = do
  state ← elim s.state [
    | receiving_request ↦ ok receive_request_blocked
    | sending_response_header ↦ ok send_response_header_blocked
    | sending_response_body ↦ ok send_response_body_blocked
    | _ ↦ fault panicked
  ]
  panic_if s.registered
  ok (record s { state = state; registered = true })

unfoldable pub unregister : Session → Run Session
unregister s = do panic_if (not s.registered); ok (record s { registered = false })

-- http_session_close and http_session_free.
unfoldable pub close_and_free : Session → Session
close_and_free s = record s { closed = s.closed + 1; freed = true }

-- The loop of the two senders: what is left of the answers, how much is written, what the socket took.
-- Without an answer, the socket blocks.
unfoldable pub transmit : List Write → List ℕ → ℕ → List ℕ → List Write × ℕ × List ℕ × Rc
transmit [] buffer written client =
    ([], written, client, if leb (length buffer) written then done else eagain)
transmit (blocked ∷ answers) buffer written client =
    if leb (length buffer) written
    then (blocked ∷ answers, written, client, done)
    else (answers, written, client, eagain)
transmit (broken ∷ answers) buffer written client =
    if leb (length buffer) written
    then (broken ∷ answers, written, client, done)
    else (answers, written, client, failed)
transmit (wrote n ∷ answers) buffer written client =
    let sent = if ltb n (length buffer - written) then n + 1 else length buffer - written in
    let rest =
      transmit answers buffer (written + sent) (client ++ take sent (drop written buffer)) in
    if leb (length buffer) written then (wrote n ∷ answers, written, client, done) else rest

-- `on_eagain` is called by tcp_session_send, before the sender returns.
abbrev pub settle : Rc → State → Session → Run (Session × Rc)
settle done state s = ok (record s { state = state }, done)
settle eagain state s = do s' ← register s; ok (s', eagain)
settle failed state s = ok (s, failed)

unfoldable pub send_response_header : List Write → Session → Run (List Write × Session × Rc)
send_response_header answers s = do
  assert (is execution_complete s || is send_response_header_blocked s)
  let (left, written, client, rc) =
      transmit answers s.response_header s.response_header_written s.client
  (s', rc') ← settle rc sent_response_header (record s {
    state = sending_response_header;
    response_header_written = written;
    client = client;
  })
  ok (left, s', rc')

unfoldable pub send_response_body : List Write → Session → Run (List Write × Session × Rc)
send_response_body answers s = do
  assert (is sent_response_header s || is send_response_body_blocked s)
  let (left, written, client, rc) =
      transmit answers s.response_body s.response_body_written s.client
  (s', rc') ←
      settle rc sent_response_body (record s {
        state = sending_response_body;
        response_body_written = written;
        client = client;
      })
  ok (left, s', rc')

unfoldable pub on_client_response_body_sending : List Write → Session → Run Session
on_client_response_body_sending answers s = do
  (_, s', rc) ← send_response_body answers s
  elim rc [ eagain ↦ ok s' | _ ↦ ok (close_and_free s') ]

unfoldable pub on_client_response_header_sending : List Write → Session → Run Session
on_client_response_header_sending answers s = do
  (left, s', rc) ← send_response_header answers s
  elim rc [
    | done ↦ on_client_response_body_sending left s'
    | eagain ↦ ok s'
    | failed ↦ ok (close_and_free s')
  ]

-- on_client_socket_epoll_event of a session that sends; `writable` is whether the event has EPOLLOUT.
unfoldable pub on_client_socket_epoll_event : Bool → List Write → Session → Run Session
on_client_socket_epoll_event writable answers s = do
  s' ← unregister s
  elim s.state [
    | send_response_header_blocked ↦ (do
      assert writable
      on_client_response_header_sending answers s')
    | send_response_body_blocked ↦ (do assert writable; on_client_response_body_sending answers s')
    | _ ↦ fault panicked
  ]

-- http_session_send_response, by which a worker sends.
unfoldable pub send_response : List Write → Session → Run Session
send_response answers s = do
  assert (is execution_complete s)
  (left, s', rc) ← send_response_header answers s
  elim rc [
    | eagain ↦ ok s'
    | failed ↦ ok (close_and_free s')
    | done ↦ (do
      assert (is sent_response_header s')
      (_, s'', rc') ← send_response_body left s'
      elim rc' [
        | eagain ↦ ok s''
        | failed ↦ ok (close_and_free s'')
        | done ↦ (do assert (is sent_response_body s''); ok (close_and_free s''))
      ])
  ]
