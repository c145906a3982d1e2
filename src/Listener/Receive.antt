-- ===== src/Listener/Receive.antt =====
-- The reading of a request (http_session_parse and http_session_receive_request of
-- runtime/include/http_session.h, with tcp_session_recv, and on_client_request_receiving of
-- runtime/src/listener_thread.c). The HTTP parser is third-party code, and a parameter.
pub mod Incoming
pub mod Loop
pub mod Arrival
pub mod Moved
pub mod Samples
use sledge_serverless_framew.Base.{
  ℕ, ◌+◌, ◌-◌, Bool, true, false, ◌||◌, not, Option, none, some, List, [], ◌∷◌, ◌++◌, Run, ok,
  fault, ◌>>=◌, ◌>>◌, assert, ltb, ◌==◌, if◌then◌else◌, length, drop,
}
use sledge_serverless_framew.Admissions.{Control}
use sledge_serverless_framew.HttpRequest
use sledge_serverless_framew.HttpRequest.{HttpRequest, Event}
use sledge_serverless_framew.Listener.{
  State, initialized, receiving_request, receive_request_blocked, received_request, Session, Write,
  Rc, done, eagain, failed, is, register, unregister,
}
use sledge_serverless_framew.Listener.Requests
use sledge_serverless_framew.Listener.Requests.{Received, refuse, on_client_request_received}

-- What `read` does: it gives bytes, none at the end of the stream; EAGAIN; another error.
pub data Read : Type 0 where
  bytes : List ℕ → Read
  no_data : Read
  broken_read : Read

-- http_parser_execute with the state of the parser and the bytes that are new to it: the state
-- after it, the callbacks that it makes, how many bytes it has parsed, and whether `http_errno` is
-- HPE_OK if no callback refuses.
pub record Parser (P : Type 0) : Type 0 where
  pub execute : P → List ℕ → P × List Event × ℕ × Bool
  pub has_body : ℕ → Bool

-- A session while its request is read. `length_parsed` is a field of the request in the source, and
-- `request_buffer` is the memstream.
pub record Reader (P : Type 0) : Type 0 where
  pub session : Session
  pub request : HttpRequest
  pub parser : P
  pub request_buffer : List ℕ
  pub length_parsed : ℕ

abbrev pub is_refused : HttpRequest.Rc → Bool
is_refused HttpRequest.refuse = true
is_refused _ = false

module _ {P : Type 0} (parser : Parser P) where
  -- http_session_parse; the second component tells of -1.
  unfoldable pub parse : Reader P → Run (Reader P × Bool)
  parse r = do
    let (p, events, parsed, fine) = parser.execute r.parser (drop r.length_parsed r.request_buffer)
    (request, rc) ← HttpRequest.run parser.has_body r.request events
    if is_refused rc || not fine
        then ok (record r { parser = p; request = request }, true)
        else ok (
          record r { parser = p; request = request; length_parsed = r.length_parsed + parsed },
          false,
        )

-- The body's pointer when the memstream has moved, as an offset in it; NULL if the length is 0.
abbrev pub relocated : HttpRequest → ℕ → HttpRequest
relocated request header_length = record request {
  body = if header_length == 0 then none else some header_length;
}

module _ {P : Type 0} where
  -- The bytes go to the memstream; `moved` tells whether its buffer has another address then.
  unfoldable pub append : Bool → List ℕ → Reader P → Run (Reader P)
  append moved temp r = do
    let header_length = length r.request_buffer - r.request.body_length_read
    assert (not r.request.header_end || ltb 0 header_length)
    ok (record r {
      request_buffer = r.request_buffer ++ temp;
      request = if moved then relocated r.request header_length else r.request;
    })

  abbrev pub with_state : State → Reader P → Reader P
  with_state state r = record r { session = record r.session { state = state } }

module _ {P : Type 0} where
  -- The exit of the loop, and the call of `on_eagain` by tcp_session_recv.
  abbrev pub finished : List Read → Reader P → List Read × Reader P × Rc
  finished reads r = (reads, with_state received_request r, done)

  abbrev pub blocks : List Read → Reader P → Run (List Read × Reader P × Rc)
  blocks reads r = do s ← register r.session; ok (reads, record r { session = s }, eagain)

module _ {P : Type 0} (parser : Parser P) (moves : ℕ → Bool) where
  -- The loop. Without an answer, the socket blocks.
  unfoldable pub receive : List Read → Reader P → Run (List Read × Reader P × Rc)
  receive [] r = if r.request.message_end then ok (finished [] r) else blocks [] r
  receive (no_data ∷ reads) r =
      if r.request.message_end then ok (finished (no_data ∷ reads) r) else blocks reads r
  receive (broken_read ∷ reads) r =
      if r.request.message_end then ok (finished (broken_read ∷ reads) r) else ok (reads, r, failed)
  receive (bytes [] ∷ reads) r =
      if r.request.message_end then ok (finished (bytes [] ∷ reads) r) else ok (reads, r, failed)
  receive (bytes (b ∷ temp) ∷ reads) r = elim r.request.message_end [
    | true ↦ ok (finished (bytes (b ∷ temp) ∷ reads) r)
    | false ↦ (do
      r₁ ← append (moves (length r.request_buffer)) (b ∷ temp) r
      (r₂, malformed) ← parse parser r₁
      elim malformed [ true ↦ ok (reads, r₂, failed) | false ↦ receive reads r₂ ])
  ]

  -- http_session_receive_request
  unfoldable pub receive_request : List Read → Reader P → Run (List Read × Reader P × Rc)
  receive_request reads r = do
    assert (is initialized r.session || is receive_request_blocked r.session)
    receive reads (with_state receiving_request r)

module _ {P : Type 0} (parser : Parser P) (moves : ℕ → Bool) (env : Requests.Environment)
    (answers : List Write) where
  -- on_client_request_receiving: the reader, and what becomes of the request.
  unfoldable pub on_client_request_receiving :
      List Read → Control → Reader P → Run (Reader P × Received)
  on_client_request_receiving reads c r = do
    (_, r', rc) ← receive_request parser moves reads r
    elim rc [
      | done ↦ (do
        received ← on_client_request_received env answers r'.request.full_url c r'.session
        ok (r', received))
      | eagain ↦ ok (r', record { control = c; session = r'.session; queued = none })
      | failed ↦ (do
        s ← refuse env answers 400 r'.session
        ok (r', record { control = c; session = s; queued = none }))
    ]

  -- on_client_socket_epoll_event of a session whose request is not all there; `readable` is whether the
  -- event has EPOLLIN.
  unfoldable pub on_client_socket_readable :
      Bool → List Read → Control → Reader P → Run (Reader P × Received)
  on_client_socket_readable readable reads c r = do
    s ← unregister r.session
    assert readable
    on_client_request_receiving reads c (record r { session = s })
