-- ===== src/Listener/Receive/Moved.antt =====
-- The start of a body when the receive buffer has moved (http_session_receive_request of
-- runtime/include/http_session.h).
use sledge_serverless_framew.Base.{
  ℕ, ◌+◌, ◌-◌, ◌%◌, ◌^◌, ◌<◌, ◌≡◌, ◌≢◌, refl, Bool, true, false, some, List, [], ◌∷◌, ◌++◌, ok,
  Returns, arith, length, drop,
}
use sledge_serverless_framew.HttpRequest
use sledge_serverless_framew.HttpRequest.{HttpRequest, Event, headers_end, body_part, message_ends}
use sledge_serverless_framew.Listener.{done, received_request}
use sledge_serverless_framew.Listener.Receive.{
  bytes, Parser, Reader, append, parse, receive, with_state, relocated,
}

-- The callbacks for the end of the header and the body, when the body already has a start.
finishes :
    (has_body : ℕ → Bool) (q : HttpRequest) (start method content_length at len : ℕ)
    → q.body ≡ some start
    → q.header_end ≡ false
    → q.message_end ≡ false
    → has_body method ≡ true
    → 0 < content_length
    → content_length < 2 ^ 31
    → HttpRequest.run has_body q
        (headers_end method content_length ∷ body_part at len ∷ message_ends ∷ [])
      ≡ ok (
        record q {
          header_end = true;
          method = method;
          body_length = content_length % 2 ^ 32;
          body_length_read = q.body_length_read + len;
          message_end = true;
        },
        HttpRequest.proceed,
      )
unfolding HttpRequest.run HttpRequest.callback HttpRequest.on_header_end HttpRequest.on_body
    HttpRequest.on_msg_end
finishes has_body q start method content_length at len body header message has content fits =
    ground (arith, body, header, message, has, content, fits)

module _ {P : Type 0} (parser : Parser P) (moves : ℕ → Bool) where
  -- If the reads so far end within the header, and the buffer moves for the next one, which ends
  -- the header and has a body that begins at a later byte, as the parser reports, then the request
  -- is accepted, and its body starts where the earlier reads ended, and not where the parser
  -- reports. The announced length is positive and below 2 ^ 31.
  pub receive-misplaces :
      (r : Reader P) (p : P) (b : ℕ) (temp : List ℕ) (method content_length at len parsed : ℕ)
      → r.request.header_end ≡ false
      → r.request.message_end ≡ false
      → r.request.body_length_read ≡ 0
      → 0 < length r.request_buffer
      → moves (length r.request_buffer) ≡ true
      → parser.has_body method ≡ true
      → 0 < content_length
      → content_length < 2 ^ 31
      → length r.request_buffer < at
      → parser.execute r.parser (drop r.length_parsed (r.request_buffer ++ b ∷ temp)) ≡ (
        p,
        headers_end method content_length ∷ body_part at len ∷ message_ends ∷ [],
        parsed,
        true,
      )
      → Returns
          (λ out.
            (out.2 ≡ done)
            × (out.1.request.body ≡ some (length r.request_buffer))
            × (out.1.request.body ≢ some at))
          (receive parser moves (bytes (b ∷ temp) ∷ []) r)
  unfolding receive append parse
  receive-misplaces r p b temp method content_length at len parsed header message unread some_bytes
        moved has content fits after events =
      let start = length r.request_buffer in
      let q : HttpRequest = relocated r.request (start - r.request.body_length_read) in
      let there : q.body ≡ some start = ground (arith, unread, some_bytes) in
      let run =
        finishes parser.has_body q start method content_length at len there header message has
          content fits in
      let r' : Reader P = record r {
        parser = p;
        request_buffer = r.request_buffer ++ b ∷ temp;
        request = record q {
          header_end = true;
          method = method;
          body_length = content_length % 2 ^ 32;
          body_length_read = q.body_length_read + len;
          message_end = true;
        };
        length_parsed = r.length_parsed + parsed;
      } in
      (
        ([], with_state received_request r', done),
        ground (arith, header, message, moved, events, run),
        (refl, there, λ e. ground (arith, there, e, after)),
      )
