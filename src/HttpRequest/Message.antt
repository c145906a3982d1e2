-- ===== src/HttpRequest/Message.antt =====
-- A whole request message, as the parser's callbacks store it (runtime/src/http_parser_settings.c).
use mathlib.Core.Path.{subst}
use sledge_serverless_framew.Base.{
  length, ℕ, ◌+◌, ◌≤◌, ◌^◌, ◌<◌, ◌≡◌, refl, Bool, true, false, none, some, List, [], ◌∷◌, ◌++◌, ◌∙◌,
  ok, arith, Returns,
}
use sledge_serverless_framew.HttpRequest
use sledge_serverless_framew.HttpRequest.{
  HttpRequest, Header, Event, url, Rc, message_begins, message_ends, headers_end, body_part,
}
use sledge_serverless_framew.HttpRequest.Limits.{IsBounded, on_url-Returns}
use sledge_serverless_framew.HttpRequest.Headers.{
  header_events, AllShort, Holds, IsReading, with_header, two_events,
}

-- What reading the headers `hs` makes of `r`.
abbrev with_headers : HttpRequest → List Header → HttpRequest
with_headers r [] = r
with_headers r (h ∷ hs) = with_headers (with_header r h) hs

-- The parser's events for a body in pieces: an offset and a length each.
abbrev pub body_events : List (ℕ × ℕ) → List Event
body_events [] = message_ends ∷ []
body_events ((at, len) ∷ parts) = body_part at len ∷ body_events parts

pub total : List (ℕ × ℕ) → ℕ
total [] = 0
total ((at, len) ∷ parts) = len + total parts

-- The rest of a body whose start is known.
abbrev read_on : HttpRequest → List (ℕ × ℕ) → HttpRequest
read_on r parts = record r {
  body_length_read = r.body_length_read + total parts;
  message_end = true;
}

record IsInBody (r : HttpRequest) (at : ℕ) : Type 0 where
  message_end : r.message_end ≡ false
  header_end : r.header_end ≡ true
  body : r.body ≡ some at
  body_length : 0 < r.body_length
  body_positive : r.body_length < 2 ^ 31

module _ (has_body : ℕ → Bool) where
  run-body :
      (r : HttpRequest) (at : ℕ) (parts : List (ℕ × ℕ))
      → IsInBody r at
      → HttpRequest.run has_body r (body_events parts) ≡ ok (read_on r parts, HttpRequest.proceed)
  unfolding HttpRequest.run HttpRequest.callback HttpRequest.on_body HttpRequest.on_msg_end total
  run-body r at [] i = ground (arith, i.message_end, i.header_end)
  run-body r at ((next, len) ∷ parts) i =
      let r' : HttpRequest = record r { body_length_read = r.body_length_read + len } in
      ground (
        arith,
        i.message_end,
        i.header_end,
        i.body,
        i.body_length,
        i.body_positive,
        run-body r' at parts (record {
          message_end = i.message_end;
          header_end = i.header_end;
          body = i.body;
          body_length = i.body_length;
          body_positive = i.body_positive;
        }),
      )

  run-headers :
      (r : HttpRequest) (hs : List Header) (es : List Event)
      → IsReading r
      → r.header_count + length hs ≤ 32
      → AllShort hs
      → HttpRequest.run has_body r (header_events hs ++ es)
        ≡ HttpRequest.run has_body (with_headers r hs) es
  unfolding length
  run-headers r [] es i few short = refl
  run-headers r (h ∷ hs) es i few (k, v, short) =
      two_events has_body r h (header_events hs ++ es) i (omega arith) k v
      ∙ run-headers (with_header r h) hs es
          (record { message_end = i.message_end; header_end = i.header_end; last_was_value = refl })
          (omega arith) short

  -- What `with_headers` leaves.
  record Headed (r : HttpRequest) (hs : List Header) (s : HttpRequest) : Type 0 where
    header_count : s.header_count ≡ r.header_count + length hs
    earlier : (i : ℕ) → i < r.header_count → s.headers i ≡ r.headers i
    held : Holds s.headers r.header_count hs
    message_end : s.message_end ≡ r.message_end
    header_end : s.header_end ≡ r.header_end
    body : s.body ≡ r.body

  with_headers-Headed : (r : HttpRequest) (hs : List Header) → Headed r hs (with_headers r hs)
  unfolding length
  with_headers-Headed r [] = record {
    header_count = omega arith;
    earlier = λ i h. refl;
    held = tt;
    message_end = refl;
    header_end = refl;
    body = refl;
  }
  with_headers-Headed r (h ∷ hs) =
      let s = with_headers-Headed (with_header r h) hs in
      record {
        header_count = ground (arith, s.header_count);
        earlier = λ i h. ground (arith, s.earlier i);
        held = (ground (arith, s.earlier r.header_count (omega arith)), s.held);
        message_end = s.message_end;
        header_end = s.header_end;
        body = s.body;
      }

  -- A request message with a body, from a request within the limits that no header was read into
  -- yet: if there are at most 32 headers, each in one piece, with a key of at most 64 bytes and a
  -- value of fewer than 256, the announced length is positive and below 2 ^ 31, and the body comes
  -- in one piece or more, the callbacks accept every event, the headers stand in the array in
  -- order, the body starts at the first piece, its length is the announced one and what was read is
  -- the pieces' total.
  pub message_correct :
      (r : HttpRequest) (text : List ℕ) (len : ℕ) (hs : List Header) (method content_length : ℕ)
      (at size : ℕ) (parts : List (ℕ × ℕ))
      → IsBounded r
      → r.message_end ≡ false
      → r.header_end ≡ false
      → r.header_count ≡ 0
      → r.body ≡ none
      → length hs ≤ 32
      → AllShort hs
      → has_body method ≡ true
      → 0 < content_length
      → content_length < 2 ^ 31
      → Returns
          (λ x.
            (x.1 ≡ HttpRequest.proceed)
            × (x.0.header_count ≡ length hs)
            × Holds x.0.headers 0 hs
            × (x.0.method ≡ method)
            × (x.0.body ≡ some at)
            × (x.0.body_length ≡ content_length)
            × (x.0.body_length_read ≡ size + total parts)
            × (x.0.message_end ≡ true))
          (HttpRequest.run has_body r (
            message_begins
            ∷ url text len
            ∷ (header_events hs
                ++ (headers_end method content_length ∷ body_events ((at, size) ∷ parts)))))
  unfolding HttpRequest.run HttpRequest.callback HttpRequest.on_message_begin
      HttpRequest.on_header_end HttpRequest.on_body
  message_correct r text len hs method content_length at size parts b e f z nb few short hb cl
        fits =
      let r₁ : HttpRequest = record r { message_begin = true; last_was_value = true } in
      let (u, params, on) =
        on_url-Returns has_body r₁ text len
          (record {
            header_count = b.header_count;
            full_url = b.full_url;
            query_params_count = b.query_params_count;
            query_params = b.query_params;
          })
          e f in
      let r₂ : HttpRequest = record r₁ { full_url = u; query_params = params } in
      let r₃ : HttpRequest = with_headers r₂ hs in
      let headed = with_headers-Headed r₂ hs in
      let r₄ : HttpRequest = record r₃ {
        header_end = true;
        method = method;
        body_length = content_length;
        body = some at;
        cursor = 0;
        body_length_read = size;
      } in
      let last = run-body r₄ at parts (record {
        message_end = cc (headed.message_end, e);
        header_end = refl;
        body = refl;
        body_length = cl;
        body_positive = fits;
      }) in
      let rest : List Event =
        headers_end method content_length ∷ body_events ((at, size) ∷ parts) in
      let started : HttpRequest.run has_body r
            (message_begins ∷ url text len ∷ (header_events hs ++ rest))
          ≡ HttpRequest.run has_body r₂ (header_events hs ++ rest) =
        ground (arith, e, f, on) in
      let reading : IsReading r₂ = record {
        message_end = e;
        header_end = f;
        last_was_value = refl;
      } in
      let ended : HttpRequest.run has_body r₃ rest ≡ ok (read_on r₄ parts, HttpRequest.proceed) =
        ground (arith, headed.message_end, headed.header_end, headed.body, hb, fits, last) in
      (
        (read_on r₄ parts, HttpRequest.proceed),
        (started ∙ run-headers r₂ hs rest reading (ground (arith, z)) short ∙ ended),
        (
          refl,
          ground (arith, headed.header_count),
          subst (λ n. Holds r₃.headers n hs) z headed.held,
          refl,
          refl,
          refl,
          refl,
          refl,
        ),
      )
