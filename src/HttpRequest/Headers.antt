-- ===== src/HttpRequest/Headers.antt =====
-- The headers of a request, as the parser's callbacks store them
-- (runtime/src/http_parser_settings.c).
use sledge_serverless_framew.Base.{
  ℕ, ◌+◌, ◌≤◌, ◌<◌, ◌≡◌, Bool, true, false, List, [], ◌∷◌, fault, out_of_bounds, arith, update,
  Returns,
}
use sledge_serverless_framew.HttpRequest
use sledge_serverless_framew.HttpRequest.{
  HttpRequest, Header, Event, Rc, header_field, header_value,
}

-- The parser's events for headers whose keys and values come in one piece each.
abbrev pub header_events : List Header → List Event
header_events [] = []
header_events (h ∷ hs) =
    header_field h.key h.key_length ∷ header_value h.value h.value_length ∷ header_events hs

-- Within the limits of the two callbacks.
abbrev pub AllShort : List Header → Type 0
AllShort [] = Unit
AllShort (h ∷ hs) = (h.key_length ≤ 64) × (h.value_length < 256) × AllShort hs

-- The cells from `start` on hold the list.
abbrev pub Holds : (ℕ → Header) → ℕ → List Header → Type 0
Holds headers start [] = Unit
Holds headers start (h ∷ hs) = (headers start ≡ h) × Holds headers (start + 1) hs

-- A request whose headers are being read, and the last of which is complete.
pub record IsReading (r : HttpRequest) : Type 0 where
  pub message_end : r.message_end ≡ false
  pub header_end : r.header_end ≡ false
  pub last_was_value : r.last_was_value ≡ true

-- `r` with a header more.
abbrev pub with_header : HttpRequest → Header → HttpRequest
with_header r h = record r {
  headers =
      update
        (update r.headers r.header_count
          (record (r.headers r.header_count) { key = h.key; key_length = h.key_length }))
        r.header_count h;
  header_count = r.header_count + 1;
  last_was_value = true;
}

module _ (has_body : ℕ → Bool) where
  pub two_events :
      (r : HttpRequest) (h : Header) (es : List Event)
      → IsReading r
      → r.header_count < 32
      → h.key_length ≤ 64
      → h.value_length < 256
      → HttpRequest.run has_body r
          (header_field h.key h.key_length ∷ header_value h.value h.value_length ∷ es)
        ≡ HttpRequest.run has_body (with_header r h) es
  unfolding HttpRequest.run HttpRequest.callback HttpRequest.on_header_field
      HttpRequest.on_header_value
  two_events r h es i few k v = ground (arith, i.message_end, i.header_end, i.last_was_value)

  -- A key that the parser reports in two pieces is not put together: the rest's length is added to the
  -- cell after the key's, and the key keeps the length of its first piece.
  pub split_key :
      (r : HttpRequest) (at len at' len' : ℕ)
      → IsReading r
      → r.header_count < 31
      → len ≤ 64
      → (r.headers (r.header_count + 1)).key_length + len' ≤ 64
      → Returns
          (λ x.
            ((x.0.headers r.header_count).key_length ≡ len)
            × ((x.0.headers (r.header_count + 1)).key_length
                ≡ (r.headers (r.header_count + 1)).key_length + len'))
          (HttpRequest.run has_body r (header_field at len ∷ header_field at' len' ∷ []))
  unfolding HttpRequest.run HttpRequest.callback HttpRequest.on_header_field
  split_key r at len at' len' i few short room =
      let c = r.header_count in
      let first = update r.headers c (record (r.headers c) { key = at; key_length = len }) in
      (
        (
          record r {
            headers =
                update first (c + 1) (record (r.headers (c + 1)) {
                  key_length = (r.headers (c + 1)).key_length + len';
                });
            header_count = c + 1;
            last_was_value = false;
          },
          HttpRequest.proceed,
        ),
        ground (arith, i.message_end, i.header_end, i.last_was_value),
        (ground arith, ground arith),
      )

  -- If the key that comes in two pieces is the 32nd, the cell after it is past the end of the array.
  pub split_key-overruns :
      (r : HttpRequest) (at len at' len' : ℕ)
      → IsReading r
      → r.header_count ≡ 31
      → len ≤ 64
      → HttpRequest.run has_body r (header_field at len ∷ header_field at' len' ∷ [])
        ≡ fault out_of_bounds
  unfolding HttpRequest.run HttpRequest.callback HttpRequest.on_header_field
  split_key-overruns r at len at' len' i e short =
      ground (arith, i.message_end, i.header_end, i.last_was_value)
