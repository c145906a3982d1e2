-- ===== src/HttpRequest.antt =====
-- runtime/include/http_request.h and runtime/src/http_parser_settings.c: the request that a session
-- fills in, by the callbacks of the HTTP parser. A pointer into the receive buffer is its offset
-- there, and lengths are not above the buffer's, which fits an `int`. A callback for the URL gets
-- the bytes from the URL's first on, up to the zero that ends the buffer.
pub mod Limits
pub mod Headers
pub mod Message
pub mod Samples
mod Tests
use sledge_serverless_framew.Base.{
  length, take, drop, ℕ, zero, suc, ◌+◌, ◌-◌, ◌%◌, ◌^◌, Bool, true, false, ◌||◌, ◌&&◌, not, Option,
  none, some, List, [], ◌∷◌, ◌++◌, Run, ok, fault, out_of_bounds, out_of_fuel, ◌>>=◌, ◌>>◌, assert,
  ltb, leb, ◌==◌, if◌then◌else◌, update,
}

abbrev pub max_header_count : ℕ
max_header_count = 32

abbrev pub max_header_length : ℕ
max_header_length = 64

abbrev pub max_header_value_length : ℕ
max_header_value_length = 256

abbrev pub max_full_url_length : ℕ
max_full_url_length = 256

abbrev pub max_query_param_count : ℕ
max_query_param_count = 16

abbrev pub max_query_param_length : ℕ
max_query_param_length = 32

pub record Header : Type 0 where
  pub key : ℕ
  pub key_length : ℕ
  pub value : ℕ
  pub value_length : ℕ

pub record QueryParam : Type 0 where
  pub value : List ℕ
  pub value_length : ℕ

-- `body_length` is an `int`, as its bit pattern; `query_params_count` is the length of the list,
-- and `body` is `none` for NULL.
pub record HttpRequest : Type 0 where
  pub full_url : List ℕ
  pub headers : ℕ → Header
  pub header_count : ℕ
  pub method : ℕ
  pub query_params : List QueryParam
  pub body : Option ℕ
  pub body_length : ℕ
  pub body_length_read : ℕ
  pub last_was_value : Bool
  pub header_end : Bool
  pub message_begin : Bool
  pub message_end : Bool
  pub cursor : ℕ

-- The return codes 0, -1 and 2.
pub data Rc : Type 0 where
  proceed refuse no_body : Rc

-- `memchr` and `strchr`: the index of the first such byte.
pub find_byte : ℕ → List ℕ → Option ℕ
find_byte c [] = none
find_byte c (b ∷ bytes) =
    let rest = find_byte c bytes in
    if b == c then some 0 else (elim rest [ none ↦ none | some i ↦ some (suc i) ])

abbrev pub smaller : ℕ → ℕ → ℕ
smaller a b = if ltb a b then a else b

-- The parameter of `len` bytes at `prev`, cut to what its array holds.
abbrev pub query_param : List ℕ → ℕ → ℕ → QueryParam
query_param text prev len =
    let n = smaller len (max_query_param_length - 1) in
    record { value = take n (drop prev text); value_length = n }

-- The `while` loop over the parameters and the `if` behind it. Each round adds a parameter, so that
-- `max_query_param_count + 1` rounds are enough. `&at[length] - prev` is a number of 64 bits.
pub query_loop : ℕ → List ℕ → ℕ → ℕ → List QueryParam → Run (List QueryParam)
query_loop zero text len prev params = fault out_of_fuel
query_loop (suc fuel) text len prev params =
    let last : Run (List QueryParam) = ok (
      if ltb (length params) max_query_param_count
      then params ++ (query_param text prev ((len + 2 ^ 64 - prev) % 2 ^ 64) ∷ [])
      else params) in
    elim (find_byte 38 (drop prev text)) [
      | none ↦ last
      | some n ↦
          if ltb (length params) max_query_param_count
          then query_loop fuel text len (prev + n + 1) (params ++ (query_param text prev n ∷ []))
          else last
    ]

pub on_url : HttpRequest → List ℕ → ℕ → Run (HttpRequest × Rc)
on_url r text len = do
  assert (not r.message_end)
  assert (not r.header_end)
  let query : Option ℕ = find_byte 63 (take len text)
  let full_url_length : ℕ = elim query [ none ↦ len | some i ↦ i ]
  let r₁ : HttpRequest = record r {
    full_url = take (smaller full_url_length (max_full_url_length - 1)) text;
  }
  elim query [
    | none ↦ ok (r₁, proceed)
    | some i ↦ (do
      params ← query_loop (max_query_param_count + 1) text len (i + 1) r.query_params
      ok (record r₁ { query_params = params }, proceed))
  ]

pub on_message_begin : HttpRequest → Run (HttpRequest × Rc)
on_message_begin r = do
  assert (not r.message_end)
  assert (not r.header_end)
  ok (record r { message_begin = true; last_was_value = true }, proceed)

-- `headers[i]` as the code computes `i`, which may be one past the end.
abbrev pub in_bounds : ℕ → Run (Unit {0})
in_bounds i = if ltb i max_header_count then ok tt else fault out_of_bounds

pub on_header_field : HttpRequest → ℕ → ℕ → Run (HttpRequest × Rc)
on_header_field r at len = do
  assert (not r.message_end)
  assert (not r.header_end)
  if not r.last_was_value
      then (do
        assert (ltb 0 r.header_count)
        in_bounds r.header_count
        let header = r.headers r.header_count
        if ltb max_header_length (header.key_length + len)
            then ok (r, refuse)
            else ok (
              record r {
                headers =
                    update r.headers r.header_count
                      (record header { key_length = header.key_length + len });
              },
              proceed,
            ))
      else if leb max_header_count r.header_count || ltb max_header_length len
      then ok (r, refuse)
      else ok (
        record r {
          headers =
              update r.headers r.header_count
                (record (r.headers r.header_count) { key = at; key_length = len });
          header_count = r.header_count + 1;
          last_was_value = false;
        },
        proceed,
      )

-- The index `header_count - 1` is out of bounds for no header.
pub on_header_value : HttpRequest → ℕ → ℕ → Run (HttpRequest × Rc)
on_header_value r at len = do
  assert (not r.message_end)
  assert (not r.header_end)
  let i = r.header_count - 1
  let header = r.headers i
  if not r.last_was_value
      then (if leb max_header_value_length len then ok (r, refuse) else (do
        if r.header_count == 0 then fault out_of_bounds else in_bounds i
        ok (
          record r {
            headers = update r.headers i (record header { value = at; value_length = len });
            last_was_value = true;
          },
          proceed,
        )))
      else (do
        if r.header_count == 0 then fault out_of_bounds else in_bounds i
        assert (ltb 0 header.value_length)
        ok (
          record r {
            headers =
                update r.headers i (record header { value_length = header.value_length + len });
            last_was_value = true;
          },
          proceed,
        ))

unfoldable pub on_body : HttpRequest → ℕ → ℕ → Run (HttpRequest × Rc)
on_body r at len = do
  assert r.header_end
  assert (not r.message_end)
  elim r.body [
    | none ↦ ok (record r { body = some at; cursor = 0; body_length_read = len }, proceed)
    | some _ ↦ (do
      assert (ltb 0 r.body_length && ltb r.body_length (2 ^ 31))
      ok (record r { body_length_read = r.body_length_read + len }, proceed))
  ]

unfoldable pub on_msg_end : HttpRequest → Run (HttpRequest × Rc)
on_msg_end r = do
  assert r.header_end
  assert (not r.message_end)
  ok (record r { message_end = true }, proceed)

-- The request of a new session, all zero.
unfoldable pub blank : HttpRequest
blank = record {
  full_url = [];
  headers = λ i. record { key = 0; key_length = 0; value = 0; value_length = 0 };
  header_count = 0;
  method = 0;
  query_params = [];
  body = none;
  body_length = 0;
  body_length_read = 0;
  last_was_value = false;
  header_end = false;
  message_begin = false;
  message_end = false;
  cursor = 0;
}

-- The calls of the callbacks that http_parser_settings_register_callbacks registers.
pub data Event : Type 0 where
  message_begins message_ends : Event
  url : List ℕ → ℕ → Event
  header_field header_value body_part : ℕ → ℕ → Event
  headers_end : ℕ → ℕ → Event

-- `parser->method == HTTP_PUT || parser->method == HTTP_POST`, with the parser's own numbers.
module _ (has_body : ℕ → Bool) where
  unfoldable pub on_header_end : HttpRequest → ℕ → ℕ → Run (HttpRequest × Rc)
  on_header_end r method content_length = do
    assert (not r.message_end)
    assert (not r.header_end)
    ok (
      record r {
        header_end = true;
        method = method;
        body_length = if has_body method then content_length % 2 ^ 32 else 0;
      },
      if has_body method then proceed else no_body,
    )

  unfoldable pub callback : HttpRequest → Event → Run (HttpRequest × Rc)
  callback r message_begins = on_message_begin r
  callback r message_ends = on_msg_end r
  callback r (url text len) = on_url r text len
  callback r (header_field at len) = on_header_field r at len
  callback r (header_value at len) = on_header_value r at len
  callback r (body_part at len) = on_body r at len
  callback r (headers_end method content_length) = on_header_end r method content_length

  -- The parser goes on until a callback refuses.
  unfoldable pub run : HttpRequest → List Event → Run (HttpRequest × Rc)
  run r [] = ok (r, proceed)
  run r (e ∷ es) = do (r', rc) ← callback r e; elim rc [ refuse ↦ ok (r', refuse) | _ ↦ run r' es ]
