-- ===== src/HttpRequest/Tests.antt =====
-- Runs of the parser's callbacks (runtime/src/http_parser_settings.c), and their theorems at concrete
-- requests.
use sledge_serverless_framew.Base.{
  length, ℕ, ◌+◌, ◌≡◌, refl, Bool, true, false, arith, Returns, Whenever, ◌==◌, List, [], ◌∷◌, ◌++◌,
  none, some,
}
use sledge_serverless_framew.HttpRequest
use sledge_serverless_framew.HttpRequest.{
  HttpRequest, Header, Event, message_begins, message_ends, url, header_field, header_value,
  headers_end, body_part,
}
use sledge_serverless_framew.HttpRequest.Limits.{IsBounded, AllFit, run-IsBounded}
use sledge_serverless_framew.HttpRequest.Headers.{IsReading, header_events, Holds}
use sledge_serverless_framew.HttpRequest.Message.{body_events, total, message_correct}

-- POST is 3 here.
abbrev is_post : ℕ → Bool
is_post method = method == 3

blank-IsBounded : IsBounded HttpRequest.blank
unfolding HttpRequest.blank length AllFit
blank-IsBounded = record {
  header_count = omega arith;
  full_url = omega arith;
  query_params_count = omega arith;
  query_params = tt;
}

abbrev host : Header
host = record { key = 16; key_length = 4; value = 22; value_length = 9 }

-- `/f?a&b`
abbrev path : List ℕ
path = 47 ∷ 102 ∷ 63 ∷ 97 ∷ 38 ∷ 98 ∷ []

abbrev events : List Event
events =
    message_begins
    ∷ url path 6
    ∷ (header_events (host ∷ []) ++ (headers_end 3 20 ∷ body_events ((40, 12) ∷ (52, 8) ∷ [])))

run-IsBounded_example :
    Whenever (λ x. IsBounded x.0) (HttpRequest.run is_post HttpRequest.blank events)
run-IsBounded_example = run-IsBounded is_post events HttpRequest.blank blank-IsBounded

message_correct_example :
    Returns
      (λ x.
        (x.1 ≡ HttpRequest.proceed)
        × (x.0.header_count ≡ length (host ∷ []))
        × Holds x.0.headers 0 (host ∷ [])
        × (x.0.method ≡ 3)
        × (x.0.body ≡ some 40)
        × (x.0.body_length ≡ 20)
        × (x.0.body_length_read ≡ 12 + total ((52, 8) ∷ []))
        × (x.0.message_end ≡ true))
      (HttpRequest.run is_post HttpRequest.blank events)
unfolding HttpRequest.blank length
message_correct_example =
    message_correct is_post HttpRequest.blank path 6 (host ∷ []) 3 20 40 12 ((52, 8) ∷ [])
      blank-IsBounded refl refl refl refl (omega arith) (omega arith, omega arith, tt) refl
      (omega arith) (omega arith)

-- 31 headers are read.
abbrev nearly_full : HttpRequest
nearly_full = record {
  full_url = [];
  headers = λ i. record { key = 0; key_length = 0; value = 0; value_length = 0 };
  header_count = 31;
  method = 0;
  query_params = [];
  body = none;
  body_length = 0;
  body_length_read = 0;
  last_was_value = true;
  header_end = false;
  message_begin = true;
  message_end = false;
  cursor = 0;
}

nearly_full-IsReading : IsReading nearly_full
nearly_full-IsReading = record { message_end = refl; header_end = refl; last_was_value = refl }

-- One header less.
abbrev roomy : HttpRequest
roomy = record nearly_full { header_count = 30 }
