-- ===== src/HttpRequest/Limits.antt =====
-- What a request is left within by the callbacks that return (runtime/src/http_parser_settings.c).
use sledge_serverless_framew.Base.{
  length-++, take, length-take, drop, length, ℕ, zero, suc, ◌+◌, ◌-◌, ◌%◌, ◌^◌, ◌≤◌, ◌≡◌, Bool,
  true, false, List, [], ◌∷◌, ◌++◌, Run, ok, fault, ◌>>=◌, arith, ltb, Whenever, inl, inr,
  Bool-cases, Option-cases,
}
use sledge_serverless_framew.HttpRequest
use sledge_serverless_framew.HttpRequest.{
  HttpRequest, QueryParam, Event, Rc, query_param, find_byte,
}

-- Each parameter is within its array, with room for the zero at its end.
unfoldable pub AllFit : List QueryParam → Type 0
AllFit [] = Unit
AllFit (p ∷ params) = (p.value_length ≤ 31) × (length p.value ≤ p.value_length) × AllFit params

pub record IsBounded (r : HttpRequest) : Type 0 where
  pub header_count : r.header_count ≤ 32
  pub full_url : length r.full_url ≤ 255
  pub query_params_count : length r.query_params ≤ 16
  pub query_params : AllFit r.query_params

query_param-fits :
    (text : List ℕ) (prev len : ℕ) (params : List QueryParam)
    → AllFit params
    → AllFit (params ++ (query_param text prev len ∷ []))
unfolding AllFit
query_param-fits text prev len [] a =
    ground (arith, length-take len (drop prev text), length-take 31 (drop prev text))
query_param-fits text prev len (p ∷ params) a =
    ground (arith, query_param-fits text prev len params)

-- The parameters with the one of `n` bytes at `prev`.
abbrev appended : List ℕ → ℕ → ℕ → List QueryParam → List QueryParam
appended text prev n params = params ++ (query_param text prev n ∷ [])

-- The loop over the parameters returns, and keeps to the limits.
abbrev Fit : List QueryParam → Type 0
Fit params = (length params ≤ 16) × AllFit params

appended-Fit :
    (text : List ℕ) (prev n : ℕ) (params : List QueryParam)
    → Fit params
    → ltb (length params) 16 ≡ true
    → Fit (appended text prev n params)
unfolding length
appended-Fit text prev n params (few, a) room = (
  ground (arith, length-++ params (query_param text prev n ∷ [])),
  query_param-fits text prev n params a,
)

query_loop-Fit :
    (fuel : ℕ) (text : List ℕ) (len prev : ℕ) (params : List QueryParam)
    → 17 ≤ fuel + length params
    → Fit params
    → (r : List QueryParam) × (HttpRequest.query_loop fuel text len prev params ≡ ok r) × Fit r
unfolding HttpRequest.query_loop length
query_loop-Fit zero text len prev params f (few, a) = absurd (omega arith)
query_loop-Fit (suc fuel) text len prev params f (few, a) =
    elim (Bool-cases (ltb (length params) 16)) [
      | inr e ↦ (params, ground arith, (few, a))
      | inl e ↦ elim (Option-cases (find_byte 38 (drop prev text))) [
        | inl none_left ↦
            let n = (len + 2 ^ 64 - prev) % 2 ^ 64 in
            (appended text prev n params, ground arith, appended-Fit text prev n params (few, a) e)
        | inr (n, found) ↦
            let next = appended-Fit text prev n params (few, a) e in
            let (r, at, fit) =
              query_loop-Fit fuel text len (prev + n + 1) (appended text prev n params)
                (ground (arith, length-++ params (query_param text prev n ∷ []))) next in
            (r, ground (arith, at), fit)
      ]
    ]

url_fits : (text : List ℕ) (n : ℕ) → length (take (HttpRequest.smaller n 255) text) ≤ 255
url_fits text n = ground (arith, length-take (HttpRequest.smaller n 255) text)

module _ (has_body : ℕ → Bool) where
  on_url-IsBounded :
      (r : HttpRequest) (text : List ℕ) (len : ℕ)
      → IsBounded r
      → Whenever (λ x. IsBounded x.0) (HttpRequest.on_url r text len)
  unfolding HttpRequest.on_url
  on_url-IsBounded r text len b = elim (Bool-cases r.message_end) [
    | inl e ↦ rw e tt
    | inr e ↦ elim (Bool-cases r.header_end) [
      | inl f ↦ rw (e, f) tt
      | inr f ↦
          rw (e, f)
            (elim (Option-cases (find_byte 63 (take len text))) [
              | inl q ↦ rw q (record {
                header_count = b.header_count;
                full_url = search url_fits;
                query_params_count = b.query_params_count;
                query_params = b.query_params;
              })
              | inr (i, q) ↦
                  let (params, at, (few, fit)) =
                    query_loop-Fit 17 text len (i + 1) r.query_params (omega arith)
                      (b.query_params_count, b.query_params) in
                  rw (q, at)
                    (record {
                      header_count = b.header_count;
                      full_url = search url_fits;
                      query_params_count = few;
                      query_params = fit;
                    })
            ])
    ]
  ]

  -- The callback for the URL returns, and changes the URL and the parameters only.
  pub on_url-Returns :
      (r : HttpRequest) (text : List ℕ) (len : ℕ)
      → IsBounded r
      → r.message_end ≡ false
      → r.header_end ≡ false
      → (u : List ℕ) × (params : List QueryParam) × (HttpRequest.on_url r text len
          ≡ ok (record r { full_url = u; query_params = params }, HttpRequest.proceed))
  unfolding HttpRequest.on_url
  on_url-Returns r text len b e f = elim (Option-cases (find_byte 63 (take len text))) [
    | inl q ↦
        let u = take (HttpRequest.smaller len 255) text in (u, r.query_params, ground (arith, q))
    | inr (i, q) ↦
        let u = take (HttpRequest.smaller i 255) text in
        let (params, at, _) =
          query_loop-Fit 17 text len (i + 1) r.query_params (omega arith)
            (b.query_params_count, b.query_params) in
        (u, params, ground (arith, q, at))
  ]

  callback-IsBounded :
      (r : HttpRequest) (e : Event)
      → IsBounded r
      → Whenever (λ x. IsBounded x.0) (HttpRequest.callback has_body r e)
  unfolding HttpRequest.callback HttpRequest.on_message_begin HttpRequest.on_msg_end
      HttpRequest.on_header_field HttpRequest.on_header_value HttpRequest.on_body
      HttpRequest.on_header_end
  callback-IsBounded r HttpRequest.message_begins b = ground (arith, b)
  callback-IsBounded r HttpRequest.message_ends b = ground (arith, b)
  callback-IsBounded r (HttpRequest.url text len) b = on_url-IsBounded r text len b
  callback-IsBounded r (HttpRequest.header_field at len) b = ground (arith, b)
  callback-IsBounded r (HttpRequest.header_value at len) b = ground (arith, b)
  callback-IsBounded r (HttpRequest.body_part at len) b = ground (arith, b)
  callback-IsBounded r (HttpRequest.headers_end method content_length) b = ground (arith, b)

  abbrev continue : List Event → HttpRequest × Rc → Run (HttpRequest × Rc)
  continue es (r, rc) = elim rc [
    | HttpRequest.refuse ↦ ok (r, HttpRequest.refuse)
    | _ ↦ HttpRequest.run has_body r es
  ]

  run_on :
      (m : Run (HttpRequest × Rc)) (es : List Event)
      → Whenever (λ x. IsBounded x.0) m
      → ((r : HttpRequest)
          → IsBounded r
          → Whenever (λ x. IsBounded x.0) (HttpRequest.run has_body r es))
      → Whenever (λ x. IsBounded x.0) (m >>= continue es)
  run_on (fault e) es w k = tt
  run_on (ok (r, HttpRequest.proceed)) es w k = k r w
  run_on (ok (r, HttpRequest.refuse)) es w k = w
  run_on (ok (r, HttpRequest.no_body)) es w k = k r w

  -- From a request within the limits, whatever events the parser reports in whatever order, the
  -- request that the callbacks leave, if no assertion fails and no array is overrun, is within
  -- them: at most 32 headers, at most 16 query parameters of at most 31 bytes, and a URL of at most
  -- 255 bytes.
  pub run-IsBounded :
      (es : List Event) (r : HttpRequest)
      → IsBounded r
      → Whenever (λ x. IsBounded x.0) (HttpRequest.run has_body r es)
  unfolding HttpRequest.run
  run-IsBounded [] r b = b
  run-IsBounded (e ∷ es) r b =
      run_on (HttpRequest.callback has_body r e) es (callback-IsBounded r e b)
        λ r' b'. run-IsBounded es r' b'
