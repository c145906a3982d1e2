-- ===== src/HttpRequest/Samples.antt =====
-- A short message, and what the callbacks leave of it (runtime/src/http_parser_settings.c).
use sledge_serverless_framew.Base.{
  take, ℕ, ◌≡◌, refl, Bool, true, false, List, [], ◌∷◌, Run, ok, fault, ◌>>=◌, arith, Whenever, inl,
  ◌⊎◌,
}
use sledge_serverless_framew.HttpRequest
use sledge_serverless_framew.HttpRequest.{
  HttpRequest, Event, Rc, url, header_field, header_value, headers_end, body_part, message_ends,
  find_byte,
}

-- The URL "/", a header, the end of the header, and a body of a byte.
abbrev pub whole_message : List Event
whole_message =
    url (47 ∷ []) 1
    ∷ header_field 2 1
    ∷ header_value 4 1
    ∷ headers_end 3 1
    ∷ body_part 6 1
    ∷ message_ends
    ∷ []

-- A request in whose header the parser is.
record InHeader (r : HttpRequest) : Type 0 where
  pub message_end : r.message_end ≡ false
  pub header_end : r.header_end ≡ false
  pub body_length_read : r.body_length_read ≡ 0

record InBody (n : ℕ) (r : HttpRequest) : Type 0 where
  pub message_end : r.message_end ≡ false
  pub body_length_read : r.body_length_read ≡ n

unfoldable pub Left : HttpRequest × Rc → Type 0
Left (r, rc) = (rc ≡ HttpRequest.refuse) ⊎ ((r.message_end ≡ true) × (r.body_length_read ≡ 1))

module _ (has_body : ℕ → Bool) where
  abbrev continue : List Event → HttpRequest × Rc → Run (HttpRequest × Rc)
  continue es (r, rc) = elim rc [
    | HttpRequest.refuse ↦ ok (r, HttpRequest.refuse)
    | _ ↦ HttpRequest.run has_body r es
  ]

  run_on :
      (I : HttpRequest → Type 0) (m : Run (HttpRequest × Rc)) (es : List Event)
      → Whenever (λ x. I x.0) m
      → ((r : HttpRequest) → I r → Whenever Left (HttpRequest.run has_body r es))
      → Whenever Left (m >>= continue es)
  unfolding Left
  run_on I (fault e) es w k = tt
  run_on I (ok (r, HttpRequest.proceed)) es w k = k r w
  run_on I (ok (r, HttpRequest.refuse)) es w k = inl refl
  run_on I (ok (r, HttpRequest.no_body)) es w k = k r w

  url-InHeader :
      (r : HttpRequest)
      → InHeader r
      → Whenever (λ x. InHeader x.0) (HttpRequest.callback has_body r (url (47 ∷ []) 1))
  unfolding HttpRequest.callback HttpRequest.on_url HttpRequest.find_byte take
  url-InHeader r i = ground (arith, i.message_end, i.header_end, i.body_length_read)

  field-InHeader :
      (r : HttpRequest)
      → InHeader r
      → Whenever (λ x. InHeader x.0) (HttpRequest.callback has_body r (header_field 2 1))
  unfolding HttpRequest.callback HttpRequest.on_header_field
  field-InHeader r i = ground (arith, i)

  value-InHeader :
      (r : HttpRequest)
      → InHeader r
      → Whenever (λ x. InHeader x.0) (HttpRequest.callback has_body r (header_value 4 1))
  unfolding HttpRequest.callback HttpRequest.on_header_value
  value-InHeader r i = ground (arith, i)

  end-InBody :
      (r : HttpRequest)
      → InHeader r
      → Whenever (λ x. InBody 0 x.0) (HttpRequest.callback has_body r (headers_end 3 1))
  unfolding HttpRequest.callback HttpRequest.on_header_end
  end-InBody r i = ground (arith, i.message_end, i.header_end, i.body_length_read)

  body-InBody :
      (r : HttpRequest)
      → InBody 0 r
      → Whenever (λ x. InBody 1 x.0) (HttpRequest.callback has_body r (body_part 6 1))
  unfolding HttpRequest.callback HttpRequest.on_body
  body-InBody r i = ground (arith, i.message_end, i.body_length_read)

  ends-Left :
      (r : HttpRequest)
      → InBody 1 r
      → Whenever Left (HttpRequest.run has_body r (message_ends ∷ []))
  unfolding Left HttpRequest.run HttpRequest.callback HttpRequest.on_msg_end
  ends-Left r i = ground (arith, i.message_end, i.body_length_read)

  pub whole_message-Left :
      (r : HttpRequest)
      → r.message_end ≡ false
      → r.header_end ≡ false
      → r.body_length_read ≡ 0
      → Whenever Left (HttpRequest.run has_body r whole_message)
  unfolding HttpRequest.run
  whole_message-Left r e f g =
      let ended : List Event = headers_end 3 1 ∷ body_part 6 1 ∷ message_ends ∷ [] in
      let i : InHeader r = record { message_end = e; header_end = f; body_length_read = g } in
      run_on InHeader _ (header_field 2 1 ∷ header_value 4 1 ∷ ended) (url-InHeader r i) λ r₁ i₁.
        run_on InHeader _ (header_value 4 1 ∷ ended) (field-InHeader r₁ i₁) λ r₂ i₂.
          run_on InHeader _ ended (value-InHeader r₂ i₂) λ r₃ i₃.
            run_on (InBody 0) _ (body_part 6 1 ∷ message_ends ∷ []) (end-InBody r₃ i₃) λ r₄ i₄.
              run_on (InBody 1) _ (message_ends ∷ []) (body-InBody r₄ i₄) λ r₅ i₅. ends-Left r₅ i₅
