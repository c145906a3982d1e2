-- ===== src/Listener/Receive/Incoming.antt =====
-- One round of reading a request (http_session_parse and http_session_receive_request of
-- runtime/include/http_session.h), and what the code relies on of the HTTP parser.
use mathlib.Core.Path.{subst}
use sledge_serverless_framew.Base.{
  Fault, fault, ◌⊎◌, Whenever, Run-cases, ℕ, ◌+◌, ◌-◌, ◌≤◌, ◌<◌, ◌≡◌, refl, Bool, true, false, ◌||◌,
  not, Option, none, some, List, ◌++◌, Returns, if◌then◌else◌, ◌==◌, ltb, arith, length, length-++,
  length-drop, drop, inl, inr, Bool-cases,
}
use sledge_serverless_framew.HttpRequest
use sledge_serverless_framew.HttpRequest.{HttpRequest, Event}
use sledge_serverless_framew.Listener.Receive.{Parser, Reader, is_refused, parse, append, relocated}

-- What a call of the parser leaves: it parses no more bytes than it is given, and if the callbacks
-- that it makes return, the parser and the request fit again. That they return is not relied on.
abbrev pub IsSound :
    {P : Type 0}
    → (P → HttpRequest → ℕ → Type 0)
    → (ℕ → Bool)
    → HttpRequest
    → ℕ
    → List ℕ
    → P × List Event × ℕ × Bool
    → Type 0
IsSound expects has_body q n given out =
    (out.2 ≤ length given)
    × Whenever (λ r. is_refused r.1 ≡ false → out.3 ≡ true → expects out.0 r.0 (n + out.2))
        (HttpRequest.run has_body q out.1)

-- What the code relies on of http_parser_execute: `expects p q n` tells that the parser and the request
-- fit when `n` bytes are parsed. The place of the body is the request's own matter, and the bytes of a
-- body follow those of a header.
pub record Conforms {P : Type 0} (parser : Parser P) : Type 1 where
  pub expects : P → HttpRequest → ℕ → Type 0
  pub moved :
      (p : P) (q : HttpRequest) (n : ℕ) (body : Option ℕ)
      → expects p q n
      → expects p (record q { body = body }) n
  pub counted :
      (p : P) (q : HttpRequest) (n : ℕ)
      → expects p q n
      → q.header_end ≡ true
      → q.body_length_read < n
  pub runs :
      (p : P) (q : HttpRequest) (n : ℕ) (given : List ℕ)
      → expects p q n
      → q.message_end ≡ false
      → IsSound expects parser.has_body q n given (parser.execute p given)

module _ {P : Type 0} (parser : Parser P) (law : Conforms parser) (moves : ℕ → Bool) where
  pub record Reading (r : Reader P) : Type 0 where
    pub fits : law.expects r.parser r.request r.length_parsed
    pub parsed : r.length_parsed ≤ length r.request_buffer

  -- What a round of the loop leaves alone.
  pub record Goes (r : Reader P) (temp : List ℕ) (r' : Reader P) : Type 0 where
    pub buffer : r'.request_buffer ≡ r.request_buffer ++ temp
    pub session : r'.session ≡ r.session

  header_before_body :
      (r : Reader P)
      → Reading r
      → (not r.request.header_end || ltb 0 (length r.request_buffer - r.request.body_length_read))
        ≡ true
  header_before_body r g = elim (Bool-cases r.request.header_end) [
    | inl e ↦ ground (arith, e, g.parsed, law.counted r.parser r.request r.length_parsed g.fits e)
    | inr e ↦ ground (arith, e)
  ]

  pub append-Goes :
      (moved : Bool) (temp : List ℕ) (r : Reader P)
      → Reading r
      → r.request.message_end ≡ false
      → Returns
          (λ r'. Goes r temp r' × Reading r' × (r'.request.message_end ≡ false))
          (append moved temp r)
  unfolding append
  append-Goes true temp r g e =
      let header_length = length r.request_buffer - r.request.body_length_read in
      (
        record r {
          request_buffer = r.request_buffer ++ temp;
          request = relocated r.request header_length;
        },
        ground (arith, header_before_body r g),
        (
          record { buffer = refl; session = refl },
          record {
            fits =
                law.moved r.parser r.request r.length_parsed
                  (if header_length == 0 then none else some header_length) g.fits;
            parsed = omega (arith, g.parsed, length-++ r.request_buffer temp);
          },
          e,
        ),
      )
  append-Goes false temp r g e = (
    record r { request_buffer = r.request_buffer ++ temp },
    ground (arith, header_before_body r g),
    (
      record { buffer = refl; session = refl },
      record { fits = g.fits; parsed = omega (arith, g.parsed, length-++ r.request_buffer temp) },
      e,
    ),
  )

  -- A callback fails an assertion or overruns an array, at what the buffer holds.
  abbrev pub CallbackFails : Reader P → Fault → Type 0
  CallbackFails r e =
      HttpRequest.run parser.has_body r.request
        (parser.execute r.parser (drop r.length_parsed r.request_buffer)).1
      ≡ fault e

  pub parse-Goes :
      (r : Reader P)
      → Reading r
      → r.request.message_end ≡ false
      → ((e : Fault) × CallbackFails r e × (parse parser r ≡ fault e))
        ⊎ Returns
            (λ out.
              (out.0.request_buffer ≡ r.request_buffer)
              × (out.0.session ≡ r.session)
              × (out.1 ≡ false → Reading out.0))
            (parse parser r)
  unfolding parse
  parse-Goes r g e =
      let rest = drop r.length_parsed r.request_buffer in
      let (p', events, parsed, fine) = parser.execute r.parser rest in
      let (le, next) = law.runs r.parser r.request r.length_parsed rest g.fits e in
      elim (Run-cases (HttpRequest.run parser.has_body r.request events)) [
        | inr (reason, run) ↦ inl (reason, run, ground (arith, run))
        | inl ((q', rc), run) ↦ inr (elim (Bool-cases (is_refused rc || not fine)) [
          | inl bad ↦ (
            (record r { parser = p'; request = q' }, true),
            ground (arith, run, bad),
            (refl, refl, λ x. absurd (ground (arith, x))),
          )
          | inr good ↦ (
            (
              record r { parser = p'; request = q'; length_parsed = r.length_parsed + parsed },
              false,
            ),
            ground (arith, run, good),
            (
              refl,
              refl,
              λ x. record {
                fits =
                    subst
                      (Whenever (λ z.
                        is_refused z.1 ≡ false
                        → fine ≡ true
                        → law.expects p' z.0 (r.length_parsed + parsed)))
                      run next (ground (arith, good)) (ground (arith, good));
                parsed = omega (arith, le, length-drop r.length_parsed r.request_buffer g.parsed);
              },
            ),
          )
        ])
      ]
