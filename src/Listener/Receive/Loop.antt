-- ===== src/Listener/Receive/Loop.antt =====
-- The loop of http_session_receive_request (runtime/include/http_session.h).
use mathlib.Core.List.{append-nil, append_assoc}
use sledge_serverless_framew.Base.{
  Run, Fault, fault, ◌⊎◌, ℕ, ◌≡◌, refl, sym, ◌∙◌, ap, Bool, true, false, List, [], ◌∷◌, ◌++◌,
  Returns, arith, length, inl, inr, Bool-cases,
}
use sledge_serverless_framew.Listener.{
  receiving_request, receive_request_blocked, received_request, Session, Rc, done, eagain, failed,
  register,
}
use sledge_serverless_framew.Listener.Receive.{
  Read, bytes, no_data, broken_read, Parser, Reader, with_state, finished, blocks, receive,
}
use sledge_serverless_framew.Listener.Receive.Incoming.{
  Conforms, Reading, CallbackFails, append-Goes, parse-Goes,
}

-- The bytes of the reads.
abbrev pub bytes_of : List Read → List ℕ
bytes_of [] = []
bytes_of (bytes temp ∷ reads) = temp ++ bytes_of reads
bytes_of (_ ∷ reads) = bytes_of reads

module _ {P : Type 0} (parser : Parser P) (law : Conforms parser) (moves : ℕ → Bool) where
  -- How the loop ends, at the reads that it has taken.
  pub data Received (reads : List Read) (r : Reader P) : List Read × Reader P × Rc → Type 0 where
    complete :
        (taken left : List Read) (r' : Reader P)
        → taken ++ left ≡ reads
        → r'.request_buffer ≡ r.request_buffer ++ bytes_of taken
        → r'.request.message_end ≡ true
        → r'.session ≡ record r.session { state = received_request }
        → Received reads r (left, r', done)
    waits :
        (taken left : List Read) (r' : Reader P)
        → taken ++ left ≡ reads
        → r'.request_buffer ≡ r.request_buffer ++ bytes_of taken
        → r'.request.message_end ≡ false
        → Reading parser law moves r'
        → r'.session ≡ record r.session { state = receive_request_blocked; registered = true }
        → Received reads r (left, r', eagain)
    gives_up :
        (left : List Read) (r' : Reader P)
        → r'.session ≡ r.session
        → Received reads r (left, r', failed)

  -- The process stops, since a callback has failed at the bytes that came; `before` was in the buffer.
  pub record Stopped {ℓ} {A : Type ℓ} (reads : List Read) (before : List ℕ) (run : Run A)
      : Type ℓ where
    pub taken : List Read
    pub left : List Read
    pub reader : Reader P
    pub reason : Fault
    pub parts : taken ++ left ≡ reads
    pub buffer : reader.request_buffer ≡ before ++ bytes_of taken
    pub callbacks : CallbackFails parser law moves reader reason
    pub stops : run ≡ fault reason

  finished-Received :
      (reads : List Read) (r : Reader P)
      → r.request.message_end ≡ true
      → Received reads r (finished reads r)
  finished-Received reads r end =
      complete [] reads (with_state received_request r) refl (sym (append-nil r.request_buffer)) end
        refl

  -- The socket blocks after `taken`, which has no bytes.
  blocks-Received :
      (taken left reads : List Read) (r : Reader P)
      → taken ++ left ≡ reads
      → bytes_of taken ≡ []
      → Reading parser law moves r
      → r.session.state ≡ receiving_request
      → r.session.registered ≡ false
      → r.request.message_end ≡ false
      → Returns (Received reads r) (blocks left r)
  unfolding register
  blocks-Received taken left reads r parts no_bytes g e u more =
      let s : Session = record r.session { state = receive_request_blocked; registered = true } in
      (
        (left, record r { session = s }, eagain),
        ground (arith, e, u),
        waits taken left (record r { session = s }) parts
            (sym (append-nil r.request_buffer) ∙ ap (λ l. r.request_buffer ++ l) (sym no_bytes))
            more (record { fits = g.fits; parsed = g.parsed }) refl,
      )

  -- A round that has taken `temp`, and the rest.
  Received-after :
      (temp : List ℕ) (reads : List Read) (r r' : Reader P) (out : List Read × Reader P × Rc)
      → r'.request_buffer ≡ r.request_buffer ++ temp
      → r'.session ≡ r.session
      → Received reads r' out
      → Received (bytes temp ∷ reads) r out
  Received-after temp reads r r' out buffer same (complete taken left end parts all ended state) =
      complete (bytes temp ∷ taken) left end (ap (λ l. bytes temp ∷ l) parts)
        (all
          ∙ ap (λ l. l ++ bytes_of taken) buffer
          ∙ append_assoc r.request_buffer temp (bytes_of taken))
        ended (state ∙ ap {A = Session} (λ s. record s { state = received_request }) same)
  Received-after temp reads r r' out buffer same
        (waits taken left end parts all more reading state) =
      waits (bytes temp ∷ taken) left end (ap (λ l. bytes temp ∷ l) parts)
        (all
          ∙ ap (λ l. l ++ bytes_of taken) buffer
          ∙ append_assoc r.request_buffer temp (bytes_of taken))
        more reading
        (state
          ∙ ap {A = Session} (λ s. record s { state = receive_request_blocked; registered = true })
              same)
  Received-after temp reads r r' out buffer same (gives_up left end state) =
      gives_up left end (state ∙ same)

  pub receive-Received :
      (reads : List Read) (r : Reader P)
      → Reading parser law moves r
      → r.session.state ≡ receiving_request
      → r.session.registered ≡ false
      → Stopped reads r.request_buffer (receive parser moves reads r)
        ⊎ Returns (Received reads r) (receive parser moves reads r)
  unfolding receive
  receive-Received [] r g e u = inr (elim (Bool-cases r.request.message_end) [
    | inl end ↦ (finished [] r, ground (arith, end), finished-Received [] r end)
    | inr more ↦
        let (out, run, so) = blocks-Received [] [] [] r refl refl g e u more in
        (out, ground (arith, more, run), so)
  ])
  receive-Received (no_data ∷ reads) r g e u = inr (elim (Bool-cases r.request.message_end) [
    | inl end ↦
        let all = no_data ∷ reads in
        (finished all r, ground (arith, end), finished-Received all r end)
    | inr more ↦
        let (out, run, so) =
          blocks-Received (no_data ∷ []) reads (no_data ∷ reads) r refl refl g e u more in
        (out, ground (arith, more, run), so)
  ])
  receive-Received (broken_read ∷ reads) r g e u = inr (elim (Bool-cases r.request.message_end) [
    | inl end ↦
        let all = broken_read ∷ reads in
        (finished all r, ground (arith, end), finished-Received all r end)
    | inr more ↦ ((reads, r, failed), ground (arith, more), gives_up reads r refl)
  ])
  receive-Received (bytes [] ∷ reads) r g e u = inr (elim (Bool-cases r.request.message_end) [
    | inl end ↦
        let all = bytes [] ∷ reads in
        (finished all r, ground (arith, end), finished-Received all r end)
    | inr more ↦ ((reads, r, failed), ground (arith, more), gives_up reads r refl)
  ])
  receive-Received (bytes (b ∷ temp) ∷ reads) r g e u = elim (Bool-cases r.request.message_end) [
    | inl end ↦
        let all = bytes (b ∷ temp) ∷ reads in
        inr (finished all r, ground (arith, end), finished-Received all r end)
    | inr more ↦
        let (r₁, run₁, (goes, reading₁, more₁)) =
          append-Goes parser law moves (moves (length r.request_buffer)) (b ∷ temp) r g more in
        elim (parse-Goes parser law moves r₁ reading₁ more₁) [
          | inl (reason, callbacks, run₂) ↦ inl (record {
            taken = bytes (b ∷ temp) ∷ [];
            left = reads;
            reader = r₁;
            reason = reason;
            parts = refl;
            buffer = goes.buffer ∙ ap (λ l. r.request_buffer ++ l) (sym (append-nil (b ∷ temp)));
            callbacks = callbacks;
            stops = ground (arith, more, run₁, run₂);
          })
          | inr ((r₂, malformed), run₂, (buffer, same, reading₂)) ↦ elim (Bool-cases malformed) [
            | inl bad ↦ inr (
              (reads, r₂, failed),
              ground (arith, more, run₁, run₂, bad),
              gives_up reads r₂ (same ∙ goes.session),
            )
            | inr fine ↦
                let s = same ∙ goes.session in
                elim (receive-Received reads r₂ (reading₂ fine) (ap (λ x. x.state) s ∙ e)
                  (ap (λ x. x.registered) s ∙ u)) [
                    | inl stop ↦ inl (record {
                      taken = bytes (b ∷ temp) ∷ stop.taken;
                      left = stop.left;
                      reader = stop.reader;
                      reason = stop.reason;
                      parts = ap (λ l. bytes (b ∷ temp) ∷ l) stop.parts;
                      buffer =
                          stop.buffer
                          ∙ ap (λ l. l ++ bytes_of stop.taken) (buffer ∙ goes.buffer)
                          ∙ append_assoc r.request_buffer (b ∷ temp) (bytes_of stop.taken);
                      callbacks = stop.callbacks;
                      stops = ground (arith, more, run₁, run₂, fine, stop.stops);
                    })
                    | inr (out, run, so) ↦ inr (
                      out,
                      ground (arith, more, run₁, run₂, fine, run),
                      Received-after (b ∷ temp) reads r r₂ out (buffer ∙ goes.buffer) s so,
                    )
                  ]
          ]
        ]
  ]
