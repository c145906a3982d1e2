-- ===== src/Listener/Transmit.antt =====
-- The loop by which a session's header or body goes to its socket (runtime/include/http_session.h).
use sledge_serverless_framew.Base.{
  ℕ, ◌+◌, ◌-◌, ◌≤◌, ◌<◌, ◌≡◌, ◌≢◌, refl, ap, ◌∙◌, List, [], ◌∷◌, ◌++◌, if◌then◌else◌, leb, ltb,
  length, take, drop, arith, Bool-cases, inl, inr, take-drop,
}
use mathlib.Core.List.{append_assoc}
use sledge_serverless_framew.Listener.{
  Write, wrote, blocked, broken, Rc, done, eagain, failed, transmit,
}

-- The socket took the bytes in their order, none twice and none left out.
pub record Took (before : List ℕ) (buffer : List ℕ) (written : ℕ) (r : List Write × ℕ × List ℕ × Rc)
    : Type 0 where
  pub more : written ≤ r.1
  pub within : r.1 ≤ length buffer
  pub client : r.2 ≡ before ++ take r.1 buffer
  pub complete : r.3 ≡ done → r.1 ≡ length buffer
  pub incomplete : r.3 ≢ done → r.1 < length buffer

stays :
    (before buffer : List ℕ) (written : ℕ) (client : List ℕ) (left : List Write) (rc : Rc)
    → written ≤ length buffer
    → client ≡ before ++ take written buffer
    → (rc ≡ done → written ≡ length buffer)
    → (rc ≢ done → written < length buffer)
    → Took before buffer written (left, written, client, rc)
stays before buffer written client left rc w e c i = record {
  more = omega arith;
  within = w;
  client = e;
  complete = c;
  incomplete = i;
}

Took-earlier :
    (before buffer : List ℕ) (written later : ℕ) (r : List Write × ℕ × List ℕ × Rc)
    → written ≤ later
    → Took before buffer later r
    → Took before buffer written r
Took-earlier before buffer written later r le t = record {
  more = omega (arith, t.more);
  within = t.within;
  client = t.client;
  complete = t.complete;
  incomplete = t.incomplete;
}

pub transmit-Took :
    (answers : List Write) (before buffer : List ℕ) (written : ℕ) (client : List ℕ)
    → written ≤ length buffer
    → client ≡ before ++ take written buffer
    → Took before buffer written (transmit answers buffer written client)
unfolding transmit
transmit-Took [] before buffer written client w e = ground (arith, w, e)
transmit-Took (blocked ∷ answers) before buffer written client w e = ground (arith, w, e)
transmit-Took (broken ∷ answers) before buffer written client w e = ground (arith, w, e)
transmit-Took (wrote n ∷ answers) before buffer written client w e =
    elim (Bool-cases (leb (length buffer) written)) [
      | inl full ↦ ground (arith, w, e, full)
      | inr room ↦
          let sent = if ltb n (length buffer - written) then n + 1 else length buffer - written in
          let fits : written + sent ≤ length buffer = ground (arith, w) in
          let rest =
            transmit-Took answers before buffer (written + sent)
              (client ++ take sent (drop written buffer)) fits
              (ap (λ c. c ++ take sent (drop written buffer)) e
                ∙ append_assoc before (take written buffer) (take sent (drop written buffer))
                ∙ ap (λ l. before ++ l) (take-drop sent written buffer)) in
          rw room (Took-earlier before buffer written (written + sent) _ (omega arith) rest)
    ]

-- No answer is an error, and none blocks.
pub data AllWrites : List Write → Type 0 where
  no_more : AllWrites []
  one_more : (n : ℕ) (answers : List Write) → AllWrites answers → AllWrites (wrote n ∷ answers)

-- Every write takes a byte at least, until the buffer is written; then the answers are left over.
pub record Progressed (answers : List Write) (buffer : List ℕ) (written : ℕ)
    (r : List Write × ℕ × List ℕ × Rc) : Type 0 where
  pub rest : AllWrites r.0
  pub count : written + length answers ≤ r.1 + length r.0
  pub unbroken : r.3 ≢ failed
  pub used : r.3 ≡ eagain → length r.0 ≡ 0

pub transmit-Progressed :
    (answers : List Write) (buffer : List ℕ) (written : ℕ) (client : List ℕ)
    → AllWrites answers
    → written ≤ length buffer
    → Progressed answers buffer written (transmit answers buffer written client)
unfolding transmit length
transmit-Progressed [] buffer written client a h = elim (Bool-cases (leb (length buffer) written)) [
  | inl full ↦ rw full (record {
    rest = a;
    count = omega arith;
    unbroken = λ e. ground (arith, e);
    used = λ e. refl;
  })
  | inr room ↦ rw room (record {
    rest = a;
    count = omega arith;
    unbroken = λ e. ground (arith, e);
    used = λ e. refl;
  })
]
transmit-Progressed (wrote n ∷ answers) buffer written client (one_more _ _ a) h =
    elim (Bool-cases (leb (length buffer) written)) [
      | inl full ↦ rw full (record {
        rest = one_more n answers a;
        count = omega arith;
        unbroken = λ e. ground (arith, e);
        used = λ e. absurd (ground (arith, e));
      })
      | inr room ↦
          let sent = if ltb n (length buffer - written) then n + 1 else length buffer - written in
          let fits : written + sent ≤ length buffer = ground (arith, h) in
          let some : 0 < sent = ground arith in
          let rest =
            transmit-Progressed answers buffer (written + sent)
              (client ++ take sent (drop written buffer)) a fits in
          rw room (record {
            rest = rest.rest;
            count = omega (arith, rest.count, some);
            unbroken = rest.unbroken;
            used = rest.used;
          })
    ]
transmit-Progressed (blocked ∷ answers) buffer written client a h = elim a [ ]
transmit-Progressed (broken ∷ answers) buffer written client a h = elim a [ ]
