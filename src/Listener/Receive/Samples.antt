-- ===== src/Listener/Receive/Samples.antt =====
-- A parser of messages of a given length, as http_parser_execute is used.
use sledge_serverless_framew.Base.{
  ℕ, suc, ◌+◌, ◌-◌, ◌≤◌, ◌<◌, ◌≡◌, refl, Bool, true, false, List, [], leb, if◌then◌else◌, arith,
  length, Whenever, Run, ok, fault, inl, inr,
}
use sledge_serverless_framew.HttpRequest
use sledge_serverless_framew.HttpRequest.{HttpRequest, Rc}
use sledge_serverless_framew.HttpRequest.Samples.{Left, whole_message, whole_message-Left}
use sledge_serverless_framew.Listener.Receive.{Parser, is_refused}
use sledge_serverless_framew.Listener.Receive.Incoming.{IsSound, Conforms}

-- The message has one byte more than the state of the parser.
abbrev pub counting : Parser ℕ
counting = record {
  execute = λ p xs.
      if leb (length xs) p
      then (p - length xs, [], length xs, true)
      else (p, whole_message, suc p, true);
  has_body = λ method. true;
}

pub record Fits (p : ℕ) (q : HttpRequest) (n : ℕ) : Type 0 where
  pub nothing_read : q.body_length_read ≤ 1
  pub header : q.header_end ≡ true → 1 < n
  pub open_header : q.message_end ≡ false → q.header_end ≡ false
  pub fresh : q.message_end ≡ false → q.body_length_read ≡ 0
  pub some_bytes : 0 < p + n

pub leb-long : (a b : ℕ) → leb a b ≡ false → b < a
leb-long a b e = ground (arith, e)

pub leb-short : (a b : ℕ) → leb a b ≡ true → a ≤ b
leb-short a b e = ground (arith, e)

-- What the callbacks leave of a whole message, when they return.
whole-Fits :
    (p n : ℕ) (q : HttpRequest) (m : Run (HttpRequest × Rc))
    → Fits p q n
    → Whenever Left m
    → Whenever (λ r. is_refused r.1 ≡ false → true ≡ true → Fits p r.0 (n + suc p)) m
unfolding Left
whole-Fits p n q (fault e) f w = tt
whole-Fits p n q (ok (r, rc)) f (inl e) = λ a b. absurd (ground (arith, e, a))
whole-Fits p n q (ok (r, rc)) f (inr (e, read)) = λ a b. record {
  nothing_read = omega (arith, read);
  header = λ h. omega (arith, f.some_bytes);
  open_header = λ h. absurd (ground (arith, e, h));
  fresh = λ h. absurd (ground (arith, e, h));
  some_bytes = omega (arith, f.some_bytes);
}

pub counting-IsSound :
    (p : ℕ) (q : HttpRequest) (n : ℕ) (xs : List ℕ) (short : Bool)
    → (short ≡ true → length xs ≤ p)
    → (short ≡ false → p < length xs)
    → Fits p q n
    → q.message_end ≡ false
    → IsSound Fits counting.has_body q n xs
        (if short then (p - length xs, [], length xs, true) else (p, whole_message, suc p, true))
unfolding HttpRequest.run
counting-IsSound p q n xs true h' h f e = (
  omega arith,
  λ a b. record {
    nothing_read = f.nothing_read;
    header = λ ended. omega (arith, f.header ended);
    open_header = f.open_header;
    fresh = f.fresh;
    some_bytes = omega (arith, f.some_bytes, h' refl);
  },
)
counting-IsSound p q n xs false h' h f e = (
  omega (arith, h refl),
  whole-Fits p n q (HttpRequest.run counting.has_body q whole_message) f
      (whole_message-Left counting.has_body q e (f.open_header e) (f.fresh e)),
)

pub counted_lem :
    (p : ℕ) (q : HttpRequest) (n : ℕ) → Fits p q n → q.header_end ≡ true → q.body_length_read < n
counted_lem p q n f e = omega (arith, f.nothing_read, f.header e)

unfoldable pub counting-Conforms : Conforms counting
counting-Conforms = record {
  expects = Fits;
  moved = λ p q n body f. record {
    nothing_read = f.nothing_read;
    header = f.header;
    open_header = f.open_header;
    fresh = f.fresh;
    some_bytes = f.some_bytes;
  };
  counted = λ p q n f e. counted_lem p q n f e;
  runs = λ p q n xs f e.
      counting-IsSound p q n xs (leb (length xs) p) (leb-short (length xs) p)
        (leb-long (length xs) p) f e;
}
