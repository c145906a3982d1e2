-- ===== src/Listener/Requests.antt =====
-- A request that has arrived (on_client_request_received of runtime/src/listener_thread.c): its
-- route, the admissions control, the sandbox and the global queue.
use sledge_serverless_framew.Base.{
  ℕ, ◌+◌, ◌≤◌, ◌<◌, ◌^◌, ◌≡◌, refl, ap, Bool, true, false, ◌||◌, Option, none, some, List, [], ◌++◌,
  Run, ok, ◌>>=◌, ◌>>◌, assert, if◌then◌else◌, ◌==◌, arith, inl, inr, Returns, Returns-map,
  Option-cases,
}
use sledge_serverless_framew.Admissions
use sledge_serverless_framew.Admissions.{Control}
use sledge_serverless_framew.Admissions.Decide.{decide_correct}
use sledge_serverless_framew.Sandbox as SandboxStates
use sledge_serverless_framew.Listener.{
  State, received_request, executing, execution_complete, Session, Write, is,
  on_client_response_header_sending,
}
use sledge_serverless_framew.Listener.Respond.{Ready, Answered, Outcome-Answered, respond_correct}
use sledge_serverless_framew.Listener.Router.{match_route}

-- What is not the listener's: the routes of the tenant and their estimates, whether sandbox_alloc gives
-- NULL, whether the global queue is full, and the header that http_header_build gives.
pub record Environment : Type 0 where
  pub routes : List (List ℕ)
  pub estimate : ℕ → ℕ
  pub no_sandbox : Bool
  pub queue_full : Bool
  pub header : ℕ → List ℕ

-- The admissions control, the session, and the route whose sandbox went to the global queue.
pub record Received : Type 0 where
  pub control : Control
  pub session : Session
  pub queued : Option ℕ

-- The state that sandbox_alloc leaves, by the sandbox_set_as_initialized at the end of sandbox_init.
abbrev pub sandbox_alloc : SandboxStates.State
sandbox_alloc = SandboxStates.initialized

-- The assertion of sandbox_free on the state of the sandbox.
abbrev pub sandbox_free : SandboxStates.State → Run (Unit {0})
sandbox_free state = assert (
    SandboxStates.index state == SandboxStates.index SandboxStates.error
    || SandboxStates.index state == SandboxStates.index SandboxStates.complete)

module _ (env : Environment) (answers : List Write) where
  -- The lines that answer a request which is not executed.
  unfoldable pub refuse : ℕ → Session → Run Session
  refuse status s = on_client_response_header_sending answers (record s {
    state = execution_complete;
    response_header = s.response_header ++ env.header status;
  })

  unfoldable pub on_client_request_received : List ℕ → Control → Session → Run Received
  on_client_request_received url c s = do
    assert (is received_request s)
    elim (match_route env.routes url) [
      | none ↦ (do s' ← refuse 404 s; ok (record { control = c; session = s'; queued = none }))
      | some route ↦ (do
        let s₁ : Session = record s { route = some route }
        (c', work_admitted) ← Admissions.decide c (env.estimate route)
        if work_admitted == 0
            then (do s' ← refuse 429 s₁; ok (record { control = c'; session = s'; queued = none }))
            else if env.no_sandbox
            then (do
              s' ← refuse 500 (record s₁ { state = executing })
              ok (record { control = c'; session = s'; queued = none }))
            else if env.queue_full
            then (do
              sandbox_free sandbox_alloc
              s' ← refuse 429 (record s₁ { state = executing })
              ok (record { control = c'; session = s'; queued = none }))
            else ok (record {
              control = c';
              session = record s₁ { state = executing };
              queued = some route;
            }))
    ]

  -- A session whose request has arrived, and of whose response nothing is written.
  pub record Arrived (s : Session) : Type 0 where
    pub state : s.state ≡ received_request
    pub no_header : s.response_header ≡ []
    pub no_body : s.response_body ≡ []
    pub header_written : s.response_header_written ≡ 0
    pub body_written : s.response_body_written ≡ 0
    pub unregistered : s.registered ≡ false
    pub client : s.client ≡ []
    pub closed : s.closed ≡ 0
    pub freed : s.freed ≡ false

  -- The header for the status is on its way: the client has all of it and the session is gone, or a
  -- part of it, and the session waits, or an error of the socket has ended it.
  abbrev pub Refused : ℕ → Session → Type 0
  Refused status s = Answered (env.header status) [] answers s

  pub refuse-Refused :
      (status : ℕ) (s : Session) (state : State) (route : Option ℕ)
      → Arrived s
      → Returns (Refused status) (refuse status (record s { state = state; route = route }))
  unfolding refuse
  refuse-Refused status s state route a =
      let s₁ : Session = record s {
        state = execution_complete;
        response_header = s.response_header ++ env.header status;
        route = route;
      } in
      let ready : Ready (env.header status) [] s₁ = record {
        in_use = record {
          header = ap (λ h. h ++ env.header status) a.no_header;
          body = a.no_body;
          closed = a.closed;
          freed = a.freed;
        };
        state = refl;
        unregistered = a.unregistered;
        no_header = a.header_written;
        no_body = a.body_written;
        client = a.client;
      } in
      Returns-map (on_client_response_header_sending answers s₁)
        (respond_correct (env.header status) [] answers s₁ ready) (λ r out. Outcome-Answered out)

  -- The three ends of a request when a sandbox can be had and the queue has room.
  pub data Verdict (url : List ℕ) (c : Control) (s : Session) (r : Received) : Type 0 where
    not_found :
        match_route env.routes url ≡ none
        → r.control ≡ c
        → r.queued ≡ none
        → Refused 404 r.session
        → Verdict url c s r
    too_many :
        (route : ℕ)
        → match_route env.routes url ≡ some route
        → c.capacity ≤ c.admitted + env.estimate route
        → r.control ≡ c
        → r.queued ≡ none
        → Refused 429 r.session
        → Verdict url c s r
    executes :
        (route : ℕ)
        → match_route env.routes url ≡ some route
        → c.admitted + env.estimate route < c.capacity
        → r.control.admitted ≡ c.admitted + env.estimate route
        → r.queued ≡ some route
        → r.session ≡ record s { state = executing; route = some route }
        → Verdict url c s r

  admitted-by :
      (c c' : Control) (estimate : ℕ)
      → Admissions.subtract c' estimate ≡ ok c
      → c'.admitted ≡ c.admitted + estimate
  unfolding Admissions.subtract
  admitted-by c c' estimate e = ground (arith, e)

  module _ (url : List ℕ) (c : Control) (s : Session) (a : Arrived s)
      (positive : (route : ℕ) → 0 < env.estimate route)
      (fits : (route : ℕ) → c.admitted + env.estimate route < 2 ^ 64) where
    -- on_client_request_received, when a sandbox can be allocated and the global queue has room,
    -- returns: a URL without a route gets the header for 404, a request whose estimate would reach
    -- the capacity the one for 429, as far as the socket takes it, both without a change of the
    -- admitted total; any other is admitted and queued, with its route, and nothing is answered
    -- yet. Estimates are positive, and their sums with the admitted total fit 64 bits; nothing of a
    -- response is there before.
    pub received_correct :
        env.no_sandbox ≡ false
        → env.queue_full ≡ false
        → Returns (Verdict url c s) (on_client_request_received url c s)
    unfolding on_client_request_received
    received_correct alloc room = elim (Option-cases (match_route env.routes url)) [
      | inl e ↦
          let (s', run, refused) = refuse-Refused 404 s s.state s.route a in
          (
            record { control = c; session = s'; queued = none },
            ground (arith, a.state, e, run),
            not_found e refl refl refused,
          )
      | inr (route, e) ↦
          let ((c', work), d, verdict) =
            decide_correct c (env.estimate route) (positive route) (fits route) in
          elim verdict [
            | inl (full, zero, same) ↦
                let (s', run, refused) = refuse-Refused 429 s s.state (some route) a in
                (
                  record { control = c'; session = s'; queued = none },
                  ground (arith, a.state, e, d, zero, run),
                  too_many route e full same refl refused,
                )
            | inr (space, is, below, capacity, back) ↦ (
              record {
                control = c';
                session = record s { state = executing; route = some route };
                queued = some route;
              },
              ground (arith, a.state, e, d, is, positive route, alloc, room),
              executes route e space (admitted-by c c' (env.estimate route) back) refl refl,
            )
          ]
    ]

    -- A request that is admitted and finds no memory for its sandbox is answered with 500, but the
    -- work that was admitted for it is not given back: the total keeps it.
    pub received-leaks :
        (route : ℕ)
        → match_route env.routes url ≡ some route
        → c.admitted + env.estimate route < c.capacity
        → env.no_sandbox ≡ true
        → Returns
            (λ r.
              (r.queued ≡ none)
              × (r.control.admitted ≡ c.admitted + env.estimate route)
              × Refused 500 r.session)
            (on_client_request_received url c s)
    unfolding on_client_request_received
    received-leaks route e space alloc =
        let ((c', work), d, verdict) =
          decide_correct c (env.estimate route) (positive route) (fits route) in
        elim verdict [
          | inl (full, zero, same) ↦ absurd (omega (arith, full, space))
          | inr (space', is, below, capacity, back) ↦
              let (s', run, refused) = refuse-Refused 500 s executing (some route) a in
              (
                record { control = c'; session = s'; queued = none },
                ground (arith, a.state, e, d, is, positive route, alloc, run),
                (refl, admitted-by c c' (env.estimate route) back, refused),
              )
        ]
