-- ===== src/Messaging/Connections/Ending.antt =====
-- How `close` of services/payment-service/src/messaging/rabbitmq-connection-manager.ts ends.
use payment_orchestration_pl.Prelude.{
  ℕ, ◌+◌, ◌-◌, ◌≤◌, ◌≡◌, Bool, true, Option, none, some, List, [], ◌∷◌, is_some, arith, length,
  if◌then◌else◌,
}
use payment_orchestration_pl.Messaging.Connections.{
  Stage, dialing, refusing, creating, asserting, abandoning, CloseStage, waiting, closing_channel,
  closing_connection, done, Manager, Reply, connected, channel_created, exchange_asserted, rejected,
  resource_closed, resume, abandon, accept, detach_channel_listeners,
}
use payment_orchestration_pl.Messaging.Connections.Closing.{
  close, resume_close, take_resources, close_connection,
}
use payment_orchestration_pl.Messaging.Connections.Runs.{System, Reach}
use payment_orchestration_pl.Messaging.Connections.Invariant.{
  IsManaged, close-IsManaged, Reach-IsManaged,
}

-- An awaited call comes to a success, with a new object where it makes one, or to an error.
abbrev pub reply_of : Stage → Bool → ℕ → Reply
reply_of dialing succeeds n = if succeeds then connected n else rejected
reply_of (refusing c) succeeds n = resource_closed
reply_of (creating c) succeeds n = if succeeds then channel_created n else rejected
reply_of (asserting k) succeeds n = if succeeds then exchange_asserted else rejected
reply_of (abandoning c) succeeds n = resource_closed

-- The next await of a manager that is being closed settles.
unfoldable pub settle_next : Bool → ℕ → Manager → Manager
unfolding resume resume_close
settle_next succeeds n m = elim m.connecting [
  | some stage ↦ (resume stage (reply_of stage succeeds n) m).1
  | none ↦ elim m.close_promise [ some closing ↦ resume_close closing m | none ↦ m ]
]

unfoldable pub settle_all : List (Bool × ℕ) → Manager → Manager
unfolding settle_next
settle_all [] m = m
settle_all ((succeeds, n) ∷ outcomes) m = settle_all outcomes (settle_next succeeds n m)

-- The awaits that are left at most.
abbrev attempt_rest : Option Stage → ℕ
attempt_rest none = 0
attempt_rest (some (creating c)) = 3
attempt_rest (some dialing) = 2
attempt_rest (some (asserting k)) = 2
attempt_rest (some _) = 1

abbrev closing_rest : Option CloseStage → ℕ
closing_rest none = 0
closing_rest (some waiting) = 3
closing_rest (some (closing_channel c)) = 2
closing_rest (some closing_connection) = 1
closing_rest (some done) = 0

abbrev IsClosing : Manager → Type 0
IsClosing m = (m.closed ≡ true) × (is_some m.close_promise ≡ true)

abbrev rest : Manager → ℕ
rest m = attempt_rest m.connecting + closing_rest m.close_promise

settle_next-rest :
    (succeeds : Bool) (n : ℕ) (m : Manager)
    → IsClosing m
    → IsClosing (settle_next succeeds n m) × (rest (settle_next succeeds n m) ≤ rest m - 1)
unfolding settle_next resume accept abandon resume_close take_resources close_connection
    detach_channel_listeners
settle_next-rest succeeds n m h = ground arith

settle_all-rest :
    (outcomes : List (Bool × ℕ)) (m : Manager)
    → IsClosing m
    → IsClosing (settle_all outcomes m) × (rest (settle_all outcomes m) ≤ rest m - length outcomes)
unfolding settle_all
settle_all-rest [] m h = (h, omega arith)
settle_all-rest ((succeeds, n) ∷ outcomes) m h =
    let step = settle_next-rest succeeds n m h in
    let later = settle_all-rest outcomes (settle_next succeeds n m) step.0 in
    (later.0, omega (arith, step.1, later.1))

ended : (m : Manager) → IsClosing m → rest m ≡ 0 → m.close_promise ≡ some done
ended m h e = ground arith

-- `close`, called in any run of the connection manager, has ended after at most six awaits,
-- whether what is awaited succeeds or fails, a connection attempt that is under way included.
pub close-ends :
    {s : System}
    → Reach s
    → (outcomes : List (Bool × ℕ)) → 6 ≤ length outcomes
    → (settle_all outcomes (close s.manager)).close_promise ≡ some done
unfolding close take_resources close_connection detach_channel_listeners
close-ends {s} r outcomes l =
    let closed : IsManaged (close s.manager) = close-IsManaged s.manager (Reach-IsManaged r) in
    let h : IsClosing (close s.manager) = ground arith in
    let after = settle_all-rest outcomes (close s.manager) h in
    ended (settle_all outcomes (close s.manager)) after.0 (ground (arith, after.1))
