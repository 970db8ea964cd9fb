-- ===== src/System/Bodies.antt =====
-- The bodies of the transactions leave the environment friendly.
use payment_orchestration_pl.Prelude.{ℕ, String, Option, none, some}
use payment_orchestration_pl.Errors.{Thrown}
use payment_orchestration_pl.DataAccess.Rows.{IdempotencyRecord, PaymentRecord, PaymentEventType}
use payment_orchestration_pl.Json.{Fields}
use payment_orchestration_pl.Exec.Keeps.{Keeps, keeps_rules}
use payment_orchestration_pl.Providers.Contract.{
  PaymentProvider, AuthorizePaymentResult, CapturePaymentInput, CapturePaymentResult,
}
use payment_orchestration_pl.Outbox.Service.{
  record_event, record_payment_authorized, record_payment_captured, record_payment_failed,
}
use payment_orchestration_pl.Idempotency.Service.{Started, mark_completed, or_lost}
use payment_orchestration_pl.Payments.Commands.{
  CreatePaymentCommand, CapturePaymentCommand, call_capture, record_authorization, record_capture,
  or_throw,
}
use payment_orchestration_pl.Payments.Service.{
  PaymentsService, complete, persist_authorization, persist_capture, capture_payment,
  capture_in_transaction,
}
use payment_orchestration_pl.System.Runs.{
  InFriendly, later-Friendly, friendly-random_uuid, friendly-query,
}

friendly-call_capture :
    (provider : PaymentProvider) (input : CapturePaymentInput)
    → Keeps InFriendly (call_capture provider input)
unfolding call_capture
friendly-call_capture provider input = record { keeps = λ w h. later-Friendly w.ticks h }

ruleset friendly_rules = (keeps_rules, friendly-random_uuid, friendly-query, friendly-call_capture)

friendly-record_event :
    (t : PaymentEventType) (corr : String) (p : PaymentRecord) (fs : Fields)
    → Keeps InFriendly (record_event t corr p fs)
unfolding record_event
friendly-record_event t corr p fs = search friendly_rules

friendly-record_authorization :
    (corr : String) (answer : AuthorizePaymentResult) (p : PaymentRecord)
    → Keeps InFriendly (record_authorization corr answer p)
unfolding record_authorization record_payment_authorized record_payment_failed
friendly-record_authorization corr (AuthorizePaymentResult.approved a b) p =
    search (friendly_rules, friendly-record_event)
friendly-record_authorization corr _ p = search (friendly_rules, friendly-record_event) depth 8

friendly-record_capture :
    (corr : String) (answer : CapturePaymentResult) (p : PaymentRecord)
    → Keeps InFriendly (record_capture corr answer p)
unfolding record_capture record_payment_captured record_payment_failed
friendly-record_capture corr (CapturePaymentResult.approved a) p =
    search (friendly_rules, friendly-record_event)
friendly-record_capture corr _ p = search (friendly_rules, friendly-record_event) depth 8

pub friendly-or_lost : (o : Option IdempotencyRecord) → Keeps InFriendly (or_lost o)
friendly-or_lost none = search keeps_rules
friendly-or_lost (some r) = search keeps_rules

friendly-complete :
    (s : PaymentsService) (d : Started) (code : ℕ) (p : PaymentRecord)
    → Keeps InFriendly (complete s d code p)
unfolding complete mark_completed
friendly-complete s d code p = search (friendly_rules, friendly-or_lost) depth 8

pub friendly-persist_authorization :
    (s : PaymentsService) (c : CreatePaymentCommand) (d : Started) (answer : AuthorizePaymentResult)
    (now : ℕ)
    → Keeps InFriendly (persist_authorization s c d answer now)
unfolding persist_authorization
friendly-persist_authorization s c d answer now =
    search (friendly_rules, friendly-record_authorization, friendly-complete)

pub friendly-or_throw : {A : Type 0} (e : Thrown) (o : Option A) → Keeps InFriendly (or_throw e o)
friendly-or_throw e none = search keeps_rules
friendly-or_throw e (some a) = search keeps_rules

ruleset body_rules = (friendly_rules, friendly-record_capture, friendly-complete, friendly-or_throw)

friendly-persist_capture :
    (s : PaymentsService) (c : CapturePaymentCommand) (d : Started) (p : PaymentRecord)
    (answer : CapturePaymentResult)
    → Keeps InFriendly (persist_capture s c d p answer)
unfolding persist_capture
friendly-persist_capture s c d p answer = search body_rules depth 9

pub friendly-capture_in_transaction :
    (s : PaymentsService) (c : CapturePaymentCommand) (d : Started)
    → Keeps InFriendly (capture_in_transaction s c d)
unfolding capture_in_transaction capture_payment
friendly-capture_in_transaction s c d = search (body_rules, friendly-persist_capture) depth 9
