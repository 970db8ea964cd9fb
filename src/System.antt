-- ===== src/System.antt =====
-- The payment service as a whole: the atomic changes that its requests and its outbox worker make
-- to the database, and what any interleaving of them can lead to.
pub mod Runs
pub mod Bodies
pub mod Requests
pub mod Effects
pub mod Counts
pub mod Exactness
pub mod Lifecycle
pub mod Replay
pub mod Messages
mod Tests
use payment_orchestration_pl.Prelude.{ℕ, String, ◌≡◌, List, All}
use payment_orchestration_pl.Errors.{ok}
use payment_orchestration_pl.DataAccess.Rows.{Db, ResponseBody}
use payment_orchestration_pl.DataAccess.Idempotency.{
  TryInsertProcessingInput, MarkFailedInput, try_insert_processing, reactivate_failed,
  takeover_expired_processing, mark_failed,
}
use payment_orchestration_pl.DataAccess.Outbox.{
  MarkPublishFailedInput, mark_published, mark_publish_failed,
}
use payment_orchestration_pl.Exec.{World, Tick}
use payment_orchestration_pl.Providers.Contract.{AuthorizePaymentResult}
use payment_orchestration_pl.Idempotency.Service.{Started}
use payment_orchestration_pl.Payments.Commands.{CreatePaymentCommand, CapturePaymentCommand}
use payment_orchestration_pl.Payments.Service.{
  PaymentsService, persist_authorization, capture_in_transaction,
}

-- One committed change, by any request of any process.
pub data Step (db db' : Db) : Type 0 where
  start :
      (input : TryInsertProcessingInput) (id : String) (now : ℕ)
      → db' ≡ (try_insert_processing input id now db).1
      → Step db db'
  reactivate :
      (id hash : String) (expires : ℕ) (token : String) (now : ℕ)
      → db' ≡ (reactivate_failed id hash expires token now db).1
      → Step db db'
  take_over :
      (id hash : String) (expires : ℕ) (token : String) (now : ℕ)
      → db' ≡ (takeover_expired_processing id hash expires token now db).1
      → Step db db'
  fail : (input : MarkFailedInput) (now : ℕ) → db' ≡ (mark_failed input now db).1 → Step db db'
  create :
      (s : PaymentsService) (c : CreatePaymentCommand) (d : Started)
      (answer : AuthorizePaymentResult) (now : ℕ) (w w' : World) (b : ResponseBody)
      → persist_authorization s c d answer now w ≡ (ok b, w')
      → w.db ≡ db
      → w'.db ≡ db'
      → Step db db'
  capture :
      (s : PaymentsService) (c : CapturePaymentCommand) (d : Started) (w w' : World)
      (b : ResponseBody)
      → capture_in_transaction s c d w ≡ (ok b, w')
      → w.db ≡ db
      → w'.db ≡ db'
      → Step db db'
  publish : (id : String) (now : ℕ) → db' ≡ (mark_published id now db).1 → Step db db'
  fail_publish :
      (input : MarkPublishFailedInput) (now : ℕ)
      → db' ≡ (mark_publish_failed input now db).1
      → Step db db'

pub data Reach (db : Db) : Db → Type 0 where
  here : Reach db db
  next : {db₁ db₂ : Db} → Reach db db₁ → Step db₁ db₂ → Reach db db₂

pub Reach-trans : {a b c : Db} → Reach a b → Reach b c → Reach a c
Reach-trans r here = r
Reach-trans r (next q st) = next (Reach-trans r q) st

-- The environment runs only such changes.
abbrev pub Friendly : List Tick → Type 0
Friendly = All (λ t. (db : Db) → Reach db (t.others db))
