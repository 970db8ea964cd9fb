-- ===== src/Payments/Service.antt =====
-- services/payment-service/src/services/payments/payments-service.ts: the operations. Commands has their
-- parts.
use Prim.Native.String
use payment_orchestration_pl.Prelude.{ℕ, String, some, if◌then◌else◌}
use payment_orchestration_pl.Errors.{Thrown}
use payment_orchestration_pl.Json.{Json, str, num, obj, end, field}
use payment_orchestration_pl.DataAccess.Rows.{
  created, authorized, PaymentRecord, PaymentDto, ResponseBody, dto,
}
use payment_orchestration_pl.DataAccess.Payments.{
  insert, find_by_id, find_by_id_for_update, update_status_if_authorized,
}
use payment_orchestration_pl.Exec.{
  M, pure, throw, ◌>>=◌, ◌>>◌, try_catch, lift, gets, random_uuid, await, transaction, query,
}
use payment_orchestration_pl.Providers.Contract.{AuthorizePaymentResult, CapturePaymentResult}
use payment_orchestration_pl.Providers.Registry.{
  ProviderRegistryService, get_default_provider, get_provider,
}
use payment_orchestration_pl.Payments.Status.{ensure_transition, ensure_can_capture, not_capturable}
use payment_orchestration_pl.Idempotency.Service.{
  IdempotencyService, IdempotencyDecision, Started, started, completed, StartInput,
  build_request_hash, get_existing_or_start, mark_completed, mark_failed, truthy,
}
use payment_orchestration_pl.Payments.Commands.{
  CreatePaymentCommand, CapturePaymentCommand, PaymentResult, payment_not_found,
  provider_reference_missing, to_dto, is_ownership_lost, call_authorize, call_capture,
  authorized_status, captured_status, new_payment, record_authorization, capture_update,
  record_capture, or_throw,
}

pub record PaymentsService : Type 0 where
  pub idempotency_service : IdempotencyService
  pub provider_registry_service : ProviderRegistryService

module _ (s : PaymentsService) where
  -- The idempotency completion that ends both transactions.
  unfoldable pub complete : Started → (status_code : ℕ) → PaymentRecord → M ResponseBody
  complete d status_code p =
      mark_completed s.idempotency_service query d.record_id status_code (dto (to_dto p)) "payment"
        p.id d.processing_token
      >> pure (dto (to_dto p))

  -- The body of `create`'s transaction.
  unfoldable pub persist_authorization :
      CreatePaymentCommand → Started → AuthorizePaymentResult → ℕ → M ResponseBody
  persist_authorization c d answer now = do
    p ← query (insert (new_payment d.resource_id c answer now))
    record_authorization c.correlation_id answer p
    complete d 201 p

  -- The `try` block of `create`.
  unfoldable pub authorize_and_persist : CreatePaymentCommand → Started → M PaymentResult
  authorize_and_persist c d = do
    let provider = get_default_provider s.provider_registry_service
    answer ← call_authorize provider (record {
      payment_id = d.resource_id;
      merchant_id = c.merchant_id;
      amount_minor = c.amount_minor;
      currency = c.currency;
    })
    now ← gets (λ w. w.now)
    lift (ensure_transition created (authorized_status answer))
    body ← transaction (persist_authorization c d answer now)
    pure (record { status_code = 201; body = some body })

  -- The `catch` block of both operations; the failure to mark is logged, unless ownership is lost.
  unfoldable pub fail_and_rethrow : Started → Thrown → M PaymentResult
  fail_and_rethrow d error = do
    try_catch (mark_failed s.idempotency_service await d.record_id d.processing_token >> pure tt)
        (λ e. if is_ownership_lost e then throw e else pure tt)
    throw error

  abbrev pub create_body : CreatePaymentCommand → Json
  create_body c = obj (
      field "merchantId" (str c.merchant_id)
        (field "amountMinor" (num c.amount_minor) (field "currency" (str c.currency) end)))

  abbrev pub create_input : CreatePaymentCommand → String → StartInput
  create_input c reserved = record {
    scope = String.◌++◌ "payments:create:" c.merchant_id;
    idempotency_key = c.idempotency_key;
    request_hash = build_request_hash s.idempotency_service (create_body c);
    resource_type = "payment";
    resource_id = reserved;
  }

  unfoldable pub create_by_decision : CreatePaymentCommand → IdempotencyDecision → M PaymentResult
  create_by_decision c (completed status_code body) =
      pure (record { status_code = status_code; body = body })
  create_by_decision c (started d) = try_catch (authorize_and_persist c d) (fail_and_rethrow d)

  unfoldable pub create : CreatePaymentCommand → M PaymentResult
  create c = do
    reserved ← random_uuid
    decision ← get_existing_or_start s.idempotency_service (create_input c reserved)
    create_by_decision c decision

  -- The body of `capture`'s transaction from the provider's answer on.
  unfoldable pub persist_capture :
      CapturePaymentCommand → Started → PaymentRecord → CapturePaymentResult → M ResponseBody
  persist_capture c d p answer = do
    now ← gets (λ w. w.now)
    lift (ensure_transition authorized (captured_status answer))
    updated ← query (update_status_if_authorized (capture_update p.id answer now))
    p' ← or_throw not_capturable updated
    record_capture c.correlation_id answer p'
    complete d 200 p'

  -- The same from the locked row on.
  unfoldable pub capture_payment : CapturePaymentCommand → Started → PaymentRecord → M ResponseBody
  capture_payment c d p = do
    lift (ensure_can_capture p)
    provider ← lift (get_provider s.provider_registry_service p.provider)
    reference ← or_throw provider_reference_missing (truthy p.provider_payment_id)
    answer ← call_capture provider (record {
      payment_id = p.id;
      provider_payment_id = reference;
      amount_minor = p.amount_minor;
      currency = p.currency;
    })
    persist_capture c d p answer

  unfoldable pub capture_in_transaction : CapturePaymentCommand → Started → M ResponseBody
  capture_in_transaction c d = do
    found ← query (find_by_id_for_update c.payment_id)
    p ← or_throw payment_not_found found
    capture_payment c d p

  unfoldable pub lock_and_capture : CapturePaymentCommand → Started → M PaymentResult
  lock_and_capture c d = do
    body ← transaction (capture_in_transaction c d)
    pure (record { status_code = 200; body = some body })

  abbrev pub capture_input : CapturePaymentCommand → StartInput
  capture_input c = record {
    scope = String.◌++◌ "payments:capture:" c.payment_id;
    idempotency_key = c.idempotency_key;
    request_hash =
        build_request_hash s.idempotency_service (obj (field "paymentId" (str c.payment_id) end));
    resource_type = "payment";
    resource_id = c.payment_id;
  }

  unfoldable pub capture_by_decision : CapturePaymentCommand → IdempotencyDecision → M PaymentResult
  capture_by_decision c (completed status_code body) =
      pure (record { status_code = status_code; body = body })
  capture_by_decision c (started d) = try_catch (lock_and_capture c d) (fail_and_rethrow d)

  unfoldable pub capture : CapturePaymentCommand → M PaymentResult
  capture c = do
    decision ← get_existing_or_start s.idempotency_service (capture_input c)
    capture_by_decision c decision

unfoldable pub get_by_id : String → M PaymentDto
get_by_id payment_id = do
  found ← await (find_by_id payment_id)
  p ← or_throw payment_not_found found
  pure (to_dto p)
