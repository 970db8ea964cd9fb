-- ===== src/Server/Controllers/Answers.antt =====
-- The answers of the controllers, by what the service comes to.
use payment_orchestration_pl.Prelude.{ℕ, String, ◌≡◌, Bool, Option, some, arith}
use payment_orchestration_pl.Errors.{ApiError, api_error, other_error, ok, err}
use payment_orchestration_pl.Json.{Json, null, str}
use payment_orchestration_pl.DataAccess.Rows.{PaymentDto, ResponseBody, dto}
use payment_orchestration_pl.Exec.{M, World, pure, ◌>>=◌}
use payment_orchestration_pl.Payments.Commands.{
  CreatePaymentCommand, CapturePaymentCommand, PaymentResult,
}
use payment_orchestration_pl.Payments.Service.{PaymentsService}
use payment_orchestration_pl.Payments.Service
use payment_orchestration_pl.Http.{Request, Handled, responds, header_text}
use payment_orchestration_pl.Http.Auth.{error_body, get_valid_correlation_id}
use payment_orchestration_pl.Http.Correlation.{or_null, error_middleware}
use payment_orchestration_pl.Server.Controllers.{
  CreateRequest, PaymentRequest, create_command, capture_command, create, capture, get_by_id,
  answer,
}

-- A run of a controller answers what the service returns, or the error that it throws: an
-- `ApiError` as it is, and any other without what it says.
module _ (valid : String → Bool) (req : Request) where
  abbrev correlation : Option String
  correlation = get_valid_correlation_id valid (header_text "x-correlation-id" req)

  pub record Answers {A : Type 0} (service : M A) (status : A → ℕ) (content : A → Json)
      (controller : M Handled) (w : World) : Type 0 where
    pub returned :
        (a : A) (w' : World)
        → service w ≡ (ok a, w')
        → controller w ≡ (ok (responds (status a) (content a)), w')
    pub refused :
        (e : ApiError) (w' : World)
        → service w ≡ (err (api_error e), w')
        → controller w ≡ (
          ok (
              responds e.status_code
                (error_body (str e.code) (str e.message) (or_null e.details) correlation)),
          w',
        )
    pub failed :
        (message : String) (w' : World)
        → service w ≡ (err (other_error message), w')
        → controller w ≡ (
          ok (
              responds 500 (
                error_body
                  (str "INTERNAL_SERVER_ERROR")
                  (str "Internal server error")
                  null
                  correlation)),
          w',
        )

  -- A controller, with the error middleware behind it.
  abbrev pub answered : M Handled → M Handled
  answered m = do handled ← m; pure (answer valid req handled)

  module _ (display : Json → String) (json_of : Option ResponseBody → Json) (w : World) where
    create-Answers :
        (service : CreatePaymentCommand → M PaymentResult) (r : CreateRequest)
        → Answers
            (service (create_command display json_of r))
            (λ (a : PaymentResult). a.status_code)
            (λ (a : PaymentResult). json_of a.body)
            (answered (create display json_of service r))
            w
    unfolding create answer error_middleware ◌>>=◌
    create-Answers service r = record {
      returned = λ a w' e. ground (arith, e);
      refused = λ x w' e. ground (arith, e);
      failed = λ message w' e. ground (arith, e);
    }

    capture-Answers :
        (service : CapturePaymentCommand → M PaymentResult) (r : PaymentRequest)
        → Answers
            (service (capture_command display json_of r))
            (λ (a : PaymentResult). a.status_code)
            (λ (a : PaymentResult). json_of a.body)
            (answered (capture display json_of service r))
            w
    unfolding capture answer error_middleware ◌>>=◌
    capture-Answers service r = record {
      returned = λ a w' e. ground (arith, e);
      refused = λ x w' e. ground (arith, e);
      failed = λ message w' e. ground (arith, e);
    }

    get_by_id-Answers :
        (service : String → M PaymentDto) (r : PaymentRequest)
        → Answers
            (service r.payment_id)
            (λ (a : PaymentDto). 200)
            (λ (a : PaymentDto). json_of (some (dto a)))
            (answered (get_by_id display json_of service r))
            w
    unfolding get_by_id answer error_middleware ◌>>=◌
    get_by_id-Answers service r = record {
      returned = λ a w' e. ground (arith, e);
      refused = λ x w' e. ground (arith, e);
      failed = λ message w' e. ground (arith, e);
    }

    -- The three controllers of the payment service answer with the status and the body that the
    -- service returns; with the status, code and message of an `ApiError` that it throws; and for
    -- any other error with status 500 and a body that does not show it.
    pub controllers-Answer :
        (s : PaymentsService) (c : CreateRequest) (p : PaymentRequest)
        → Answers
            (Service.create s (create_command display json_of c))
            (λ (a : PaymentResult). a.status_code)
            (λ (a : PaymentResult). json_of a.body)
            (answered (create display json_of (Service.create s) c))
            w
          × Answers
              (Service.capture s (capture_command display json_of p))
              (λ (a : PaymentResult). a.status_code)
              (λ (a : PaymentResult). json_of a.body)
              (answered (capture display json_of (Service.capture s) p))
              w
          × Answers
              (Service.get_by_id p.payment_id)
              (λ (a : PaymentDto). 200)
              (λ (a : PaymentDto). json_of (some (dto a)))
              (answered (get_by_id display json_of Service.get_by_id p))
              w
    controllers-Answer s c p = (
      create-Answers (Service.create s) c,
      capture-Answers (Service.capture s) p,
      get_by_id-Answers Service.get_by_id p,
    )
