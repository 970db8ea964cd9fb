-- ===== src/Server/Routes/Internal.antt =====
-- services/payment-service/src/server/routes/payments/payments.ts
use payment_orchestration_pl.Prelude.{String, true, false, none, some, List, [], ◌∷◌}
use payment_orchestration_pl.Json.{Json, str, obj, bool}
use payment_orchestration_pl.OpenApi.Paths.{get, post, RouteSettings}
use payment_orchestration_pl.Server.Routes.{
  Schema, object, string, number, no_keys, key, min, max, uuid, integer, positive, valid, required,
  correlation_id_header_schema, fields_of, texts, typed, formatted, nullable_text, enumerated,
  amount_minor_max, documented,
}

abbrev base_route : String
base_route = "/internal/payments"

unfoldable pub payment_schema : Json
payment_schema = obj (
    fields_of (
      ("type", str "object")
      ∷ (
        "required",
        texts (
            "id" ∷ "merchantId" ∷ "amountMinor" ∷ "currency" ∷ "status" ∷ "provider" ∷ "createdAt"
            ∷ []),
      )
      ∷ (
        "properties",
        obj (
            fields_of (
              ("id", formatted "uuid")
              ∷ ("merchantId", formatted "uuid")
              ∷ ("amountMinor", typed "integer")
              ∷ ("currency", enumerated ("TRY" ∷ "USD" ∷ "EUR" ∷ []))
              ∷ (
                "status",
                enumerated
                    ("CREATED" ∷ "AUTHORIZED" ∷ "FAILED" ∷ "CAPTURED" ∷ "CAPTURE_FAILED" ∷ []),
              )
              ∷ ("provider", typed "string")
              ∷ ("providerPaymentId", nullable_text "string")
              ∷ ("failureCode", nullable_text "string")
              ∷ ("failureMessage", nullable_text "string")
              ∷ (
                "capturedAt",
                obj (
                    fields_of (
                      ("type", str "string")
                      ∷ ("format", str "date-time")
                      ∷ ("nullable", bool true)
                      ∷ [])),
              )
              ∷ ("createdAt", formatted "date-time")
              ∷ [])),
      )
      ∷ []))

unfoldable pub error_schema : Json
error_schema = obj (
    fields_of (
      ("type", str "object")
      ∷ ("required", texts ("error" ∷ []))
      ∷ (
        "properties",
        obj (
            fields_of (
              (
                "error",
                obj (
                    fields_of (
                      ("type", str "object")
                      ∷ ("required", texts ("code" ∷ "message" ∷ "correlationId" ∷ []))
                      ∷ (
                        "properties",
                        obj (
                            fields_of (
                              ("code", typed "string")
                              ∷ ("message", typed "string")
                              ∷ ("details", obj (fields_of (("nullable", bool true) ∷ [])))
                              ∷ ("correlationId", nullable_text "string")
                              ∷ [])),
                      )
                      ∷ [])),
              )
              ∷ [])),
      )
      ∷ []))

unfoldable pub create_route : RouteSettings Schema
unfolding payment_schema error_schema
create_route = record {
  path = base_route;
  method = post;
  controller = "paymentsController.create";
  tags = "payments" ∷ [];
  description = "Create and authorize a payment";
  validation = record {
    params = none;
    query = none;
    body = some (
        object
          (key "merchantId" (string (uuid ∷ required ∷ [])) (
            key "amountMinor" (number (integer ∷ positive ∷ max amount_minor_max ∷ required ∷ [])) (
              key "currency" (string (valid ("TRY" ∷ "USD" ∷ "EUR" ∷ []) ∷ required ∷ []))
                no_keys)))
          false);
    headers = some (
        object
          (key "x-internal-token" (string (required ∷ [])) (
            key "idempotency-key" (string (min 8 ∷ max 128 ∷ required ∷ []))
              (key "x-correlation-id" correlation_id_header_schema no_keys)))
          true);
  };
  middlewares = "internalAuthMiddleware" ∷ [];
  responses =
      ("201", documented "Payment created and authorization attempted" payment_schema)
      ∷ ("400", documented "VALIDATION_ERROR" error_schema)
      ∷ ("401", documented "UNAUTHORIZED" error_schema)
      ∷ (
        "409",
        documented
            "IDEMPOTENCY_KEY_REUSED_WITH_DIFFERENT_REQUEST or IDEMPOTENCY_REQUEST_IN_PROGRESS"
            error_schema,
      )
      ∷ [];
}

unfoldable pub get_by_id_route : RouteSettings Schema
unfolding payment_schema error_schema
get_by_id_route = record {
  path = "/internal/payments/:paymentId";
  method = get;
  controller = "paymentsController.getById";
  tags = "payments" ∷ [];
  description = "Get payment by id";
  validation = record {
    params = some (object (key "paymentId" (string (uuid ∷ required ∷ [])) no_keys) false);
    query = none;
    body = none;
    headers = some (
        object
          (key "x-internal-token" (string (required ∷ []))
            (key "x-correlation-id" correlation_id_header_schema no_keys))
          true);
  };
  middlewares = "internalAuthMiddleware" ∷ [];
  responses =
      ("200", documented "Payment details" payment_schema)
      ∷ ("400", documented "VALIDATION_ERROR" error_schema)
      ∷ ("401", documented "UNAUTHORIZED" error_schema)
      ∷ ("404", documented "PAYMENT_NOT_FOUND" error_schema)
      ∷ [];
}

unfoldable pub capture_route : RouteSettings Schema
unfolding payment_schema error_schema
capture_route = record {
  path = "/internal/payments/:paymentId/capture";
  method = post;
  controller = "paymentsController.capture";
  tags = "payments" ∷ [];
  description = "Capture an authorized payment";
  validation = record {
    params = some (object (key "paymentId" (string (uuid ∷ required ∷ [])) no_keys) false);
    query = none;
    body = none;
    headers = some (
        object
          (key "x-internal-token" (string (required ∷ [])) (
            key "idempotency-key" (string (min 8 ∷ max 128 ∷ required ∷ []))
              (key "x-correlation-id" correlation_id_header_schema no_keys)))
          true);
  };
  middlewares = "internalAuthMiddleware" ∷ [];
  responses =
      ("200", documented "Payment capture attempted" payment_schema)
      ∷ ("400", documented "VALIDATION_ERROR" error_schema)
      ∷ ("401", documented "UNAUTHORIZED" error_schema)
      ∷ ("404", documented "PAYMENT_NOT_FOUND" error_schema)
      ∷ ("409", documented "PAYMENT_NOT_CAPTURABLE or idempotency conflict" error_schema)
      ∷ [];
}

-- `PaymentRoutes`, which `Routes` passes on.
unfoldable pub payment_routes : List (RouteSettings Schema)
unfolding create_route get_by_id_route capture_route
payment_routes = create_route ∷ get_by_id_route ∷ capture_route ∷ []
