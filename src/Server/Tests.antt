-- ===== src/Server/Tests.antt =====
-- The registration of the services' routes in concrete containers.
use payment_orchestration_pl.Prelude.{
  String, ◌≡◌, ◌≢◌, refl, Bool, true, Option, none, some, List, [], ◌∷◌, ◌++◌, ◌==◌, ne_of_eq-false,
  if◌then◌else◌,
}
use payment_orchestration_pl.Errors.{ok}
use payment_orchestration_pl.Json.{Json, null, str, obj, end}
use payment_orchestration_pl.DataAccess.Rows.{PaymentDto, ResponseBody, dto}
use payment_orchestration_pl.Http.{Request, responds, next, next_error}
use payment_orchestration_pl.Http.Auth.{check_internal_token, internal_auth_middleware}
use payment_orchestration_pl.Http.Validation.{Validated, accepted}
use payment_orchestration_pl.Exec.{World}
use payment_orchestration_pl.Payments.Commands.{PaymentResult}
use payment_orchestration_pl.Payments.Service
use payment_orchestration_pl.Configuration.{Environment}
use payment_orchestration_pl.OpenApi.Paths.{HttpMethod}
use payment_orchestration_pl.Server.{
  Resolved, Container, Registered, init_custom_routes, register_route, resolve_middlewares,
  resolve_middleware, resolve_controller,
}
use payment_orchestration_pl.Server.Routes.{Schema}
use payment_orchestration_pl.Server.Routes.Internal
use payment_orchestration_pl.Server.Guarded.{
  Handler, Express, validation_handler, AreGuarded, payment_service-AreGuarded,
}
use payment_orchestration_pl.Server.Controllers.{
  CreateRequest, PaymentRequest, create_command, capture_command, create, capture, get_by_id,
}
use payment_orchestration_pl.Server.Controllers.Answers.{Answers, answered, controllers-Answer}
use payment_orchestration_pl.Server.Application.{
  Layer, json_parser, cors, correlation, health, errors, routes_of, configure, register_middlewares,
  register_cors, setup_swagger, parse_allowed_origins,
}
use payment_orchestration_pl.Server.Application.Layers.{IsLayered, configure-IsLayered}
use payment_orchestration_pl.Samples.{sample_service, quiet_world, empty_db}

abbrev run : List Handler → Handler
run [] req = responds 404 null
run (h ∷ hs) req = elim (h req) [
  | responds status content ↦ responds status content
  | next req' header auth ↦ run hs req'
  | next_error e ↦ next_error e
]

express : Express
express = record {
  run = run;
  run_responds = λ h hs req status content e. rw (e, run) refl;
  run_next = λ h hs req req' header auth e. rw (e, run) refl;
}

abbrev all_valid : String → Bool
all_valid s = true

abbrev accept_all : Schema → Bool → Json → Validated
accept_all schema strips value = accepted value

abbrev guard : Handler
guard = check_internal_token all_valid "token"

abbrev as_function : Resolved Handler
as_function = record { function = some guard; method = λ m. none }

abbrev as_controller : Resolved Handler
as_controller = record { function = none; method = λ m. some (λ req. responds 200 (str m)) }

abbrev container : Container Handler
container = record {
  resolve = λ name.
      if name == "internalAuthMiddleware"
      then some as_function
      else if name == "paymentsController"
      then some as_controller
      else none;
}

abbrev all_methods : HttpMethod → Bool
all_methods m = true

returns_guard : internal_auth_middleware all_valid (some "token") ≡ ok guard
unfolding internal_auth_middleware
returns_guard = refl

token-ne-empty : ◌≢◌ {A = String} "token" ""
token-ne-empty = ne_of_eq-false "token" "" refl

payment_service-AreGuarded_example :
    AreGuarded express all_valid accept_all container "x-internal-token" "token"
      "Invalid or missing internal token" Internal.payment_routes
      (init_custom_routes container all_methods
        (validation_handler express all_valid accept_all)
        Internal.payment_routes).1
payment_service-AreGuarded_example =
    payment_service-AreGuarded express all_valid accept_all container all_methods "token" guard
      returns_guard token-ne-empty
      (record { resolved = as_function; found = refl; is_function = refl })

abbrev a_request : Request
a_request = record { body = obj end; params = obj end; query = obj end; headers = obj end }

abbrev create_request : CreateRequest
create_request = record {
  correlation_id = none;
  idempotency_key = some (str "key");
  merchant_id = "m1";
  amount_minor = 100;
  currency = "TRY";
}

abbrev payment_request : PaymentRequest
payment_request = record {
  correlation_id = none;
  idempotency_key = some (str "key");
  payment_id = "p1";
}

abbrev empty_world : World
empty_world = quiet_world empty_db

abbrev hidden : Json → String
hidden v = "[object Object]"

abbrev no_body : Option ResponseBody → Json
no_body b = null

controllers-Answer_example :
    Answers all_valid a_request
      (Service.create sample_service (create_command hidden no_body create_request))
      (λ (a : PaymentResult). a.status_code)
      (λ (a : PaymentResult). no_body a.body)
      (answered all_valid a_request
        (create hidden no_body (Service.create sample_service) create_request))
      empty_world
    × Answers all_valid a_request
        (Service.capture sample_service (capture_command hidden no_body payment_request))
        (λ (a : PaymentResult). a.status_code)
        (λ (a : PaymentResult). no_body a.body)
        (answered all_valid a_request
          (capture hidden no_body (Service.capture sample_service) payment_request))
        empty_world
    × Answers all_valid a_request
        (Service.get_by_id "p1")
        (λ (a : PaymentDto). 200)
        (λ (a : PaymentDto). no_body (some (dto a)))
        (answered all_valid a_request (get_by_id hidden no_body Service.get_by_id payment_request))
        empty_world
controllers-Answer_example =
    controllers-Answer all_valid a_request hidden no_body empty_world sample_service create_request
      payment_request

abbrev one_origin : Environment
one_origin name = if name == "CORS_ALLOWED_ORIGINS" then some "https://shop.example" else none

abbrev table : List (Registered Handler)
table =
    (init_custom_routes container all_methods (validation_handler express all_valid accept_all)
      Internal.payment_routes).1

abbrev layers : List (Layer Handler)
layers =
    json_parser
    ∷ cors ("https://shop.example" ∷ [])
    ∷ correlation
    ∷ (routes_of table ++ (health none ∷ errors ∷ []))

configures :
    configure one_origin container all_methods
      (validation_handler express all_valid accept_all)
      Internal.payment_routes
    ≡ ok layers
unfolding configure register_middlewares register_cors setup_swagger parse_allowed_origins
    init_custom_routes register_route resolve_middlewares resolve_middleware resolve_controller
    Internal.payment_routes Internal.create_route Internal.get_by_id_route Internal.capture_route
configures = refl

configure-IsLayered_example :
    IsLayered one_origin container all_methods
      (validation_handler express all_valid accept_all)
      Internal.payment_routes
      layers
configure-IsLayered_example =
    configure-IsLayered one_origin container all_methods
      (validation_handler express all_valid accept_all) Internal.payment_routes layers configures
