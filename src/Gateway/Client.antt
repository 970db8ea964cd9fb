-- ===== src/Gateway/Client.antt =====
-- services/api-gateway/src/clients/payment-service-client.ts. `fetch` is a parameter: what each of
-- the requests that are sent, in their order, meets.
pub mod Laws
use Prim.Native.String
use payment_orchestration_pl.Prelude.{
  ℕ, zero, suc, ◌+◌, ◌-◌, String, Bool, true, false, ◌&&◌, ◌||◌, not, Option, none, some, List, [],
  ◌∷◌, ◌++◌, ◌==◌, ltb, length, get_or, if◌then◌else◌,
}
use payment_orchestration_pl.Json.{Json, null, num, str, obj, end, field, member}

-- `ApiError` of services/api-gateway/src/types/errors/api-error.ts. The code, the message and the
-- details of an answer that is no success are whatever its JSON holds.
pub record GatewayError : Type 0 where
  pub code : Json
  pub message : Json
  pub status_code : ℕ
  pub details : Option Json
  pub is_operational : Bool

-- What the client catches: its own `ApiError`, or an error of `fetch`, by its name.
pub data Caught : Type 0 where
  api_error : GatewayError → Caught
  transport_error : (name : String) → Caught

pub data Outcome {ℓ} (A : Type ℓ) : Type ℓ where
  returns : A → Outcome A
  throws : Caught → Outcome A

pub data Method : Type 0 where
  get post : Method

pub record RequestOptions : Type 0 where
  pub method : Method
  pub correlation_id : String
  pub idempotency_key : Option String
  pub body : Option Json

pub record SentRequest : Type 0 where
  pub url : String
  pub method : Method
  pub headers : List (String × String)
  pub body : Option Json

-- A response: its status, and its body where that is JSON.
pub record FetchResponse : Type 0 where
  pub status : ℕ
  pub json : Option Json

pub record PaymentServiceResponse : Type 0 where
  pub status_code : ℕ
  pub body : Json

-- The configuration, with the outcome of `fetch` for the request of each number.
pub record PaymentServiceClient : Type 0 where
  pub base_url : String
  pub internal_token : String
  pub fetch_fn : ℕ → SentRequest → Outcome FetchResponse

-- `left ?? right`
abbrev pub or_else : Option Json → Json → Json
or_else none d = d
or_else (some null) d = d
or_else (some v) d = v

abbrev pub member_option : String → Option Json → Option Json
member_option name none = none
member_option name (some v) = member name v

-- `response.ok`
abbrev pub is_ok : FetchResponse → Bool
is_ok r = not (ltb r.status 200) && ltb r.status 300

unfoldable pub to_service_error : FetchResponse → GatewayError
to_service_error r =
    let error = member "error" (get_or r.json null) in
    record {
      code = or_else (member_option "code" error) (str "PAYMENT_SERVICE_ERROR");
      message = or_else (member_option "message" error) (str "Payment service request failed");
      status_code = r.status;
      details = some (or_else (member_option "details" error) null);
      is_operational = true;
    }

abbrev pub timeout_error : GatewayError
timeout_error = record {
  code = str "PAYMENT_SERVICE_TIMEOUT";
  message = str "Payment service request timed out";
  status_code = 504;
  details = none;
  is_operational = true;
}

abbrev pub unavailable_error : GatewayError
unavailable_error = record {
  code = str "PAYMENT_SERVICE_UNAVAILABLE";
  message = str "Payment service is unavailable";
  status_code = 502;
  details = none;
  is_operational = true;
}

abbrev pub not_sent_error : GatewayError
not_sent_error = record {
  code = str "PAYMENT_SERVICE_REQUEST_NOT_SENT";
  message = str "Payment service request could not be sent";
  status_code = 500;
  details = none;
  is_operational = false;
}

unfoldable pub map_transport_error : Caught → Option GatewayError
map_transport_error (api_error e) = none
map_transport_error (transport_error name) =
    if name == "AbortError" || name == "TimeoutError"
    then some timeout_error
    else some unavailable_error

abbrev pub idempotency_header : Option String → List (String × String)
idempotency_header none = []
idempotency_header (some key) = if key == "" then [] else ("idempotency-key", key) ∷ []

abbrev pub max_attempts : Method → ℕ
max_attempts get = 2
max_attempts post = 1

abbrev pub is_get : Method → Bool
is_get get = true
is_get post = false

abbrev pub has_response : Outcome FetchResponse → Outcome PaymentServiceResponse
has_response (throws e) = throws e
has_response (returns r) =
    if is_ok r
    then returns (record { status_code = r.status; body = get_or r.json null })
    else throws (api_error (to_service_error r))

module _ (c : PaymentServiceClient) where
  abbrev pub to_send : String → RequestOptions → SentRequest
  to_send path options = record {
    url = String.◌++◌ c.base_url path;
    method = options.method;
    headers =
        ("content-type", "application/json")
        ∷ ("x-internal-token", c.internal_token)
        ∷ ("x-correlation-id", options.correlation_id)
        ∷ idempotency_header options.idempotency_key;
    body = options.body;
  }

  -- `sent` is the log of the requests that were sent before.
  unfoldable pub send :
      String → RequestOptions → List SentRequest → Outcome PaymentServiceResponse × List SentRequest
  unfolding to_service_error
  send path options sent = (
    has_response (c.fetch_fn (length sent) (to_send path options)),
    sent ++ to_send path options ∷ [],
  )

  -- `throw mappedError ?? error`
  abbrev pub rethrow : Option GatewayError → Caught → Outcome PaymentServiceResponse
  rethrow none error = throws error
  rethrow (some mapped) error = throws (api_error mapped)

  -- The loop from an attempt on; `left` is `maxAttempts - attempt + 1`.
  unfoldable pub attempt_from :
      (left : ℕ)
      → String
      → RequestOptions
      → List SentRequest
      → Outcome PaymentServiceResponse × List SentRequest
  unfolding send map_transport_error
  attempt_from zero path options sent = (throws (api_error not_sent_error), sent)
  attempt_from (suc left) path options sent =
      let (outcome, sent') = send path options sent in
      let again = attempt_from left path options sent' in
      elim outcome [
        | returns r ↦ (returns r, sent')
        | throws error ↦ elim (map_transport_error error) [
          | none ↦ (throws error, sent')
          | some mapped ↦
              if is_get options.method && ltb 0 left
              then again
              else (throws (api_error mapped), sent')
        ]
      ]

  unfoldable pub request :
      String → RequestOptions → List SentRequest → Outcome PaymentServiceResponse × List SentRequest
  request path options sent = attempt_from (max_attempts options.method) path options sent

  -- The three methods, each with the log of requests.
  unfoldable pub create :
      (correlation_id idempotency_key merchant_id : String) (amount_minor : ℕ) (currency : String)
      → List SentRequest
      → Outcome PaymentServiceResponse × List SentRequest
  create correlation_id idempotency_key merchant_id amount_minor currency =
      request "/internal/payments" (record {
        method = post;
        correlation_id = correlation_id;
        idempotency_key = some idempotency_key;
        body = some (
            obj (
              field "merchantId" (str merchant_id)
                (field "amountMinor" (num amount_minor) (field "currency" (str currency) end))));
      })

  unfoldable pub get_by_id :
      (correlation_id payment_id : String) → List SentRequest → Outcome Json × List SentRequest
  get_by_id correlation_id payment_id sent =
      let (outcome, sent') =
        request (String.◌++◌ "/internal/payments/" payment_id)
          (record {
            method = get;
            correlation_id = correlation_id;
            idempotency_key = none;
            body = none;
          })
          sent in
      elim outcome [ returns r ↦ (returns r.body, sent') | throws e ↦ (throws e, sent') ]

  unfoldable pub capture :
      (correlation_id idempotency_key payment_id : String)
      → List SentRequest
      → Outcome PaymentServiceResponse × List SentRequest
  capture correlation_id idempotency_key payment_id =
      request (String.◌++◌ (String.◌++◌ "/internal/payments/" payment_id) "/capture") (record {
        method = post;
        correlation_id = correlation_id;
        idempotency_key = some idempotency_key;
        body = none;
      })
