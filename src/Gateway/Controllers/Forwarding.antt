-- ===== src/Gateway/Controllers/Forwarding.antt =====
-- What the payment service gets of a request to the gateway: from
-- services/api-gateway/src/server/controllers to services/payment-service/src/server/controllers. The
-- transport between them is a parameter.
use Prim.Native.Char.{code}
use Prim.Native.String.{◌++◌ as ◌+s+◌}
use payment_orchestration_pl.Prelude.{
  ℕ, String, ◌≡◌, Bool, true, false, ◌&&◌, ◌||◌, not, Option, none, some, List, [], ◌∷◌, ◌++◌, ◌==◌,
  nat_eq, leb, if◌then◌else◌,
}
use payment_orchestration_pl.Json.{Json, str, num, obj, end, field, member}
use payment_orchestration_pl.DataAccess.Rows.{ResponseBody}
use payment_orchestration_pl.Http.{Request, next}
use payment_orchestration_pl.Http.Auth.{check_internal_token}
use payment_orchestration_pl.Gateway.Client.{
  SentRequest, PaymentServiceClient, RequestOptions, Method, get, post, request, to_send,
  idempotency_header,
}
use payment_orchestration_pl.Gateway.Client
use payment_orchestration_pl.Server.Controllers.{
  CreateRequest, string_of, read_create_request, create_command,
}
use payment_orchestration_pl.Gateway.Controllers.{create}
use payment_orchestration_pl.OpenApi.Paths.{HttpMethod}
use payment_orchestration_pl.Server.Routes.Internal

abbrev pub header_in : String → List (String × String) → Option String
header_in name [] = none
header_in name ((k, v) ∷ hs) = if k == name then some v else header_in name hs

-- The headers of the client that neither `fetch` nor the connection sets, reads or drops.
abbrev pub is_end_to_end : String → Bool
is_end_to_end name =
    name == "x-internal-token" || name == "x-correlation-id" || name == "idempotency-key"

-- From a space to `~`
abbrev pub all_printable : String → Bool
all_printable String.[] = true
all_printable (String.◌∷◌ c s) = leb b' ' (code c) && leb (code c) b'~' && all_printable s

abbrev pub starts_with_space : String → Bool
starts_with_space String.[] = false
starts_with_space (String.◌∷◌ c s) = nat_eq (code c) b' '

abbrev pub last_or : (default : ℕ) → String → ℕ
last_or d String.[] = d
last_or d (String.◌∷◌ c s) = last_or (code c) s

-- A header value that `fetch` sends as it is: it trims others, or refuses them.
unfoldable pub is_header_value : String → Bool
is_header_value s =
    all_printable s && not (starts_with_space s) && not (nat_eq (last_or b'~' s) b' ')

-- How the payment service's Express reads what was sent: its headers, and its body by
-- `express.json()`. `is_body` says of which bodies it makes what was sent: they are within its limit,
-- and their numbers are exact.
pub record Transport : Type 0 where
  pub received : SentRequest → Request
  pub is_body : Json → Bool
  pub headers :
      (q : SentRequest) (name value : String)
      → is_end_to_end name ≡ true
      → is_header_value value ≡ true
      → header_in name q.headers ≡ some value
      → member name (received q).headers ≡ some (str value)
  pub content :
      (q : SentRequest) (v : Json) → is_body v ≡ true → q.body ≡ some v → (received q).body ≡ v

abbrev pub route_method : Method → HttpMethod
route_method get = HttpMethod.get
route_method post = HttpMethod.post

module _ (transport : Transport) (client : PaymentServiceClient) (display : Json → String)
    (json_of : Option ResponseBody → Json) (valid : String → Bool) (r : CreateRequest)
    (sent : List SentRequest) where
  abbrev pub content : Json
  content = obj (
      field "merchantId" (str r.merchant_id)
        (field "amountMinor" (num r.amount_minor) (field "currency" (str r.currency) end)))

  -- One request is sent, by the method and to the path of the payment service's route, which the
  -- internal authentication admits, and which that route's controller reads as the gateway's own
  -- command.
  pub record Forwards : Type 0 where
    pub message : SentRequest
    pub once : (create client display r sent).1 ≡ sent ++ message ∷ []
    pub url : message.url ≡ client.base_url +s+ Internal.create_route.path
    pub method : route_method message.method ≡ Internal.create_route.method
    pub admitted :
        check_internal_token valid client.internal_token (transport.received message)
        ≡ next (transport.received message) none none
    pub request : CreateRequest
    pub read : read_create_request (transport.received message) ≡ some request
    pub command : create_command display json_of request ≡ (record {
      correlation_id = string_of display r.correlation_id;
      idempotency_key = string_of display r.idempotency_key;
      merchant_id = r.merchant_id;
      amount_minor = r.amount_minor;
      currency = r.currency;
    })

  abbrev options : RequestOptions
  options = record {
    method = post;
    correlation_id = string_of display r.correlation_id;
    idempotency_key = some (string_of display r.idempotency_key);
    body = some content;
  }

  abbrev message_sent : SentRequest
  message_sent = to_send client "/internal/payments" options
