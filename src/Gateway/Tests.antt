-- ===== src/Gateway/Tests.antt =====
-- The client against concrete answers.
use payment_orchestration_pl.Prelude.{
  String, ◌≡◌, refl, true, none, some, List, [], ◌∷◌, arith, get_or,
}
use payment_orchestration_pl.Json.{null, str, obj, Fields, end, field, member_of}
use payment_orchestration_pl.Server.Controllers.{CreateRequest}
use payment_orchestration_pl.Gateway.Controllers.Forwarding.{Transport, header_in}
use payment_orchestration_pl.Gateway.Client.{
  Caught, throws, get, post, RequestOptions, PaymentServiceClient, to_send, request,
  map_transport_error, unavailable_error,
}
use payment_orchestration_pl.Gateway.Client.Laws.{request-post, request-get}

-- No request is answered.
abbrev unreachable : PaymentServiceClient
unreachable = record {
  base_url = "http://payment-service:8080";
  internal_token = "token";
  fetch_fn = λ n r. throws (Caught.transport_error "TypeError");
}

abbrev posting : RequestOptions
posting = record { method = post; correlation_id = "corr"; idempotency_key = none; body = none }

abbrev getting : RequestOptions
getting = record posting { method = get }

request-post_example : request unreachable "/internal/payments" posting [] ≡ (
  throws (Caught.api_error unavailable_error),
  to_send unreachable "/internal/payments" posting ∷ [],
)
unfolding map_transport_error
request-post_example = request-post unreachable "/internal/payments" posting [] refl

request-get_example : request unreachable "/internal/payments/p1" getting [] ≡ (
  throws (Caught.api_error unavailable_error),
  to_send unreachable "/internal/payments/p1" getting
      ∷ to_send unreachable "/internal/payments/p1" getting
      ∷ [],
)
unfolding map_transport_error
request-get_example = request-get unreachable "/internal/payments/p1" getting [] refl

abbrev header_fields : List (String × String) → Fields
header_fields [] = end
header_fields ((k, v) ∷ hs) = field k (str v) (header_fields hs)

member-header_fields :
    (name value : String) (hs : List (String × String))
    → header_in name hs ≡ some value
    → member_of name (header_fields hs) ≡ some (str value)
member-header_fields name value [] h = absurd (ground arith)
member-header_fields name value ((k, v) ∷ hs) h = ground (arith, member-header_fields name value hs)

transport : Transport
transport = record {
  received = λ q. record {
    body = get_or q.body null;
    params = obj end;
    query = obj end;
    headers = obj (header_fields q.headers);
  };
  is_body = λ v. true;
  headers = λ q name value _ _ e. member-header_fields name value q.headers e;
  content = λ q v _ e. rw e refl;
}

abbrev create_request : CreateRequest
create_request = record {
  correlation_id = some (str "corr");
  idempotency_key = some (str "a-long-key");
  merchant_id = "m1";
  amount_minor = 100;
  currency = "TRY";
}
