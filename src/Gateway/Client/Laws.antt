-- ===== src/Gateway/Client/Laws.antt =====
-- How often the client of services/api-gateway/src/clients/payment-service-client.ts sends, and what it
-- answers.
use payment_orchestration_pl.Prelude.{
  ◌+◌, String, ◌≡◌, ap, ◌∙◌, Bool, true, false, none, some, List, [], ◌∷◌, ◌++◌, arith, length,
  length-append, if◌then◌else◌,
}
use payment_orchestration_pl.Gateway.Client.{
  Caught, Outcome, returns, throws, get, post, RequestOptions, SentRequest, FetchResponse,
  PaymentServiceResponse, PaymentServiceClient, map_transport_error, has_response, to_send, send,
  attempt_from, max_attempts, request,
}

-- Whether the request met no response.
abbrev pub is_transport : Outcome FetchResponse → Bool
is_transport (returns r) = false
is_transport (throws (Caught.api_error e)) = false
is_transport (throws (Caught.transport_error name)) = true

-- What the caller gets where nothing is tried again.
abbrev pub mapped : Outcome PaymentServiceResponse → Outcome PaymentServiceResponse
mapped (returns r) = returns r
mapped (throws error) = elim (map_transport_error error) [
  | none ↦ throws error
  | some e ↦ throws (Caught.api_error e)
]

module _ (c : PaymentServiceClient) (path : String) (options : RequestOptions)
    (sent : List SentRequest) where
  abbrev message : SentRequest
  message = to_send c path options

  send_once :
      attempt_from c 1 path options sent
      ≡ (mapped (has_response (c.fetch_fn (length sent) message)), sent ++ message ∷ [])
  unfolding attempt_from send map_transport_error
  send_once = ground arith

  -- A POST is sent exactly once, whatever it meets, and is answered by its response, or by the
  -- error that the response or the failure is mapped to.
  pub request-post :
      options.method ≡ post
      → request c path options sent
        ≡ (mapped (has_response (c.fetch_fn (length sent) message)), sent ++ message ∷ [])
  unfolding request
  request-post h = ap (λ m. attempt_from c (max_attempts m) path options sent) h ∙ send_once

  send_twice :
      options.method ≡ get
      → attempt_from c 2 path options sent ≡ (
          if is_transport (c.fetch_fn (length sent) message)
          then (
            mapped (has_response (c.fetch_fn (length sent + 1) message)),
            (sent ++ message ∷ []) ++ message ∷ [],
          )
          else (mapped (has_response (c.fetch_fn (length sent) message)), sent ++ message ∷ []))
  unfolding attempt_from send map_transport_error
  send_twice h = ground (arith, length-append sent (message ∷ []))

  -- A GET is sent a second time only where its first request met no response, at most once, and is
  -- answered by the last response or by the mapped error.
  pub request-get :
      options.method ≡ get
      → request c path options sent ≡ (
          if is_transport (c.fetch_fn (length sent) message)
          then (
            mapped (has_response (c.fetch_fn (length sent + 1) message)),
            (sent ++ message ∷ []) ++ message ∷ [],
          )
          else (mapped (has_response (c.fetch_fn (length sent) message)), sent ++ message ∷ []))
  unfolding request
  request-get h = ap (λ m. attempt_from c (max_attempts m) path options sent) h ∙ send_twice h
