-- ===== src/Http/Auth.antt =====
-- Authentication: services/*/src/utils/timing-safe-equals.ts, the internal authentication of the
-- payment service, and the API keys of the gateway. `valid` is what
-- `correlationIdHeaderSchema.validate` accepts.
use Prim.Native.String.{len}
use payment_orchestration_pl.Prelude.{
  String, ◌≡◌, ◌≢◌, ◌↔◌, refl, Bool, true, false, ◌||◌, Option, none, some, ◌==◌, nat_eq, arith,
  eq_iff, eq_refl, inl, inr, Bool-cases, if◌then◌else◌, eq-false_of_ne,
}
use payment_orchestration_pl.Errors.{other_error, Result, ok, err}
use payment_orchestration_pl.Json.{Json, null, str, arr, obj, nil, cons, end, field}
use payment_orchestration_pl.Http.{Request, Handled, responds, next, header_text}

-- Buffers of texts are equal if the texts are.
abbrev pub equal_texts : String → String → Bool
equal_texts left right =
    if left == "" || right == ""
    then false
    else if nat_eq (len left) (len right)
    then left == right
    else false

unfoldable pub timing_safe_equals : Option String → Option String → Bool
timing_safe_equals none right = false
timing_safe_equals (some left) none = false
timing_safe_equals (some left) (some right) = equal_texts left right

-- `getValidCorrelationId`
unfoldable pub get_valid_correlation_id : (String → Bool) → Option String → Option String
get_valid_correlation_id valid none = none
get_valid_correlation_id valid (some s) = if valid s then some s else none

abbrev pub nullable_text : Option String → Json
nullable_text none = null
nullable_text (some s) = str s

-- The body of an error response.
abbrev pub error_body : (code message : Json) (details : Json) → Option String → Json
error_body code message details correlation_id = obj (
    field "error"
      (obj (
        field "code" code (
          field "message" message
            (field "details" details (field "correlationId" (nullable_text correlation_id) end)))))
      end)

abbrev pub authenticated_client : Json
authenticated_client = obj (
    field "apiKeyId" (str "local-public-api-key")
      (field "scopes" (arr (cons (str "payments:create") (cons (str "payments:read") nil))) end))

module _ (valid : String → Bool) where
  abbrev pub unauthorized : String → Request → Handled
  unauthorized message req = responds 401 (
      error_body (str "UNAUTHORIZED") (str message) null
        (get_valid_correlation_id valid (header_text "x-correlation-id" req)))

  -- What `internalAuthMiddleware` returns for a token that is configured.
  unfoldable pub check_internal_token : String → Request → Handled
  unfolding timing_safe_equals
  check_internal_token token req =
      if timing_safe_equals (header_text "x-internal-token" req) (some token)
      then next req none none
      else unauthorized "Invalid or missing internal token" req

  -- A missing or empty token fails when the routes are wired.
  unfoldable pub internal_auth_middleware : Option String → Result (Request → Handled)
  unfolding check_internal_token
  internal_auth_middleware none = err (other_error "INTERNAL_SERVICE_TOKEN is required")
  internal_auth_middleware (some token) =
      if token == ""
      then err (other_error "INTERNAL_SERVICE_TOKEN is required")
      else ok (check_internal_token token)

  -- `ApiKeyAuthProvider.authenticate`, behind `ExternalAuthService.authenticateApiKey`.
  unfoldable pub authenticate : (public_api_key : String) → Option String → Option Json
  unfolding timing_safe_equals
  authenticate public_api_key api_key =
      if timing_safe_equals api_key (some public_api_key) then some authenticated_client else none

  unfoldable pub api_key_auth_middleware : (public_api_key : String) → Request → Handled
  unfolding authenticate
  api_key_auth_middleware public_api_key req =
      elim (authenticate public_api_key (header_text "x-api-key" req)) [
        | none ↦ unauthorized "Invalid or missing API key" req
        | some client ↦ next req none (some client)
      ]

-- Only the same text, which is not empty, is equal.
pub timing_safe_equals_lem :
    (left : Option String) (right : String)
    → (timing_safe_equals left (some right) ≡ true) ↔ ((left ≡ some right) × (right ≢ ""))
unfolding timing_safe_equals
timing_safe_equals_lem none right = ((λ h. absurd (ground arith)), (λ h. absurd (ground arith)))
timing_safe_equals_lem (some left) right = (
  (λ h.
      (ground (arith, h, eq_iff left right), λ e. absurd (ground (arith, h, e, eq_iff right "")))),
  (λ h. ground (
    arith,
    h.0,
    h.1,
    eq_refl left,
    eq_iff right "",
    eq_refl right,
    eq_iff left "",
    eq_iff left right,
  )),
)

-- A middleware that lets a request through exactly when a header is a secret text, and else answers
-- 401; `auth` is what it sets for the handlers that follow.
pub record Guards (valid : String → Bool) (name secret message : String) (auth : Option Json)
    (handler : Request → Handled) : Type 0 where
  pub admits :
      (req : Request) → header_text name req ≡ some secret → handler req ≡ next req none auth
  pub refuses :
      (req : Request)
      → header_text name req ≢ some secret
      → handler req ≡ unauthorized valid message req

not-equal :
    (left : Option String) (right : String)
    → left ≢ some right
    → timing_safe_equals left (some right) ≡ false
not-equal left right h = elim (Bool-cases (timing_safe_equals left (some right))) [
  | inl same ↦ absurd (h ((timing_safe_equals_lem left right).0 same).0)
  | inr other ↦ other
]

-- With a configured token, the internal authentication lets a request through exactly if its
-- `x-internal-token` is that token, and else answers 401.
pub internal_auth_middleware-Guards :
    (valid : String → Bool) (token : String)
    → token ≢ ""
    → (handler : Request → Handled) × (internal_auth_middleware valid (some token) ≡ ok handler)
      × Guards valid "x-internal-token" token "Invalid or missing internal token" none handler
unfolding internal_auth_middleware check_internal_token
internal_auth_middleware-Guards valid token h = (
  check_internal_token valid token,
  rw (eq-false_of_ne token "" h) refl,
  record {
    admits = λ req e.
        rw ((timing_safe_equals_lem (header_text "x-internal-token" req) token).1 (e, h)) refl;
    refuses = λ req ne. rw (not-equal (header_text "x-internal-token" req) token ne) refl;
  },
)

-- With a configured key, the gateway's authentication lets a request through, with the local
-- client's identity, exactly if its `x-api-key` is that key, and else answers 401.
pub api_key_auth_middleware-Guards :
    (valid : String → Bool) (key : String)
    → key ≢ ""
    → Guards valid "x-api-key" key "Invalid or missing API key"
        (some authenticated_client)
        (api_key_auth_middleware valid key)
unfolding api_key_auth_middleware authenticate
api_key_auth_middleware-Guards valid key h = record {
  admits =
      λ req e. ground (arith, (timing_safe_equals_lem (header_text "x-api-key" req) key).1 (e, h));
  refuses = λ req ne. ground (arith, not-equal (header_text "x-api-key" req) key ne);
}
