-- ===== src/Http/Correlation.antt =====
-- services/payment-service/src/server/middlewares: correlation ids, and the responses to errors.
-- `correlationIdHeaderSchema` is a parameter, as `valid`.
use payment_orchestration_pl.Prelude.{
  String, ◌≡◌, refl, inl, inr, Bool, true, Option, none, some, arith, map_option, eq_refl,
  Option-cases,
}
use payment_orchestration_pl.Errors.{Thrown, api_error, other_error}
use payment_orchestration_pl.Json.{
  Json, null, bool, num, str, instant, arr, obj, Fields, end, field, member, member_of, set_member,
  set_member_of,
}
use payment_orchestration_pl.Http.{Request, Handled, responds, next, text_of, header_text}
use payment_orchestration_pl.Http.Auth.{error_body, get_valid_correlation_id}

-- `correlationIdMiddleware`, for the UUID that it would draw: a request without the header gets a new
-- one; the response shows the header where it is valid.
unfoldable pub correlation_id_middleware : (String → Bool) → (uuid : String) → Request → Handled
correlation_id_middleware valid uuid req = elim (member "x-correlation-id" req.headers) [
  | some incoming ↦
      next req (map_option str (get_valid_correlation_id valid (text_of (some incoming)))) none
  | none ↦
      next (record req { headers = set_member "x-correlation-id" (str uuid) req.headers })
        (some (str uuid)) none
]

-- `details ?? null`
abbrev pub or_null : Option Json → Json
or_null none = null
or_null (some details) = details

-- `errorMiddleware`: an error that is no `ApiError` is not shown.
unfoldable pub error_middleware : (String → Bool) → Thrown → Request → Handled
error_middleware valid (api_error e) req = responds e.status_code (
    error_body (str e.code) (str e.message) (or_null e.details)
      (get_valid_correlation_id valid (header_text "x-correlation-id" req)))
error_middleware valid (other_error message) req = responds 500 (
    error_body (str "INTERNAL_SERVER_ERROR") (str "Internal server error") null
      (get_valid_correlation_id valid (header_text "x-correlation-id" req)))

member-set_member :
    (name : String) (v : Json) (fs : Fields) → member_of name (set_member_of name v fs) ≡ some v
member-set_member name v end = ground (arith, eq_refl name)
member-set_member name v (field key w fs) =
    ground (arith, eq_refl name, member-set_member name v fs)

-- What a request is known by after the middleware: the header that it brought, or the new one; the
-- response shows it, unless it is one that was brought and is not valid.
pub record IsCorrelated (valid : String → Bool) (uuid : String) (req : Request) (x : Handled)
    : Type 0 where
  pub request : Request
  pub shown : Option Json
  pub goes_on : x ≡ next request shown none
  pub correlation_id : Json
  pub carries : member "x-correlation-id" request.headers ≡ some correlation_id
  pub kept :
      (incoming : Json)
      → member "x-correlation-id" req.headers ≡ some incoming
      → (request ≡ req) × (correlation_id ≡ incoming)
  pub fresh :
      member "x-correlation-id" req.headers ≡ none
      → (correlation_id ≡ str uuid) × (shown ≡ some (str uuid))
  pub shows : (s : String) → shown ≡ some (str s) → correlation_id ≡ str s
  pub shows_valid : (s : String) → correlation_id ≡ str s → valid s ≡ true → shown ≡ some (str s)

shown_text :
    (valid : String → Bool) (incoming : Json) (s : String)
    → map_option str (get_valid_correlation_id valid (text_of (some incoming))) ≡ some (str s)
    → incoming ≡ str s
unfolding get_valid_correlation_id
shown_text valid (str t) s h = ground (arith, h)
shown_text valid null s h = absurd (ground arith)
shown_text valid (bool b) s h = absurd (ground arith)
shown_text valid (num n) s h = absurd (ground arith)
shown_text valid (instant t) s h = absurd (ground arith)
shown_text valid (arr xs) s h = absurd (ground arith)
shown_text valid (obj fs) s h = absurd (ground arith)

-- Every request goes on with a correlation id, its own or a new one where it has none; and the
-- response shows no other.
pub correlation_id_middleware-IsCorrelated :
    (valid : String → Bool) (uuid : String) (content params query : Json) (headers : Fields)
    → (let req : Request = record {
      body = content;
      params = params;
      query = query;
      headers = obj headers;
    } in
        IsCorrelated valid uuid req (correlation_id_middleware valid uuid req))
unfolding correlation_id_middleware get_valid_correlation_id
correlation_id_middleware-IsCorrelated valid uuid content params query headers =
    elim (Option-cases (member_of "x-correlation-id" headers)) [
      | inl absent ↦ record {
        request = record {
          body = content;
          params = params;
          query = query;
          headers = obj (set_member_of "x-correlation-id" (str uuid) headers);
        };
        shown = some (str uuid);
        goes_on = ground (arith, absent);
        correlation_id = str uuid;
        carries = member-set_member "x-correlation-id" (str uuid) headers;
        kept = λ incoming e. absurd (ground (arith, absent, e));
        fresh = λ e. (refl, refl);
        shows = λ s e. ground (arith, e);
        shows_valid = λ s e v. ground (arith, e);
      }
      | inr (incoming, present) ↦ record {
        request = record { body = content; params = params; query = query; headers = obj headers };
        shown = map_option str (get_valid_correlation_id valid (text_of (some incoming)));
        goes_on = ground (arith, present);
        correlation_id = incoming;
        carries = present;
        kept = λ other e. (refl, ground (arith, present, e));
        fresh = λ e. absurd (ground (arith, present, e));
        shows = λ s e. shown_text valid incoming s e;
        shows_valid = λ s e v. ground (arith, e, v);
      }
    ]
