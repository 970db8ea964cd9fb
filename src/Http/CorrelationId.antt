-- ===== src/Http/CorrelationId.antt =====
-- `correlationIdHeaderSchema` of services/payment-service/src/server/validations/common-validations.ts, and
-- the correlation ids that responses show by it.
use mathlib.Core.Path.{subst}
use Prim.Native.Char.{code}
use Prim.Native.String.{count}
use payment_orchestration_pl.Prelude.{
  ℕ, ◌≤◌, String, ◌≡◌, ◌⊎◌, inl, inr, refl, Bool, true, ◌&&◌, Option, none, some, leb, arith,
  Option-cases, Bool-cases, map_option,
}
use payment_orchestration_pl.Errors.{Thrown, api_error, other_error}
use payment_orchestration_pl.Json.{Json, str, member, set_member}
use payment_orchestration_pl.Http.{Request, responds, next, text_of, header_text}
use payment_orchestration_pl.Http.Auth.{error_body, get_valid_correlation_id}
use payment_orchestration_pl.Http.Correlation.{correlation_id_middleware, error_middleware}

-- `[!-~]`
abbrev pub is_visible : ℕ → Bool
is_visible c = leb b'!' c && leb c b'~'

abbrev pub all_visible : String → Bool
all_visible String.[] = true
all_visible (String.◌∷◌ c s) = is_visible (code c) && all_visible s

-- A text of which the pattern admits every character has as many characters as UTF-16 units.
unfoldable pub is_correlation_id : String → Bool
is_correlation_id s = leb 1 (count s) && leb (count s) 128 && all_visible s

abbrev pub AreVisible : String → Type 0
AreVisible String.[] = Unit
AreVisible (String.◌∷◌ c s) = (33 ≤ code c) × (code c ≤ 126) × AreVisible s

pub record IsCorrelationId (s : String) : Type 0 where
  pub not_empty : 1 ≤ count s
  pub bounded : count s ≤ 128
  pub visible : AreVisible s

all_visible-AreVisible : (s : String) → all_visible s ≡ true → AreVisible s
all_visible-AreVisible String.[] h = tt
all_visible-AreVisible (String.◌∷◌ c s) h =
    (ground (arith, h), ground (arith, h), all_visible-AreVisible s (ground (arith, h)))

is_correlation_id-IsCorrelationId : (s : String) → is_correlation_id s ≡ true → IsCorrelationId s
unfolding is_correlation_id
is_correlation_id-IsCorrelationId s h = record {
  not_empty = ground (arith, h);
  bounded = ground (arith, h);
  visible = all_visible-AreVisible s (ground (arith, h));
}

get_valid_correlation_id-IsCorrelationId :
    (o : Option String) (s : String)
    → get_valid_correlation_id is_correlation_id o ≡ some s
    → IsCorrelationId s
unfolding get_valid_correlation_id
get_valid_correlation_id-IsCorrelationId none s h = absurd (ground (arith, h))
get_valid_correlation_id-IsCorrelationId (some t) s h = elim (Bool-cases (is_correlation_id t)) [
  | inl v ↦
      let same : t ≡ s = ground (arith, h, v) in
      subst IsCorrelationId same (is_correlation_id-IsCorrelationId t v)
  | inr v ↦ absurd (ground (arith, h, v))
]

-- A correlation id that a response has in its header, and in the body of an error.
abbrev pub IsHeader : (uuid : String) → Option Json → Type 0
IsHeader uuid none = Unit
IsHeader uuid (some shown) = (s : String) × (shown ≡ str s) × ((s ≡ uuid) ⊎ IsCorrelationId s)

abbrev pub IsShown : Option String → Type 0
IsShown none = Unit
IsShown (some s) = IsCorrelationId s

get_valid_correlation_id-IsShown :
    (o : Option String) → IsShown (get_valid_correlation_id is_correlation_id o)
get_valid_correlation_id-IsShown o =
    elim (Option-cases (get_valid_correlation_id is_correlation_id o)) [
      | inl e ↦ rw e tt
      | inr (s, e) ↦ rw e (get_valid_correlation_id-IsCorrelationId o s e)
    ]

get_valid_correlation_id-IsHeader :
    (uuid : String) (o : Option String)
    → IsHeader uuid (map_option str (get_valid_correlation_id is_correlation_id o))
get_valid_correlation_id-IsHeader uuid o =
    elim (Option-cases (get_valid_correlation_id is_correlation_id o)) [
      | inl e ↦ rw e tt
      | inr (s, e) ↦ rw e (s, refl, inr (get_valid_correlation_id-IsCorrelationId o s e))
    ]

-- What a request gets of the two middlewares, by the schema.
pub record ShowsCorrelation (uuid : String) (req : Request) : Type 0 where
  pub request : Request
  pub header : Option Json
  pub goes_on : correlation_id_middleware is_correlation_id uuid req ≡ next request header none
  pub is_header : IsHeader uuid header
  pub errors :
      (e : Thrown)
      → (status : ℕ) × (code : Json) × (message : Json) × (details : Json) × (id : Option String)
        × (error_middleware is_correlation_id e req
            ≡ responds status (error_body code message details id))
        × IsShown id

errors-IsShown :
    (e : Thrown) (req : Request)
    → (status : ℕ) × (code : Json) × (message : Json) × (details : Json) × (id : Option String)
      × (error_middleware is_correlation_id e req
          ≡ responds status (error_body code message details id))
      × IsShown id
unfolding error_middleware
errors-IsShown (api_error e) req =
    (_, _, _, _, _, refl, get_valid_correlation_id-IsShown (header_text "x-correlation-id" req))
errors-IsShown (other_error message) req =
    (_, _, _, _, _, refl, get_valid_correlation_id-IsShown (header_text "x-correlation-id" req))

-- Every request goes on behind the correlation middleware. The correlation id that the response
-- shows in its header is the new UUID or a text of 1 to 128 visible ASCII characters, and that in
-- the body of an error, if there is one, is such a text.
pub correlation_id_middleware-ShowsCorrelation :
    (uuid : String) (req : Request) → ShowsCorrelation uuid req
unfolding correlation_id_middleware
correlation_id_middleware-ShowsCorrelation uuid req =
    elim (Option-cases (member "x-correlation-id" req.headers)) [
      | inl e ↦ record {
        request = record req { headers = set_member "x-correlation-id" (str uuid) req.headers };
        header = some (str uuid);
        goes_on = rw (correlation_id_middleware, e) refl;
        is_header = (uuid, refl, inl refl);
        errors = λ x. errors-IsShown x req;
      }
      | inr (incoming, e) ↦ record {
        request = req;
        header =
            map_option str (get_valid_correlation_id is_correlation_id (text_of (some incoming)));
        goes_on = rw (correlation_id_middleware, e) refl;
        is_header = get_valid_correlation_id-IsHeader uuid (text_of (some incoming));
        errors = λ x. errors-IsShown x req;
      }
    ]
