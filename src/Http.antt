-- ===== src/Http.antt =====
-- What the middlewares of the services see of Express: a request, of which each segment is JSON, and
-- how a middleware ends it. A repeated header is an array.
pub mod Auth
pub mod Validation
pub mod Correlation
pub mod CorrelationId
mod Tests
use payment_orchestration_pl.Prelude.{ℕ, String, Option, none, some, List}
use payment_orchestration_pl.Errors.{Thrown}
use payment_orchestration_pl.Json.{Json, str, member}

pub record Request : Type 0 where
  pub body : Json
  pub params : Json
  pub query : Json
  pub headers : Json

-- `res.status(…).json(…)`, or `next()` with the request that goes on, the response's correlation
-- header and `res.locals.auth` where they are set, or `next(error)`.
pub data Handled : Type 0 where
  responds : (status : ℕ) (body : Json) → Handled
  next : (request : Request) (response_header locals_auth : Option Json) → Handled
  next_error : Thrown → Handled

-- `typeof value === 'string' ? value : undefined`
abbrev pub text_of : Option Json → Option String
text_of (some (str s)) = some s
text_of _ = none

abbrev pub header_text : String → Request → Option String
header_text name req = text_of (member name req.headers)
