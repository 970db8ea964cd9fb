-- ===== src/Server/Application.antt =====
-- services/payment-service/src/server/server.ts: what the application is made of, in its order. The other
-- services have copies.
pub mod Origins
pub mod Layers
use Prim.Native.Char.{code}
use Prim.Native.String.{◌++◌ as ◌+s+◌}
use payment_orchestration_pl.Prelude.{
  ℕ, String, Bool, true, false, ◌&&◌, ◌||◌, not, Option, none, some, List, [], ◌∷◌, ◌++◌, ◌==◌, leb,
  nat_eq, if◌then◌else◌,
}
use payment_orchestration_pl.Errors.{Thrown, Result, ok, err}
use payment_orchestration_pl.Configuration.{Environment}
use payment_orchestration_pl.OpenApi.Paths.{HttpMethod, RouteRequestValidation, RouteSettings}
use payment_orchestration_pl.Server.{Container, Registered, split_on, init_custom_routes}

-- The white space of JavaScript's `trim`.
abbrev pub is_space : ℕ → Bool
is_space c =
    leb 9 c && leb c 13
    || nat_eq c 32
    || nat_eq c 160
    || nat_eq c 5760
    || leb 8192 c && leb c 8202
    || nat_eq c 8232
    || nat_eq c 8233
    || nat_eq c 8239
    || nat_eq c 8287
    || nat_eq c 12288
    || nat_eq c 65279

abbrev pub trim_start : String → String
trim_start String.[] = ""
trim_start (String.◌∷◌ c s) = if is_space (code c) then trim_start s else String.◌∷◌ c s

abbrev pub trim_end : String → String
trim_end String.[] = ""
trim_end (String.◌∷◌ c s) =
    let rest = trim_end s in if is_space (code c) && rest == "" then "" else String.◌∷◌ c rest

abbrev pub trim : String → String
trim s = trim_end (trim_start s)

abbrev pub trimmed : List String → List String
trimmed [] = []
trimmed (s ∷ ss) = if trim s == "" then trimmed ss else trim s ∷ trimmed ss

abbrev or_empty : Option String → String
or_empty none = ""
or_empty (some s) = s

unfoldable pub parse_allowed_origins : Option String → List String
parse_allowed_origins value = trimmed (split_on b',' (or_empty value))

abbrev pub includes : String → List String → Bool
includes s [] = false
includes s (t ∷ ts) = t == s || includes s ts

-- The decision of the CORS callback.
unfoldable pub allows_origin : (allowed_origins : List String) → Option String → Bool
allows_origin allowed_origins none = false
allows_origin allowed_origins (some origin) = not (origin == "") && includes origin allowed_origins

-- One call on the Express application.
pub data Layer (H : Type 0) : Type 0 where
  json_parser : Layer H
  cors : (allowed_origins : List String) → Layer H
  correlation : Layer H
  route : Registered H → Layer H
  health : (service_name : Option String) → Layer H
  errors : Layer H
  open_api : (docs_path title : String) → Layer H

abbrev is_text : Option String → String → Bool
is_text none t = false
is_text (some s) t = s == t

abbrev name_or : Option String → String → String
name_or none d = d
name_or (some s) d = s

abbrev pub routes_of : {H : Type 0} → List (Registered H) → List (Layer H)
routes_of [] = []
routes_of (r ∷ rs) = route r ∷ routes_of rs

abbrev pub cors_layer : {H : Type 0} → List String → List (Layer H)
cors_layer [] = []
cors_layer (o ∷ os) = cors (o ∷ os) ∷ []

module _ {H : Type 0} (env : Environment) where
  unfoldable pub register_cors : List (Layer H)
  register_cors = cors_layer (parse_allowed_origins (env "CORS_ALLOWED_ORIGINS"))

  unfoldable pub setup_swagger : List (Layer H)
  setup_swagger =
      if is_text (env "OPENAPI_DOCS_ENABLED") "true"
      then open_api "/internal-docs"
          (name_or (env "SERVICE_NAME") "payment-service" +s+ " Internal API")
        ∷ []
      else []

  unfoldable pub register_middlewares : List (Layer H)
  unfolding register_cors
  register_middlewares = json_parser ∷ (register_cors ++ (correlation ∷ []))

  module _ (container : Container H) {Schema : Type 0} (supports : HttpMethod → Bool)
      (validation_handler : RouteRequestValidation Schema → H) where
    -- The constructor throws what the registration of the routes throws.
    unfoldable pub configure : List (RouteSettings Schema) → Result (List (Layer H))
    unfolding register_middlewares setup_swagger
    configure routes =
        let (error, table) = init_custom_routes container supports validation_handler routes in
        elim error [
          | some e ↦ err e
          | none ↦ ok (
              register_middlewares
              ++ (routes_of table ++ (health (env "SERVICE_NAME") ∷ errors ∷ setup_swagger)))
        ]
