-- ===== src/Server.antt =====
-- services/payment-service/src/server/init-custom-routes.ts, of which services/api-gateway/src has a copy:
-- how the routes are registered. `H` is the type of Express's request handlers; Awilix's container and
-- the methods of Express's application are parameters.
pub mod Routes
pub mod Registration
pub mod Guarded
pub mod Controllers
pub mod Application
mod Tests
use Prim.Native.Char.{Char, code}
use Prim.Native.String.{◌++◌ as ◌+s+◌}
use payment_orchestration_pl.Prelude.{
  ℕ, String, Bool, true, false, ◌||◌, not, Option, none, some, List, [], ◌∷◌, ◌++◌, ◌==◌, nat_eq,
  if◌then◌else◌,
}
use payment_orchestration_pl.Errors.{Thrown, other_error, Result, ok, err}
use payment_orchestration_pl.OpenApi.Paths.{
  HttpMethod, method_name, RouteRequestValidation, RouteSettings,
}

-- What the container resolves a name to: the handler that it is, if it is a function, and its methods.
pub record Resolved (H : Type 0) : Type 0 where
  pub function : Option H
  pub method : String → Option H

-- `hasRegistration`, and `resolve` for a name that it has.
pub record Container (H : Type 0) : Type 0 where
  pub resolve : String → Option (Resolved H)

-- One call of `app[method](path, ...handlers)`.
pub record Registered (H : Type 0) : Type 0 where
  pub method : HttpMethod
  pub path : String
  pub handlers : List H

abbrev pub cons_first : Char → List String → List String
cons_first c [] = String.◌∷◌ c "" ∷ []
cons_first c (s ∷ ss) = String.◌∷◌ c s ∷ ss

-- `split(separator)`, for one character.
abbrev pub split_on : (separator : ℕ) → String → List String
split_on separator String.[] = "" ∷ []
split_on separator (String.◌∷◌ c s) =
    let rest = split_on separator s in
    if nat_eq (code c) separator then "" ∷ rest else cons_first c rest

abbrev pub split_dots : String → List String
split_dots = split_on b'.'

module _ {H : Type 0} (container : Container H) where
  abbrev pub function_of : String → Option (Resolved H) → Result H
  function_of name none = err (other_error ("Middleware not found: " +s+ name))
  function_of name (some resolved) = elim resolved.function [
    | some handler ↦ ok handler
    | none ↦ err (other_error ("Middleware not found: " +s+ name))
  ]

  unfoldable pub resolve_middleware : String → Result H
  resolve_middleware name = function_of name (container.resolve name)

  unfoldable pub resolve_middlewares : List String → Result (List H)
  unfolding resolve_middleware
  resolve_middlewares [] = ok []
  resolve_middlewares (name ∷ names) = elim (resolve_middleware name) [
    | err e ↦ err e
    | ok handler ↦ elim (resolve_middlewares names) [
      | err e ↦ err e
      | ok handlers ↦ ok (handler ∷ handlers)
    ]
  ]

  abbrev pub method_of :
      (controller_path controller_name method_name : String) → Option (Resolved H) → Result H
  method_of controller_path controller_name method_name none =
      err (other_error ("Controller not found: " +s+ controller_name))
  method_of controller_path controller_name method_name (some controller) =
      elim (controller.method method_name) [
        | some handler ↦ ok handler
        | none ↦ err (other_error ("Controller method not found: " +s+ controller_path))
      ]

  abbrev pub resolve_parts : (controller_path : String) → List String → Result H
  resolve_parts controller_path (controller_name ∷ method_name ∷ []) =
      if controller_name == "" || method_name == ""
      then err (other_error ("Invalid route controller: " +s+ controller_path))
      else method_of controller_path controller_name method_name (container.resolve controller_name)
  resolve_parts controller_path _ =
      err (other_error ("Invalid route controller: " +s+ controller_path))

  unfoldable pub resolve_controller : String → Result H
  resolve_controller controller_path = resolve_parts controller_path (split_dots controller_path)

  -- `supports` is `typeof app[method] === 'function'`, and `validation_handler` is
  -- `createValidationHandler`.
  module _ {Schema : Type 0} (supports : HttpMethod → Bool)
      (validation_handler : RouteRequestValidation Schema → H) where
    -- The body of the loop.
    unfoldable pub register_route : RouteSettings Schema → Result (Registered H)
    unfolding resolve_middlewares resolve_controller
    register_route route =
        if not (supports route.method)
        then err (other_error ("Unsupported HTTP method: " +s+ method_name route.method))
        else elim (resolve_middlewares route.middlewares) [
          | err e ↦ err e
          | ok middlewares ↦ elim (resolve_controller route.controller) [
            | err e ↦ err e
            | ok controller ↦ ok (record {
              method = route.method;
              path = route.path;
              handlers = middlewares ++ (validation_handler route.validation ∷ controller ∷ []);
            })
          ]
        ]

    -- What is thrown, if anything, and the calls that were made before.
    unfoldable pub init_custom_routes :
        List (RouteSettings Schema) → Option Thrown × List (Registered H)
    unfolding register_route
    init_custom_routes [] = (none, [])
    init_custom_routes (route ∷ routes) =
        let rest = init_custom_routes routes in
        elim (register_route route) [
          | err e ↦ (some e, [])
          | ok registered ↦ (rest.0, registered ∷ rest.1)
        ]
