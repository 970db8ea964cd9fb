-- ===== src/Server/Application/Layers.antt =====
-- The order of the layers of services/payment-service/src/server/server.ts.
use mathlib.Core.Path.{subst}
use payment_orchestration_pl.Prelude.{
  String, ◌≡◌, refl, sym, ap, ◌∙◌, Bool, true, false, none, List, [], ◌∷◌, ◌++◌, arith,
  Option-cases, inl, inr,
}
use payment_orchestration_pl.Errors.{ok}
use payment_orchestration_pl.Configuration.{Environment}
use payment_orchestration_pl.OpenApi.Paths.{HttpMethod, RouteRequestValidation, RouteSettings}
use payment_orchestration_pl.Server.{Container, Registered, init_custom_routes}
use payment_orchestration_pl.Server.Registration.{IsWiring, init_custom_routes-IsWiring}
use payment_orchestration_pl.Server.Application.{
  Layer, json_parser, correlation, route, health, errors, routes_of, cors_layer, register_cors,
  setup_swagger, register_middlewares, parse_allowed_origins, configure,
}

module _ {H : Type 0} where
  abbrev pub routes_in : List (Layer H) → List (Registered H)
  routes_in [] = []
  routes_in (route r ∷ ls) = r ∷ routes_in ls
  routes_in (l ∷ ls) = routes_in ls

  -- What comes before the first correlation middleware, and after the last error middleware.
  abbrev pub before_correlation : List (Layer H) → List (Layer H)
  before_correlation [] = []
  before_correlation (correlation ∷ ls) = []
  before_correlation (l ∷ ls) = l ∷ before_correlation ls

  abbrev pub after_errors : List (Layer H) → List (Layer H)
  after_errors [] = []
  after_errors (errors ∷ ls) = ls
  after_errors (l ∷ ls) = after_errors ls

  abbrev pub has_correlation : List (Layer H) → Bool
  has_correlation [] = false
  has_correlation (correlation ∷ ls) = true
  has_correlation (l ∷ ls) = has_correlation ls

  abbrev pub has_errors : List (Layer H) → Bool
  has_errors [] = false
  has_errors (errors ∷ ls) = true
  has_errors (l ∷ ls) = has_errors ls

  errors-routes :
      (table : List (Registered H)) (ls : List (Layer H))
      → has_errors (routes_of table ++ ls) ≡ has_errors ls
  errors-routes [] ls = refl
  errors-routes (r ∷ table) ls = errors-routes table ls

  in-routes :
      (table : List (Registered H)) (ls : List (Layer H))
      → routes_in (routes_of table ++ ls) ≡ table ++ routes_in ls
  in-routes [] ls = refl
  in-routes (r ∷ table) ls = ap (λ rs. r ∷ rs) (in-routes table ls)

  after-routes :
      (table : List (Registered H)) (ls : List (Layer H))
      → after_errors (routes_of table ++ ls) ≡ after_errors ls
  after-routes [] ls = refl
  after-routes (r ∷ table) ls = after-routes table ls

  append-nil : (table : List (Registered H)) → table ++ [] ≡ table
  append-nil [] = refl
  append-nil (r ∷ table) = ap (λ rs. r ∷ rs) (append-nil table)

  middlewares : List String → List (Layer H) → List (Layer H)
  middlewares os ls = (json_parser ∷ (cors_layer os ++ (correlation ∷ []))) ++ ls

  in-middlewares :
      (os : List String) (ls : List (Layer H)) → routes_in (middlewares os ls) ≡ routes_in ls
  unfolding middlewares
  in-middlewares [] ls = refl
  in-middlewares (o ∷ os) ls = refl

  before-middlewares :
      (os : List String) (ls : List (Layer H))
      → routes_in (before_correlation (middlewares os ls)) ≡ []
  unfolding middlewares
  before-middlewares [] ls = refl
  before-middlewares (o ∷ os) ls = refl

  after-middlewares :
      (os : List String) (ls : List (Layer H)) → after_errors (middlewares os ls) ≡ after_errors ls
  unfolding middlewares
  after-middlewares [] ls = refl
  after-middlewares (o ∷ os) ls = refl

  correlation-middlewares :
      (os : List String) (ls : List (Layer H)) → has_correlation (middlewares os ls) ≡ true
  unfolding middlewares
  correlation-middlewares [] ls = refl
  correlation-middlewares (o ∷ os) ls = refl

  errors-middlewares :
      (os : List String) (ls : List (Layer H)) → has_errors (middlewares os ls) ≡ has_errors ls
  unfolding middlewares
  errors-middlewares [] ls = refl
  errors-middlewares (o ∷ os) ls = refl

  module _ (env : Environment) (container : Container H) {Schema : Type 0}
      (supports : HttpMethod → Bool) (validation_handler : RouteRequestValidation Schema → H) where
    -- All routes are registered, each of them behind the correlation middleware and before the
    -- error middleware, which are both there.
    pub record IsLayered (routes : List (RouteSettings Schema)) (layers : List (Layer H))
        : Type 0 where
      pub wired : IsWiring container supports validation_handler routes none (routes_in layers)
      pub correlates : has_correlation layers ≡ true
      pub catches : has_errors layers ≡ true
      pub correlated : routes_in (before_correlation layers) ≡ []
      pub caught : routes_in (after_errors layers) ≡ []

    no-docs : routes_in (setup_swagger {H = H} env) ≡ []
    unfolding setup_swagger
    no-docs = ground arith

    -- In every application that is constructed all routes are registered, each with its resolved
    -- middlewares before its validation and its controller; the correlation middleware and the
    -- error middleware are there; and no route stands before the first or behind the second.
    pub configure-IsLayered :
        (routes : List (RouteSettings Schema)) (layers : List (Layer H))
        → configure env container supports validation_handler routes ≡ ok layers
        → IsLayered routes layers
    unfolding configure register_middlewares register_cors middlewares
    configure-IsLayered routes layers e =
        let outcome = init_custom_routes container supports validation_handler routes in
        elim (Option-cases outcome.0) [
          | inr (x, f) ↦ absurd (ground (arith, e, f))
          | inl f ↦
              let os : List String = parse_allowed_origins (env "CORS_ALLOWED_ORIGINS") in
              let rest : List (Layer H) =
                health (env "SERVICE_NAME") ∷ errors ∷ setup_swagger env in
              let made : List (Layer H) = middlewares os (routes_of outcome.1 ++ rest) in
              let same : made ≡ layers = ground (arith, e, f) in
              let table : List (Registered H) = outcome.1 in
              let shown : routes_in made ≡ table =
                in-middlewares os (routes_of table ++ rest)
                ∙ in-routes table rest
                ∙ ap (λ rs. table ++ rs) no-docs
                ∙ append-nil table in
              subst (IsLayered routes) same (record {
                wired =
                    subst (λ t. IsWiring container supports validation_handler routes none t)
                      (sym shown)
                      (subst (λ x. IsWiring container supports validation_handler routes x table) f
                        (init_custom_routes-IsWiring container supports validation_handler routes));
                correlates = correlation-middlewares os (routes_of outcome.1 ++ rest);
                catches =
                    errors-middlewares os (routes_of outcome.1 ++ rest)
                    ∙ errors-routes outcome.1 rest;
                correlated = before-middlewares os (routes_of outcome.1 ++ rest);
                caught =
                    ap routes_in (
                      after-middlewares os (routes_of outcome.1 ++ rest)
                      ∙ after-routes outcome.1 rest)
                    ∙ no-docs;
              })
        ]
