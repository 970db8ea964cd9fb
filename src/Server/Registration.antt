-- ===== src/Server/Registration.antt =====
-- What services/payment-service/src/server/init-custom-routes.ts registers.
use mathlib.Core.Path.{subst}
use payment_orchestration_pl.Prelude.{
  String, ◌≡◌, ◌≢◌, refl, inl, inr, ◌⊎◌, Bool, ◌||◌, Option, none, some, List, [], ◌∷◌, ◌++◌, ◌==◌,
  arith, Bool-cases, Option-cases, ne_of_eq-false,
}
use payment_orchestration_pl.Errors.{Thrown, Result, ok, err}
use payment_orchestration_pl.OpenApi.Paths.{HttpMethod, RouteRequestValidation, RouteSettings}
use payment_orchestration_pl.Server.{
  Resolved, Container, Registered, split_dots, resolve_middleware, resolve_middlewares,
  resolve_parts, resolve_controller, register_route, init_custom_routes,
}

Result-cases : {A : Type 0} (r : Result A) → ((e : Thrown) × (r ≡ err e)) ⊎ ((a : A) × (r ≡ ok a))
Result-cases (err e) = inl (e, refl)
Result-cases (ok a) = inr (a, refl)

module _ {H : Type 0} (container : Container H) where
  -- The container has the name, and it is a function.
  pub record IsMiddleware (name : String) (handler : H) : Type 0 where
    pub resolved : Resolved H
    pub found : container.resolve name ≡ some resolved
    pub is_function : resolved.function ≡ some handler

  abbrev pub AreMiddlewares : List String → List H → Type 0
  AreMiddlewares [] [] = Unit
  AreMiddlewares (name ∷ names) (handler ∷ handlers) =
      IsMiddleware name handler × AreMiddlewares names handlers
  AreMiddlewares _ _ = ⊥

  -- The path names a controller of the container and one of its methods.
  pub record IsController (controller_path : String) (handler : H) : Type 0 where
    pub controller_name : String
    pub method_name : String
    pub parts : split_dots controller_path ≡ controller_name ∷ method_name ∷ []
    pub named : controller_name ≢ ""
    pub method_named : method_name ≢ ""
    pub controller : Resolved H
    pub found : container.resolve controller_name ≡ some controller
    pub is_method : controller.method method_name ≡ some handler

  middleware_lem :
      (name : String) (h : H) → resolve_middleware container name ≡ ok h → IsMiddleware name h
  unfolding resolve_middleware
  middleware_lem name h e = elim (Option-cases (container.resolve name)) [
    | inl missing ↦ absurd (ground arith)
    | inr (r, found) ↦ elim (Option-cases r.function) [
      | inl no_function ↦ absurd (ground arith)
      | inr (f, is_function) ↦ record { resolved = r; found = found; is_function = ground arith }
    ]
  ]

  middlewares_lem :
      (names : List String) (hs : List H)
      → resolve_middlewares container names ≡ ok hs
      → AreMiddlewares names hs
  unfolding resolve_middlewares
  middlewares_lem [] [] e = tt
  middlewares_lem [] (h ∷ hs) e = absurd (ground arith)
  middlewares_lem (name ∷ names) hs e = elim (Result-cases (resolve_middleware container name)) [
    | inl (x, f) ↦ absurd (ground arith)
    | inr (h, f) ↦ elim (Result-cases (resolve_middlewares container names)) [
      | inl (x, g) ↦ absurd (ground arith)
      | inr (hs', g) ↦
          let all : AreMiddlewares (name ∷ names) (h ∷ hs') =
            (middleware_lem name h f, middlewares_lem names hs' g) in
          let same : h ∷ hs' ≡ hs = ground arith in subst (AreMiddlewares (name ∷ names)) same all
    ]
  ]

  parts_lem :
      (controller_path : String) (parts : List String) (h : H)
      → split_dots controller_path ≡ parts
      → resolve_parts container controller_path parts ≡ ok h
      → IsController controller_path h
  parts_lem path (c ∷ m ∷ []) h p e = elim (Bool-cases (c == "" || m == "")) [
    | inl empty ↦ absurd (ground arith)
    | inr named ↦ elim (Option-cases (container.resolve c)) [
      | inl missing ↦ absurd (ground arith)
      | inr (r, found) ↦ elim (Option-cases (r.method m)) [
        | inl no_method ↦ absurd (ground arith)
        | inr (f, is_method) ↦ record {
          controller_name = c;
          method_name = m;
          parts = p;
          named = ne_of_eq-false c "" (ground arith);
          method_named = ne_of_eq-false m "" (ground arith);
          controller = r;
          found = found;
          is_method = ground arith;
        }
      ]
    ]
  ]
  parts_lem path _ h p e = absurd (ground arith)

  module _ {Schema : Type 0} (supports : HttpMethod → Bool)
      (validation_handler : RouteRequestValidation Schema → H) where
    -- A route is registered with its middlewares, in their order, before its validation, and that
    -- before its controller.
    pub record IsRegistration (route : RouteSettings Schema) (registered : Registered H)
        : Type 0 where
      pub method : registered.method ≡ route.method
      pub path : registered.path ≡ route.path
      pub middlewares : List H
      pub controller : H
      pub handlers :
          registered.handlers
          ≡ middlewares ++ (validation_handler route.validation ∷ controller ∷ [])
      pub are_middlewares : AreMiddlewares route.middlewares middlewares
      pub is_controller : IsController route.controller controller

    -- What is registered are the first of the routes, each as it should be: all of them, if nothing
    -- is thrown.
    pub data IsWiring
        : List (RouteSettings Schema) → Option Thrown → List (Registered H) → Type 0 where
      finished : IsWiring [] none []
      stopped :
          (route : RouteSettings Schema) (routes : List (RouteSettings Schema)) (e : Thrown)
          → register_route container supports validation_handler route ≡ err e
          → IsWiring (route ∷ routes) (some e) []
      registers :
          (route : RouteSettings Schema) (registered : Registered H)
          (routes : List (RouteSettings Schema)) (e : Option Thrown) (table : List (Registered H))
          → IsRegistration route registered
          → IsWiring routes e table
          → IsWiring (route ∷ routes) e (registered ∷ table)

    route_lem :
        (route : RouteSettings Schema) (registered : Registered H)
        → register_route container supports validation_handler route ≡ ok registered
        → IsRegistration route registered
    unfolding register_route resolve_controller
    route_lem route registered e = elim (Bool-cases (supports route.method)) [
      | inr unsupported ↦ absurd (ground arith)
      | inl supported ↦ elim (Result-cases (resolve_middlewares container route.middlewares)) [
        | inl (x, f) ↦ absurd (ground arith)
        | inr (ms, f) ↦ elim (Result-cases (resolve_controller container route.controller)) [
          | inl (x, g) ↦ absurd (ground arith)
          | inr (c, g) ↦ record {
            method = ground arith;
            path = ground arith;
            middlewares = ms;
            controller = c;
            handlers = ground arith;
            are_middlewares = middlewares_lem route.middlewares ms f;
            is_controller = parts_lem route.controller (split_dots route.controller) c refl g;
          }
        ]
      ]
    ]

    -- The registration of any routes.
    pub init_custom_routes-IsWiring :
        (routes : List (RouteSettings Schema))
        → (let outcome = init_custom_routes container supports validation_handler routes in
            IsWiring routes outcome.0 outcome.1)
    unfolding init_custom_routes
    init_custom_routes-IsWiring [] = finished
    init_custom_routes-IsWiring (route ∷ routes) =
        elim (Result-cases (register_route container supports validation_handler route)) [
          | inl (x, e) ↦ rw (init_custom_routes, e) (stopped route routes x e)
          | inr (registered, e) ↦
              rw (init_custom_routes, e)
                (registers route registered routes _ _ (route_lem route registered e)
                  (init_custom_routes-IsWiring routes))
        ]
