-- ===== src/Server/Guarded.antt =====
-- What a request to a registered route meets, services/*/src/server. Express's chain of handlers and
-- Joi's `validate` are parameters.
use mathlib.Core.Path.{subst}
use payment_orchestration_pl.Prelude.{
  ℕ, String, ◌≡◌, ◌≢◌, refl, sym, ◌∙◌, ap, Bool, Option, none, some, List, [], ◌∷◌, ◌++◌, arith,
  All,
}
use payment_orchestration_pl.Errors.{Thrown, ok}
use payment_orchestration_pl.Json.{Json}
use payment_orchestration_pl.Http.{Request, Handled, responds, next, header_text}
use payment_orchestration_pl.Http.Auth.{
  Guards, unauthorized, internal_auth_middleware, internal_auth_middleware-Guards,
  api_key_auth_middleware, api_key_auth_middleware-Guards, authenticated_client,
}
use payment_orchestration_pl.Http.Validation.{
  RequestSegment, body, params, query, headers, Validated, create_validation_handler,
}
use payment_orchestration_pl.OpenApi.Paths.{HttpMethod, RouteRequestValidation, RouteSettings}
use payment_orchestration_pl.Server.{Resolved, Container, Registered, init_custom_routes}
use payment_orchestration_pl.Server.Registration.{
  IsMiddleware, AreMiddlewares, IsController, IsRegistration, IsWiring, finished, stopped,
  registers, init_custom_routes-IsWiring,
}
use payment_orchestration_pl.Server.Routes.{Schema}
use payment_orchestration_pl.Server.Routes.Internal
use payment_orchestration_pl.Server.Routes.Public

abbrev pub Handler : Type 0
Handler = Request → Handled

-- How Express calls the handlers of a route: the next one when a handler calls `next()`, and no
-- other when it responds.
pub record Express : Type 0 where
  pub run : List Handler → Handler
  pub run_responds :
      (h : Handler) (hs : List Handler) (req : Request) (status : ℕ) (content : Json)
      → h req ≡ responds status content
      → run (h ∷ hs) req ≡ responds status content
  pub run_next :
      (h : Handler) (hs : List Handler) (req req' : Request) (header auth : Option Json)
      → h req ≡ next req' header auth
      → run (h ∷ hs) req ≡ run hs req'

-- The schemas of a route by the segment that they are for.
abbrev pub segment_schema :
    (Schema → Bool → Json → Validated)
    → RouteRequestValidation Schema
    → RequestSegment
    → Option (Bool → Json → Validated)
segment_schema validate v body = elim v.body [ none ↦ none | some s ↦ some (validate s) ]
segment_schema validate v params = elim v.params [ none ↦ none | some s ↦ some (validate s) ]
segment_schema validate v query = elim v.query [ none ↦ none | some s ↦ some (validate s) ]
segment_schema validate v headers = elim v.headers [ none ↦ none | some s ↦ some (validate s) ]

module _ (express : Express) (valid : String → Bool)
    (validate : Schema → Bool → Json → Validated) where
  abbrev pub validation_handler : RouteRequestValidation Schema → Handler
  validation_handler v = create_validation_handler valid (segment_schema validate v)

  -- A request without the secret is answered 401, whatever it asks for; one that the route's schemas
  -- do not admit is answered by the validation; and any other reaches, as validated, the controller
  -- that the route names.
  pub record IsGuarded (container : Container Handler) (name secret message : String)
      (route : RouteSettings Schema) (registered : Registered Handler) : Type 0 where
    pub method : registered.method ≡ route.method
    pub path : registered.path ≡ route.path
    pub controller : Handler
    pub is_controller : IsController container route.controller controller
    pub refuses :
        (req : Request)
        → header_text name req ≢ some secret
        → express.run registered.handlers req ≡ unauthorized valid message req
    pub rejects :
        (req : Request) (status : ℕ) (content : Json)
        → header_text name req ≡ some secret
        → validation_handler route.validation req ≡ responds status content
        → express.run registered.handlers req ≡ responds status content
    pub reaches :
        (req req' : Request) (header auth : Option Json)
        → header_text name req ≡ some secret
        → validation_handler route.validation req ≡ next req' header auth
        → express.run registered.handlers req ≡ express.run (controller ∷ []) req'

  -- Of each route that is registered.
  abbrev pub AreGuarded :
      (container : Container Handler) (name secret message : String)
      → List (RouteSettings Schema)
      → List (Registered Handler)
      → Type 0
  AreGuarded container name secret message routes [] = Unit
  AreGuarded container name secret message [] (t ∷ ts) = ⊥
  AreGuarded container name secret message (route ∷ routes) (t ∷ ts) =
      IsGuarded container name secret message route t
      × AreGuarded container name secret message routes ts

  module _ (name secret message middleware : String) (auth : Option Json) (guard : Handler)
      (guards : Guards valid name secret message auth guard) where
    handlers-IsGuarded :
        (container : Container Handler) (supports : HttpMethod → Bool)
        (route : RouteSettings Schema) (registered : Registered Handler)
        (h : IsRegistration container supports validation_handler route registered)
        → h.middlewares ≡ guard ∷ []
        → IsGuarded container name secret message route registered
    handlers-IsGuarded container supports route registered h only =
        let e : registered.handlers
            ≡ guard ∷ validation_handler route.validation ∷ h.controller ∷ [] =
          h.handlers
          ∙ ap (λ hs. hs ++ (validation_handler route.validation ∷ h.controller ∷ [])) only in
        record {
          method = h.method;
          path = h.path;
          controller = h.controller;
          is_controller = h.is_controller;
          refuses = λ req k. rw e (express.run_responds guard _ req _ _ (guards.refuses req k));
          rejects = λ req status content k v. rw e (
              express.run_next guard _ req req _ _ (guards.admits req k)
              ∙ express.run_responds _ _ req status content v);
          reaches = λ req req' header shown k v. rw e (
              express.run_next guard _ req req _ _ (guards.admits req k)
              ∙ express.run_next _ _ req req' header shown v);
        }

    module _ (container : Container Handler) (is_guard : IsMiddleware container middleware guard)
        (supports : HttpMethod → Bool) where
      only_guard :
          (handlers : List Handler)
          → AreMiddlewares container (middleware ∷ []) handlers
          → handlers ≡ guard ∷ []
      only_guard [] h = absurd h
      only_guard (x ∷ []) h =
          let r : Resolved Handler = h.0.resolved in
          let same : some r ≡ some is_guard.resolved = sym h.0.found ∙ is_guard.found in
          ground (arith, h.0.is_function, is_guard.is_function, same)
      only_guard (x ∷ y ∷ hs) h = absurd h.1

      wiring-AreGuarded :
          (routes : List (RouteSettings Schema)) (e : Option Thrown)
          (table : List (Registered Handler))
          → All (λ (r : RouteSettings Schema). r.middlewares ≡ middleware ∷ []) routes
          → IsWiring container supports validation_handler routes e table
          → AreGuarded container name secret message routes table
      wiring-AreGuarded [] e table a finished = tt
      wiring-AreGuarded (route ∷ routes) e table a (stopped _ _ x _) = tt
      wiring-AreGuarded (route ∷ routes) e table a (registers _ registered _ _ rest h w) = (
        handlers-IsGuarded container supports route registered h (
            only_guard h.middlewares (
              subst (λ names. AreMiddlewares container names h.middlewares) a.0 h.are_middlewares)),
        wiring-AreGuarded routes e rest a.1 w,
      )

module _ (express : Express) (valid : String → Bool) (validate : Schema → Bool → Json → Validated)
    (container : Container Handler) (supports : HttpMethod → Bool) where
  -- Every route of the payment service that is registered in a container whose
  -- `internalAuthMiddleware` is the middleware for a configured token answers 401 to a request
  -- without the token, whatever else it holds; answers as its validation does where that responds;
  -- and else gives the request, as validated, to the method that the route names of the controller
  -- that the container has under the name before the dot. It is registered under the method and
  -- the path of its route.
  pub payment_service-AreGuarded :
      (token : String) (guard : Handler)
      → internal_auth_middleware valid (some token) ≡ ok guard
      → token ≢ ""
      → IsMiddleware container "internalAuthMiddleware" guard
      → AreGuarded express valid validate container "x-internal-token" token
          "Invalid or missing internal token" Internal.payment_routes
          (init_custom_routes container supports
            (validation_handler express valid validate)
            Internal.payment_routes).1
  unfolding Internal.payment_routes Internal.create_route Internal.get_by_id_route
      Internal.capture_route
  payment_service-AreGuarded token guard e h m =
      let (guard', e', guards) = internal_auth_middleware-Guards valid token h in
      let same : guard' ≡ guard = ground (arith, e, e') in
      wiring-AreGuarded express valid validate "x-internal-token" token
        "Invalid or missing internal token" "internalAuthMiddleware" none guard
        (subst (Guards valid "x-internal-token" token "Invalid or missing internal token" none) same
          guards)
        container m supports Internal.payment_routes _ _ (refl, (refl, (refl, tt)))
        (init_custom_routes-IsWiring container supports (validation_handler express valid validate)
          Internal.payment_routes)

  -- And the gateway's routes.
  pub gateway-AreGuarded :
      (key : String)
      → key ≢ ""
      → IsMiddleware container "apiKeyAuthMiddleware" (api_key_auth_middleware valid key)
      → AreGuarded express valid validate container "x-api-key" key "Invalid or missing API key"
          Public.payment_routes
          (init_custom_routes container supports
            (validation_handler express valid validate)
            Public.payment_routes).1
  unfolding Public.payment_routes Public.create_route Public.get_by_id_route Public.capture_route
  gateway-AreGuarded key h m =
      wiring-AreGuarded express valid validate "x-api-key" key "Invalid or missing API key"
        "apiKeyAuthMiddleware" (some authenticated_client) (api_key_auth_middleware valid key)
        (api_key_auth_middleware-Guards valid key h) container m supports Public.payment_routes _ _
        (refl, (refl, (refl, tt)))
        (init_custom_routes-IsWiring container supports (validation_handler express valid validate)
          Public.payment_routes)
