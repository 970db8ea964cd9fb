-- ===== src/OpenApi/Setup.antt =====
-- packages/openapi-kit/src/setup-openapi.ts: what the documentation of a service answers.
use Prim.Native.String.{◌++◌}
use payment_orchestration_pl.Prelude.{String, Option, List, [], ◌∷◌, get_or}
use payment_orchestration_pl.Json.{Json}
use payment_orchestration_pl.OpenApi.{JoiDescription}
use payment_orchestration_pl.OpenApi.Paths.{RouteSettings, generate_open_api_document}

pub record SetupOpenApiOptions (Schema : Type 0) : Type 0 where
  pub docs_path : String
  pub title : String
  pub version : Option String
  pub routes : List (RouteSettings Schema)

-- A call on the Express application.
pub data DocumentationLayer : Type 0 where
  get_document : (path : String) (document : Json) → DocumentationLayer
  use_swagger_ui : (path : String) (document : Json) → DocumentationLayer

module _ {Schema : Type 0} (describe : Schema → JoiDescription) where
  unfoldable pub setup_open_api : SetupOpenApiOptions Schema → List DocumentationLayer
  unfolding generate_open_api_document
  setup_open_api options =
      let document =
        generate_open_api_document describe options.title (get_or options.version "1.0.0")
          options.routes in
      get_document (options.docs_path ++ ".json") document
      ∷ use_swagger_ui options.docs_path document
      ∷ []
