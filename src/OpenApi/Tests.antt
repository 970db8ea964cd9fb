-- ===== src/OpenApi/Tests.antt =====
-- The documents of concrete routes.
use payment_orchestration_pl.Prelude.{◌≡◌, refl, none, some, [], ◌∷◌}
use payment_orchestration_pl.Json.{str, obj, end, field}
use payment_orchestration_pl.OpenApi.{
  JoiDescription, description, Rule, Keys, no_keys, key, no_items, convert_joi_description,
  get_pattern,
}
use payment_orchestration_pl.OpenApi.Pattern.{strip_delimiters}
use payment_orchestration_pl.OpenApi.Schemas.{IsSchema, convert_joi_description-IsSchema}
use payment_orchestration_pl.OpenApi.Setup.{
  SetupOpenApiOptions, get_document, use_swagger_ui, setup_open_api,
}
use payment_orchestration_pl.OpenApi.Paths.{
  get, post, RouteSettings, to_open_api_path, operation, reduce_routes, add_route,
  generate_open_api_paths, generate_open_api_document,
}

abbrev uuid_rule : Rule
uuid_rule = record { name = "guid"; limit = none; regex = none }

abbrev payment_id : JoiDescription
payment_id = description "string" (some "required") none (some (uuid_rule ∷ [])) no_keys no_items

abbrev currency : JoiDescription
currency = description "string" none (some (str "TRY" ∷ str "" ∷ [])) none no_keys no_items

abbrev payment_keys : Keys
payment_keys = key "paymentId" payment_id (key "currency" currency no_keys)

abbrev payment : JoiDescription
payment = description "object" none none none payment_keys no_items

converts_uuid :
    convert_joi_description payment_id
    ≡ obj (field "type" (str "string") (field "format" (str "uuid") end))
unfolding convert_joi_description
converts_uuid = refl

abbrev visible : Rule
visible = record { name = "pattern"; limit = none; regex = some "/^[!-~]+$/" }

shows_pattern : get_pattern (some (visible ∷ [])) ≡ some "^[!-~]+$"
unfolding get_pattern strip_delimiters
shows_pattern = refl

convert_joi_description-IsSchema_example : IsSchema (convert_joi_description payment)
convert_joi_description-IsSchema_example = convert_joi_description-IsSchema payment

abbrev get_route : RouteSettings JoiDescription
get_route = record {
  path = "/payments/:paymentId";
  method = get;
  controller = "paymentsController.getById";
  tags = "payments" ∷ [];
  description = "Get payment by id";
  validation = record { params = some payment; query = none; body = none; headers = none };
  middlewares = [];
  responses = [];
}

abbrev post_route : RouteSettings JoiDescription
post_route = record get_route { method = post }

abbrev documentation : SetupOpenApiOptions JoiDescription
documentation = record {
  docs_path = "/api-docs";
  title = "Payments";
  version = none;
  routes = get_route ∷ post_route ∷ [];
}

-- The document of both routes, at its two places.
documents_both :
    (let document = obj (
        field "openapi" (str "3.0.3") (
          field "info" (obj (field "title" (str "Payments") (field "version" (str "1.0.0") end))) (
            field "paths"
              (obj (
                field "/payments/{paymentId}"
                  (obj (
                    field "get"
                      (operation (λ d. d) get_route)
                      (field "post" (operation (λ d. d) post_route) end)))
                  end))
              end))) in
      setup_open_api (λ d. d) documentation
      ≡ get_document "/api-docs.json" document ∷ use_swagger_ui "/api-docs" document ∷ [])
unfolding setup_open_api generate_open_api_document generate_open_api_paths reduce_routes add_route
    to_open_api_path
documents_both = refl
