-- ===== src/OpenApi/Paths.antt =====
-- packages/openapi-kit/src: types.ts, generate-openapi-paths.ts and generate-openapi-document.ts. Joi's
-- schemas and their `describe` are parameters. A member that is undefined is left out of an object.
pub mod Template
pub mod Operations
use Prim.Native.Char.{code}
use Prim.Native.String.{◌++◌ as ◌+s+◌}
use payment_orchestration_pl.Prelude.{
  ℕ, String, Bool, true, false, ◌&&◌, ◌||◌, Option, none, some, List, [], ◌∷◌, ◌==◌, leb, nat_eq,
  if◌then◌else◌,
}
use payment_orchestration_pl.Json.{
  Json, bool, str, arr, obj, Items, nil, cons, Fields, end, field, ◌<+>◌, member_of, set_member_of,
}
use payment_orchestration_pl.OpenApi.{
  JoiDescription, description, Keys, no_keys, key, is_required, convert_joi_description,
}
use payment_orchestration_pl.OpenApi.Pattern.{is_lower}

pub data HttpMethod : Type 0 where
  get post put patch delete : HttpMethod

abbrev pub method_name : HttpMethod → String
method_name get = "get"
method_name post = "post"
method_name put = "put"
method_name patch = "patch"
method_name delete = "delete"

pub record RouteRequestValidation (Schema : Type 0) : Type 0 where
  pub params : Option Schema
  pub query : Option Schema
  pub body : Option Schema
  pub headers : Option Schema

pub record RouteResponseContract : Type 0 where
  pub description : String
  pub schema : Option Json

-- `IRouteSettings`, with the members of its `config`.
pub record RouteSettings (Schema : Type 0) : Type 0 where
  pub path : String
  pub method : HttpMethod
  pub controller : String
  pub tags : List String
  pub description : String
  pub validation : RouteRequestValidation Schema
  pub middlewares : List String
  pub responses : List (String × RouteResponseContract)

-- `[A-Za-z0-9_]`
abbrev pub is_word : ℕ → Bool
is_word c = is_lower c || leb b'A' c && leb c b'Z' || leb b'0' c && leb c b'9' || nat_eq c b'_'

abbrev pub starts_word : String → Bool
starts_word String.[] = false
starts_word (String.◌∷◌ c s) = is_word (code c)

-- `expressPath.replace(/:([A-Za-z0-9_]+)/g, '{$1}')`, from a place inside a name or outside.
abbrev pub replace_names : (inside : Bool) → String → String
replace_names inside String.[] = if inside then "}" else ""
replace_names inside (String.◌∷◌ c s) =
    let named = replace_names true s in
    let plain = replace_names false s in
    if inside && is_word (code c)
    then String.◌∷◌ c named
    else (if inside then "}" else "")
      +s+ (if nat_eq (code c) b':' && starts_word s
          then String.◌∷◌ "{" named
          else String.◌∷◌ c plain)

unfoldable pub to_open_api_path : String → String
to_open_api_path express_path = replace_names false express_path

pub data ParameterLocation : Type 0 where
  path query header : ParameterLocation

abbrev pub location_name : ParameterLocation → String
location_name path = "path"
location_name query = "query"
location_name header = "header"

abbrev is_path : ParameterLocation → Bool
is_path path = true
is_path _ = false

abbrev pub keys_of : JoiDescription → Keys
keys_of (description kind presence allow rules keys items) = keys

abbrev pub parameter : String → JoiDescription → ParameterLocation → Json
parameter name child location = obj (
    field "name" (str name) (
      field "in" (str (location_name location)) (
        field "required" (bool (is_path location || is_required child))
          (field "schema" (convert_joi_description child) end))))

-- Onto the parameters that follow.
abbrev pub parameters_of : Keys → ParameterLocation → Items → Items
parameters_of no_keys location rest = rest
parameters_of (key name child ks) location rest =
    cons (parameter name child location) (parameters_of ks location rest)

abbrev pub json_content : Json → Json
json_content schema = obj (field "application/json" (obj (field "schema" schema end)) end)

abbrev pub content_field : Option Json → Fields
content_field none = end
content_field (some schema) = field "content" (json_content schema) end

abbrev pub response_entries : List (String × RouteResponseContract) → Fields → Fields
response_entries [] fs = fs
response_entries ((status_code, response) ∷ rs) fs = response_entries rs (
    set_member_of status_code
      (obj (field "description" (str response.description) (content_field response.schema))) fs)

-- `Object.fromEntries`
unfoldable pub create_responses : List (String × RouteResponseContract) → Json
create_responses rs = obj (response_entries rs end)

abbrev pub text_values : List String → Items
text_values [] = nil
text_values (s ∷ ss) = cons (str s) (text_values ss)

-- `{ ...(paths[path] ?? {}) }`
abbrev pub members_of : Option Json → Fields
members_of (some (obj fs)) = fs
members_of _ = end

module _ {Schema : Type 0} (describe : Schema → JoiDescription) where
  unfoldable pub create_parameters : Option Schema → ParameterLocation → Items → Items
  create_parameters none location rest = rest
  create_parameters (some schema) location rest =
      parameters_of (keys_of (describe schema)) location rest

  unfoldable pub create_request_body : Option Schema → Fields
  create_request_body none = end
  create_request_body (some schema) =
      field "requestBody"
        (obj (
          field "required" (bool true)
            (field "content" (json_content (convert_joi_description (describe schema))) end)))
        end

  -- The operation that a route adds.
  unfoldable pub operation : RouteSettings Schema → Json
  unfolding create_parameters create_request_body create_responses
  operation route = obj (
      field "tags" (arr (text_values route.tags)) (
        field "description" (str route.description) (
          field "parameters"
            (arr (
              create_parameters route.validation.params path (
                create_parameters route.validation.query query
                  (create_parameters route.validation.headers header nil))))
            (create_request_body route.validation.body
              <+> field "responses" (create_responses route.responses) end))))

  unfoldable pub add_route : RouteSettings Schema → Fields → Fields
  unfolding operation to_open_api_path
  add_route route paths =
      let open_api_path = to_open_api_path route.path in
      set_member_of open_api_path
        (obj (
          set_member_of (method_name route.method) (operation route)
            (members_of (member_of open_api_path paths))))
        paths

  unfoldable pub reduce_routes : List (RouteSettings Schema) → Fields → Fields
  unfolding add_route
  reduce_routes [] paths = paths
  reduce_routes (route ∷ routes) paths = reduce_routes routes (add_route route paths)

  unfoldable pub generate_open_api_paths : List (RouteSettings Schema) → Json
  unfolding reduce_routes
  generate_open_api_paths routes = obj (reduce_routes routes end)

  unfoldable pub generate_open_api_document :
      (title version : String) → List (RouteSettings Schema) → Json
  unfolding generate_open_api_paths
  generate_open_api_document title version routes = obj (
      field "openapi" (str "3.0.3") (
        field "info" (obj (field "title" (str title) (field "version" (str version) end)))
          (field "paths" (generate_open_api_paths routes) end)))
