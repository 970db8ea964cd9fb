-- ===== src/OpenApi/Paths/Operations.antt =====
-- What packages/openapi-kit/src/generate-openapi-paths.ts shows of the routes.
use payment_orchestration_pl.Prelude.{
  String, ◌≡◌, refl, ◌∙◌, Bool, ◌&&◌, Option, none, some, List, [], ◌∷◌, ◌==◌, map_option, arith,
  eq_iff, if◌then◌else◌, is_some, Option-cases, inl, inr,
}
use payment_orchestration_pl.Json.{Json, obj, Fields, end, member_of, set_member_of, member}
use payment_orchestration_pl.OpenApi.{JoiDescription}
use payment_orchestration_pl.OpenApi.Properties.{member-set_member_of}
use payment_orchestration_pl.OpenApi.Paths.{
  method_name, RouteSettings, to_open_api_path, members_of, operation, add_route, reduce_routes,
  generate_open_api_paths, generate_open_api_document,
}

-- `document.paths[path][method]`
abbrev pub operation_in : (path method : String) → Fields → Option Json
operation_in path method paths = member_of method (members_of (member_of path paths))

abbrev pub document_paths : Json → Fields
document_paths document = members_of (member "paths" document)

module _ {Schema : Type 0} where
  abbrev pub serves : (path method : String) → RouteSettings Schema → Bool
  serves path method route =
      to_open_api_path route.path == path && method_name route.method == method

  -- A later route of the same path and method takes the place of an earlier one.
  abbrev pub last_route :
      (path method : String) → List (RouteSettings Schema) → Option (RouteSettings Schema)
  last_route path method [] = none
  last_route path method (route ∷ routes) =
      let later = last_route path method routes in
      if is_some later then later else if serves path method route then some route else none

abbrev or_else : Option Json → Option Json → Option Json
or_else none o = o
or_else (some v) o = some v

module _ {Schema : Type 0} (describe : Schema → JoiDescription) where
  operation-add_route :
      (path method : String) (route : RouteSettings Schema) (paths : Fields)
      → operation_in path method (add_route describe route paths) ≡ (
          if serves path method route
          then some (operation describe route)
          else operation_in path method paths)
  unfolding add_route
  operation-add_route path method route paths = ground (
    arith,
    eq_iff (to_open_api_path route.path) path,
    member-set_member_of path (to_open_api_path route.path)
        (obj (
          set_member_of (method_name route.method) (operation describe route)
            (members_of (member_of (to_open_api_path route.path) paths))))
        paths,
    member-set_member_of method (method_name route.method) (operation describe route)
        (members_of (member_of (to_open_api_path route.path) paths)),
  )

  operation-reduce_routes :
      (path method : String) (routes : List (RouteSettings Schema)) (paths : Fields)
      → operation_in path method (reduce_routes describe routes paths)
        ≡ or_else
            (map_option (operation describe) (last_route path method routes))
            (operation_in path method paths)
  unfolding reduce_routes
  operation-reduce_routes path method [] paths = refl
  operation-reduce_routes path method (route ∷ routes) paths =
      operation-reduce_routes path method routes (add_route describe route paths)
      ∙ elim (Option-cases (last_route path method routes)) [
        | inl e ↦ rw e (ground (arith, operation-add_route path method route paths))
        | inr (r, e) ↦ rw e refl
      ]

  -- The OpenAPI document has an operation under exactly the paths and methods of the routes, and
  -- it is that of the last route with this path and method.
  pub document-operation :
      (title version path method : String) (routes : List (RouteSettings Schema))
      → operation_in path method
          (document_paths (generate_open_api_document describe title version routes))
        ≡ map_option (operation describe) (last_route path method routes)
  unfolding generate_open_api_document generate_open_api_paths
  document-operation title version path method routes =
      operation-reduce_routes path method routes end ∙ or_none _
    where
      or_none : (o : Option Json) → or_else o none ≡ o
      or_none none = refl
      or_none (some v) = refl
