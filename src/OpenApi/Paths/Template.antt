-- ===== src/OpenApi/Paths/Template.antt =====
-- The templates of paths, packages/openapi-kit/src/generate-openapi-paths.ts.
use Prim.Native.Char.{Char, code}
use Prim.Native.String.{◌++◌}
use text.Mathlib.TextLemmas.{nil-append, cons-append}
use payment_orchestration_pl.Prelude.{
  String, ◌≡◌, refl, sym, ap, ◌∙◌, Bool, true, false, not, ◌&&◌, List, [], ◌∷◌, arith, nat_eq,
}
use payment_orchestration_pl.OpenApi.Paths.{is_word, starts_word, replace_names, to_open_api_path}

pub data Segment : Type 0 where
  literal : String → Segment
  parameter : (name : String) → Segment

-- How Express writes a template, and how OpenAPI writes it.
abbrev pub express_path : List Segment → String
express_path [] = ""
express_path (literal s ∷ segments) = s ++ express_path segments
express_path (parameter name ∷ segments) = String.◌∷◌ ":" (name ++ express_path segments)

abbrev pub open_api_path : List Segment → String
open_api_path [] = ""
open_api_path (literal s ∷ segments) = s ++ open_api_path segments
open_api_path (parameter name ∷ segments) =
    String.◌∷◌ "{" (name ++ (String.◌∷◌ "}" (open_api_path segments)))

abbrev pub all_word : String → Bool
all_word String.[] = true
all_word (String.◌∷◌ c s) = is_word (code c) && all_word s

abbrev pub no_colon : String → Bool
no_colon String.[] = true
no_colon (String.◌∷◌ c s) = not (nat_eq (code c) b':') && no_colon s

-- A parameter has a name of word characters, which the text after it does not go on with, and a
-- literal has no colon.
abbrev pub IsTemplate : List Segment → Type 0
IsTemplate [] = Unit
IsTemplate (literal s ∷ segments) = (no_colon s ≡ true) × IsTemplate segments
IsTemplate (parameter name ∷ segments) =
    (starts_word name ≡ true)
    × (all_word name ≡ true)
    × (starts_word (express_path segments) ≡ false)
    × IsTemplate segments

plain-character :
    (c : Char) (s : String)
    → nat_eq (code c) b':' ≡ false
    → replace_names false (String.◌∷◌ c s) ≡ String.◌∷◌ c (replace_names false s)
plain-character c s h = rw h (nil-append (String.◌∷◌ c (replace_names false s)))

name-character :
    (c : Char) (s : String)
    → is_word (code c) ≡ true
    → replace_names true (String.◌∷◌ c s) ≡ String.◌∷◌ c (replace_names true s)
name-character c s h = rw h refl

brace-append : (t : String) → "}" ++ t ≡ String.◌∷◌ "}" t
brace-append t = cons-append "}" "" t ∙ ap (String.◌∷◌ "}") (nil-append t)

-- A name ends before what is no word character.
name-end :
    (t : String)
    → starts_word t ≡ false
    → replace_names true t ≡ String.◌∷◌ "}" (replace_names false t)
name-end String.[] h = refl
name-end (String.◌∷◌ c s) h = rw h (brace-append _ ∙ ap (String.◌∷◌ "}") (sym (nil-append _)))

replace-literal :
    (s t : String) → no_colon s ≡ true → replace_names false (s ++ t) ≡ s ++ replace_names false t
replace-literal String.[] t h = rw (nil-append t, nil-append (replace_names false t)) refl
replace-literal (String.◌∷◌ c s) t h =
    ap (replace_names false) (cons-append c s t)
    ∙ plain-character c (s ++ t) (ground arith)
    ∙ ap (String.◌∷◌ c) (replace-literal s t (ground arith))
    ∙ sym (cons-append c s (replace_names false t))

replace-name :
    (s t : String)
    → all_word s ≡ true
    → starts_word t ≡ false
    → replace_names true (s ++ t) ≡ s ++ (String.◌∷◌ "}" (replace_names false t))
replace-name String.[] t h k =
    ap (replace_names true) (nil-append t)
    ∙ name-end t k
    ∙ sym (nil-append (String.◌∷◌ "}" (replace_names false t)))
replace-name (String.◌∷◌ c s) t h k =
    ap (replace_names true) (cons-append c s t)
    ∙ name-character c (s ++ t) (ground arith)
    ∙ ap (String.◌∷◌ c) (replace-name s t (ground arith) k)
    ∙ sym (cons-append c s (String.◌∷◌ "}" (replace_names false t)))

starts-append : (s t : String) → starts_word s ≡ true → starts_word (s ++ t) ≡ true
starts-append String.[] t h = absurd (ground arith)
starts-append (String.◌∷◌ c s) t h = rw (cons-append c s t) h

colon-name :
    (s : String)
    → starts_word s ≡ true
    → replace_names false (String.◌∷◌ ":" s) ≡ String.◌∷◌ "{" (replace_names true s)
colon-name s h = rw h (nil-append (String.◌∷◌ "{" (replace_names true s)))

-- A path template whose parameters have names of word characters, which the text behind them does
-- not go on with, and whose literals have no colon, is turned from Express's way of writing
-- parameters into OpenAPI's, and nothing else of it changes.
pub to_open_api_path-express_path :
    (segments : List Segment)
    → IsTemplate segments
    → to_open_api_path (express_path segments) ≡ open_api_path segments
unfolding to_open_api_path
to_open_api_path-express_path [] h = refl
to_open_api_path-express_path (literal s ∷ segments) h =
    replace-literal s (express_path segments) h.0
    ∙ ap (λ t. s ++ t) (to_open_api_path-express_path segments h.1)
to_open_api_path-express_path (parameter name ∷ segments) h =
    colon-name (name ++ express_path segments) (starts-append name (express_path segments) h.0)
    ∙ ap (String.◌∷◌ "{") (
        replace-name name (express_path segments) h.1 h.2
        ∙ ap (λ t. name ++ (String.◌∷◌ "}" t)) (to_open_api_path-express_path segments h.3))
