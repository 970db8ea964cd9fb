-- ===== src/OpenApi/Pattern.antt =====
-- The regular expressions that packages/openapi-kit/src applies to texts.
use Prim.Native.Char.{code}
use Prim.Native.String.{◌++◌}
use text.Mathlib.TextLemmas.{nil-append, cons-append}
use payment_orchestration_pl.Prelude.{
  ℕ, String, ◌≡◌, refl, Bool, true, ◌&&◌, Option, none, some, arith, leb, nat_eq, if◌then◌else◌,
}

abbrev pub is_lower : ℕ → Bool
is_lower c = leb b'a' c && leb c b'z'

abbrev pub all_lower : String → Bool
all_lower String.[] = true
all_lower (String.◌∷◌ c s) = is_lower (code c) && all_lower s

-- The text before the last slash that only lower-case letters follow.
abbrev pub before_last_slash : String → Option String
before_last_slash String.[] = none
before_last_slash (String.◌∷◌ c s) = elim (before_last_slash s) [
  | some source ↦ some (String.◌∷◌ c source)
  | none ↦ if nat_eq (code c) b'/' && all_lower s then some "" else none
]

-- `regex.match(/^\/([\s\S]*)\/[a-z]*$/)?.[1]`
unfoldable pub strip_delimiters : String → Option String
strip_delimiters String.[] = none
strip_delimiters (String.◌∷◌ c s) = if nat_eq (code c) b'/' then before_last_slash s else none

lower-none : (s : String) → all_lower s ≡ true → before_last_slash s ≡ none
lower-none String.[] h = refl
lower-none (String.◌∷◌ c s) h = ground (arith, lower-none s)

before_last_slash-append :
    (source flags : String)
    → all_lower flags ≡ true
    → before_last_slash (source ++ ("/" ++ flags)) ≡ some source
before_last_slash-append String.[] flags h =
    rw (nil-append, cons-append, nil-append) (rw (lower-none flags h, h) refl)
before_last_slash-append (String.◌∷◌ c s) flags h =
    rw (cons-append c s ("/" ++ flags))
      (rw (before_last_slash, before_last_slash-append s flags h) refl)

-- The text of a regular expression, as JavaScript shows it.
abbrev pub delimited : (source flags : String) → String
delimited source flags = "/" ++ (source ++ ("/" ++ flags))

pub strip_delimiters-delimited :
    (source flags : String)
    → all_lower flags ≡ true
    → strip_delimiters (delimited source flags) ≡ some source
unfolding strip_delimiters
strip_delimiters-delimited source flags h =
    rw (cons-append _ "" (source ++ ("/" ++ flags)), nil-append)
      (before_last_slash-append source flags h)
