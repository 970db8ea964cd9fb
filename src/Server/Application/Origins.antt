-- ===== src/Server/Application/Origins.antt =====
-- The origins that services/payment-service/src/server/server.ts reads from the environment.
use Prim.Native.Char.{Char, code}
use Prim.Native.String.{◌++◌}
use text.Mathlib.TextLemmas.{nil-append, cons-append}
use payment_orchestration_pl.Prelude.{
  ℕ, String, ◌≡◌, ◌≢◌, refl, ap, ◌∙◌, Bool, true, not, ◌&&◌, some, List, [], ◌∷◌, arith, nat_eq,
  eq-false_of_ne,
}
use payment_orchestration_pl.Server.{split_on}
use payment_orchestration_pl.Server.Application.{trim, trimmed, parse_allowed_origins}

abbrev pub lacks : (separator : ℕ) → String → Bool
lacks separator String.[] = true
lacks separator (String.◌∷◌ c s) = not (nat_eq (code c) separator) && lacks separator s

abbrev pub join : List String → String
join [] = ""
join (s ∷ []) = s
join (s ∷ t ∷ ts) = s ++ (String.◌∷◌ "," (join (t ∷ ts)))

-- Texts without a comma or surrounding white space, none of them empty.
abbrev pub AreOrigins : List String → Type 0
AreOrigins [] = Unit
AreOrigins (s ∷ ss) = (lacks b',' s ≡ true) × (trim s ≡ s) × (s ≢ "") × AreOrigins ss

split-last : (n : ℕ) (s : String) → lacks n s ≡ true → split_on n s ≡ s ∷ []
split-last n String.[] h = refl
split-last n (String.◌∷◌ c s) h = ground (arith, split-last n s)

split-first :
    (n : ℕ) (c : Char) (s t : String)
    → code c ≡ n
    → lacks n s ≡ true
    → split_on n (s ++ (String.◌∷◌ c t)) ≡ s ∷ split_on n t
split-first n c String.[] t e h = ap (split_on n) (nil-append (String.◌∷◌ c t)) ∙ ground (arith, e)
split-first n c (String.◌∷◌ d s) t e h =
    ap (split_on n) (cons-append d s (String.◌∷◌ c t)) ∙ ground (arith, h, split-first n c s t e)

keeps-origin :
    (s : String) (ss : List String) → trim s ≡ s → s ≢ "" → trimmed (s ∷ ss) ≡ s ∷ trimmed ss
keeps-origin s ss h k = rw (h, eq-false_of_ne s "" k) refl

-- A list of origins is read back from its text.
pub parse_allowed_origins-join :
    (origins : List String)
    → AreOrigins origins
    → parse_allowed_origins (some (join origins)) ≡ origins
unfolding parse_allowed_origins
parse_allowed_origins-join [] h = refl
parse_allowed_origins-join (s ∷ []) h =
    ap trimmed (split-last b',' s h.0) ∙ keeps-origin s [] h.1 h.2
parse_allowed_origins-join (s ∷ t ∷ ts) h =
    ap trimmed (split-first b',' "," s (join (t ∷ ts)) refl h.0)
    ∙ keeps-origin s (split_on b',' (join (t ∷ ts))) h.1 h.2
    ∙ ap (λ os. s ∷ os) (parse_allowed_origins-join (t ∷ ts) h.3)
