-- ===== src/Exec/Laws.antt =====
-- A postcondition of the runs that succeed, with a rule for each step of a `do` block.
use mathlib.Core.Path.{subst₂}
use payment_orchestration_pl.Prelude.{◌≡◌, ap, ◌∙◌, [], refl, arith}
use payment_orchestration_pl.Errors.{Thrown, Result, ok, err}
use payment_orchestration_pl.Exec.{World, M, ◌>>=◌, pure, lift, gets, transaction, interleave}

pub record Yields {A : Type 0} (m : M A) (w : World) (Q : A → World → Type 0) : Type 0 where
  pub yields : (a : A) (w' : World) → m w ≡ (ok a, w') → Q a w'

-- The last step of a successful bind, with the value and the world that the first step left.
pub bind_inv :
    {A B : Type 0} (m : M A) (f : A → M B) (w w' : World) (b : B)
    → (m >>= f) w ≡ (ok b, w')
    → (a : A) × (v : World) × (m w ≡ (ok a, v)) × (f a v ≡ (ok b, w'))
unfolding ◌>>=◌
bind_inv {A} {B} m f w w' b h = go (m w) refl h
  where
    go :
        (x : Result A × World)
        → m w ≡ x
        → (let y : Result B × World = elim x.0 [ ok a ↦ f a x.1 | err e ↦ (err e, x.1) ] in
            y ≡ (ok b, w'))
        → (a : A) × (v : World) × (m w ≡ (ok a, v)) × (f a v ≡ (ok b, w'))
    go (ok a, v) e k = (a, v, e, k)
    go (err t, v) e k = cc

module _ {A B : Type 0} where
  pub Yields-bind :
      {m : M A} {f : A → M B} {w : World} {P : A → World → Type 0} {Q : B → World → Type 0}
      → Yields m w P
      → ((a : A) (v : World) → P a v → Yields (f a) v Q)
      → Yields (m >>= f) w Q
  Yields-bind {m} {f} {w} h k = record {
    yields = λ b w' e.
        let (a, v, e₁, e₂) = bind_inv m f w w' b e in (k a v (h.yields a v e₁)).yields b w' e₂;
  }

  pub Yields-lift :
      {r : Result A} {f : A → M B} {w : World} {Q : B → World → Type 0}
      → ((a : A) → r ≡ ok a → Yields (f a) w Q)
      → Yields (lift r >>= f) w Q
  unfolding ◌>>=◌
  Yields-lift {r = ok a} k = record { yields = (k a refl).yields }
  Yields-lift {r = err e} k = record { yields = λ b w' h. absurd (cc) }

  pub Yields-gets :
      (g : World → A) (f : A → M B) {w : World} {Q : B → World → Type 0}
      → Yields (f (g w)) w Q
      → Yields (gets g >>= f) w Q
  unfolding ◌>>=◌
  Yields-gets g f h = record { yields = h.yields }

pub Yields-pure :
    {A : Type 0} (a : A) {w : World} {Q : A → World → Type 0} → Q a w → Yields (pure a) w Q
unfolding pure
Yields-pure {A} a {w} {Q} h = record { yields = λ b w' e. subst₂ Q (same_value e) (same_world e) h }
  where
    same_value : {b : A} {w' : World} → pure a w ≡ (ok b, w') → a ≡ b
    same_value e = cc

    same_world : {b : A} {w' : World} → pure a w ≡ (ok b, w') → w ≡ w'
    same_world e = cc

-- The same postcondition, weakened.
pub Yields-weaken :
    {A : Type 0} {m : M A} {w : World} {P Q : A → World → Type 0}
    → Yields m w P
    → ((a : A) (v : World) → P a v → Q a v)
    → Yields m w Q
Yields-weaken h k = record { yields = λ a v e. k a v (h.yields a v e) }

-- A bind whose first step is known.
pub bind-ok :
    {A B : Type 0} (m : M A) (f : A → M B) {w v : World} {a : A}
    → m w ≡ (ok a, v)
    → (m >>= f) w ≡ f a v
unfolding ◌>>=◌
bind-ok {A} {B} m f {w} {v} {a} h =
    ap
      (λ (x : Result A × World).
        let y : Result B × World = elim x.0 [ ok b ↦ f b x.1 | err e ↦ (err e, x.1) ] in y)
      h

pub bind-err :
    {A B : Type 0} (m : M A) (f : A → M B) {w v : World} {e : Thrown}
    → m w ≡ (err e, v)
    → (m >>= f) w ≡ (err e, v)
unfolding ◌>>=◌
bind-err {A} {B} m f {w} {v} {e} h =
    ap
      (λ (x : Result A × World).
        let y : Result B × World = elim x.0 [ ok b ↦ f b x.1 | err t ↦ (err t, x.1) ] in y)
      h

-- Where the environment is silent, a transaction that resolves is its body.
pub interleave_quiet : (w : World) → w.ticks ≡ [] → interleave w ≡ w
interleave_quiet w h = ground arith

pub transaction_quiet :
    {A : Type 0} (body : M A) (w : World) {v : World} {a : A}
    → w.ticks ≡ []
    → body w ≡ (ok a, v)
    → transaction body w ≡ (ok a, v)
unfolding transaction
transaction_quiet body w h e = let e' = ap body (interleave_quiet w h) ∙ e in ground (arith, e')
