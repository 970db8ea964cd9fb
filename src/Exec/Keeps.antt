-- ===== src/Exec/Keeps.antt =====
-- Predicates of the world that an action keeps, on success and on failure alike.
use payment_orchestration_pl.Prelude.{Bool, true, false, if◌then◌else◌}
use payment_orchestration_pl.Errors.{Thrown, Result, ok, err}
use payment_orchestration_pl.Exec.{World, M, pure, throw, try_catch, lift, gets, ◌>>=◌}

pub record Keeps {A : Type 0} (P : World → Type 0) (m : M A) : Type 0 where
  pub keeps : (w : World) → P w → P (m w).1

module _ {P : World → Type 0} {A : Type 0} where
  pub Keeps-pure : (a : A) → Keeps P (pure a)
  unfolding pure
  Keeps-pure a = record { keeps = λ w p. p }

  pub Keeps-throw : (e : Thrown) → Keeps P (throw {A = A} e)
  unfolding throw
  Keeps-throw e = record { keeps = λ w p. p }

  pub Keeps-lift : (r : Result A) → Keeps P (lift r)
  unfolding lift
  Keeps-lift r = record { keeps = λ w p. p }

  pub Keeps-gets : (f : World → A) → Keeps P (gets f)
  unfolding gets
  Keeps-gets f = record { keeps = λ w p. p }

  pub Keeps-if : (b : Bool) (m n : M A) → Keeps P m → Keeps P n → Keeps P (if b then m else n)
  Keeps-if true m n hm hn = hm
  Keeps-if false m n hm hn = hn

  pub Keeps-try_catch :
      (m : M A) (handler : Thrown → M A)
      → Keeps P m
      → ((e : Thrown) → Keeps P (handler e))
      → Keeps P (try_catch m handler)
  unfolding try_catch
  Keeps-try_catch m handler hm hh = record { keeps = λ w p. go (m w).0 (m w).1 (hm.keeps w p) }
    where
      go :
          (r : Result A) (v : World)
          → P v
          → P (let x : Result A × World = elim r [ ok a ↦ (ok a, v) | err e ↦ handler e v ] in x).1
      go (ok a) v q = q
      go (err e) v q = (hh e).keeps v q

  pub Keeps-bind :
      {B : Type 0} (m : M A) (f : A → M B)
      → Keeps P m
      → ((a : A) → Keeps P (f a))
      → Keeps P (m >>= f)
  unfolding ◌>>=◌
  Keeps-bind {B} m f hm hf = record { keeps = λ w p. go (m w).0 (m w).1 (hm.keeps w p) }
    where
      go :
          (r : Result A) (v : World)
          → P v
          → P (let x : Result B × World = elim r [ ok a ↦ f a v | err e ↦ (err e, v) ] in x).1
      go (ok a) v q = (hf a).keeps v q
      go (err e) v q = q

pub ruleset keeps_rules = (Keeps-pure, Keeps-throw, Keeps-lift, Keeps-gets, Keeps-if, Keeps-bind)
