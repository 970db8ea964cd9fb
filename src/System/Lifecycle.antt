-- ===== src/System/Lifecycle.antt =====
-- What can happen to a payment that is in the database.
use payment_orchestration_pl.Prelude.{
  ℕ, String, ◌≡◌, ◌≢◌, refl, sym, ap, ◌∙◌, true, some, arith, inl, inr, Bool-cases, map_option,
  if◌then◌else◌,
}
use payment_orchestration_pl.Errors.{ok}
use payment_orchestration_pl.Tables.Laws.{first_where-append, first_where-update_where}
use payment_orchestration_pl.DataAccess.Rows.{
  PaymentStatus, authorized, captured, PaymentRecord, Db,
}
use payment_orchestration_pl.DataAccess.Payments.{find_payment, has_id, is_updatable, with_status}
use payment_orchestration_pl.Providers.Contract.{CapturePaymentResult}
use payment_orchestration_pl.Payments.Status.{ensure_transition}
use payment_orchestration_pl.Payments.Commands.{capture_update}
use payment_orchestration_pl.System.{Reach}
use payment_orchestration_pl.System.Effects.{PaymentsEffect, Step-PaymentsEffect}

-- A status leads to another by transitions that the state service allows.
pub data Leads (s : PaymentStatus) : PaymentStatus → Type 0 where
  stay : Leads s s
  move : {t u : PaymentStatus} → Leads s t → ensure_transition t u ≡ ok tt → Leads s u

Leads-trans : {s t u : PaymentStatus} → Leads s t → Leads t u → Leads s u
Leads-trans a Leads.stay = a
Leads-trans a (Leads.move b e) = Leads.move (Leads-trans a b) e

-- The same payment, later: the same money for the same merchant at the same provider.
pub record Continues (p p' : PaymentRecord) : Type 0 where
  pub same_id : p'.id ≡ p.id
  pub same_merchant : p'.merchant_id ≡ p.merchant_id
  pub same_amount : p'.amount_minor ≡ p.amount_minor
  pub same_currency : p'.currency ≡ p.currency
  pub same_provider : p'.provider ≡ p.provider
  pub same_reference : p'.provider_payment_id ≡ p.provider_payment_id
  pub same_creation : p'.created_at ≡ p.created_at
  pub leads : Leads p.status p'.status

Continues-refl : (p : PaymentRecord) → Continues p p
Continues-refl p = record {
  same_id = refl;
  same_merchant = refl;
  same_amount = refl;
  same_currency = refl;
  same_provider = refl;
  same_reference = refl;
  same_creation = refl;
  leads = Leads.stay;
}

Continues-trans : {p q r : PaymentRecord} → Continues p q → Continues q r → Continues p r
Continues-trans a b = record {
  same_id = b.same_id ∙ a.same_id;
  same_merchant = b.same_merchant ∙ a.same_merchant;
  same_amount = b.same_amount ∙ a.same_amount;
  same_currency = b.same_currency ∙ a.same_currency;
  same_provider = b.same_provider ∙ a.same_provider;
  same_reference = b.same_reference ∙ a.same_reference;
  same_creation = b.same_creation ∙ a.same_creation;
  leads = Leads-trans a.leads b.leads;
}

capture_allowed :
    (id : String) (answer : CapturePaymentResult) (at : ℕ)
    → ensure_transition authorized (capture_update id answer at).status ≡ ok tt
unfolding ensure_transition
capture_allowed id (CapturePaymentResult.approved _) at = refl
capture_allowed id (CapturePaymentResult.declined _ _ _) at = refl

updatable-authorized :
    (id : String) (r : PaymentRecord) → is_updatable id r ≡ true → r.status ≡ authorized
updatable-authorized id r h = ground arith

update-Continues :
    (id : String) (answer : CapturePaymentResult) (at now : ℕ) (r : PaymentRecord)
    → Continues r (if is_updatable id r then with_status (capture_update id answer at) now r else r)
update-Continues id answer at now r = elim (Bool-cases (is_updatable id r)) [
  | inr no_update ↦ rw no_update (Continues-refl r)
  | inl update ↦ rw update (record {
    same_id = refl;
    same_merchant = refl;
    same_amount = refl;
    same_currency = refl;
    same_provider = refl;
    same_reference = refl;
    same_creation = refl;
    leads =
        simp (updatable-authorized id r update)
          (Leads.move Leads.stay (capture_allowed id answer at));
  })
]

-- A payment that a database has, a later one has too.
abbrev pub HasContinued : String → PaymentRecord → Db → Type 0
HasContinued id p db =
    (p' : PaymentRecord) × (find_payment id db.payments ≡ some p') × Continues p p'

effect-HasContinued :
    {db db' : Db} (id : String) (p : PaymentRecord)
    → PaymentsEffect db db'
    → find_payment id db.payments ≡ some p
    → HasContinued id p db'
effect-HasContinued id p (PaymentsEffect.same hp ho) f = (p, rw hp f, Continues-refl p)
effect-HasContinued {db} id p (PaymentsEffect.create q e answer fresh status a k hp ho) f =
    (p, rw (hp, first_where-append, f) refl, Continues-refl p)
effect-HasContinued {db} id p (PaymentsEffect.capture q e answer at now found capturable a k hp ho)
      f =
    (
      (if is_updatable q.id p then with_status (capture_update q.id answer at) now p else p),
      rw hp (
          first_where-update_where (has_id id) (is_updatable q.id)
            (with_status (capture_update q.id answer at) now) db.payments (λ r. refl)
          ∙ ap
              (map_option (λ r.
                if is_updatable q.id r
                then with_status (capture_update q.id answer at) now r
                else r))
              f),
      update-Continues q.id answer at now p,
    )
effect-HasContinued id p (PaymentsEffect.publish q g ha ht hp ho) f = (p, rw hp f, Continues-refl p)

-- A payment is never lost by the steps of the system: its money, merchant, provider and reference
-- stay, and its status moves only by transitions that `ensureTransition` allows.
pub Reach-HasContinued :
    {db db' : Db} (id : String) (p : PaymentRecord)
    → find_payment id db.payments ≡ some p
    → Reach db db'
    → HasContinued id p db'
Reach-HasContinued id p f Reach.here = (p, f, Continues-refl p)
Reach-HasContinued id p f (Reach.next r st) =
    let (q, fq, c) = Reach-HasContinued id p f r in
    let (q', fq', c') = effect-HasContinued id q (Step-PaymentsEffect st) fq in
    (q', fq', Continues-trans c c')

-- A status with no allowed transition leads only to itself.
Leads-terminal :
    {s t : PaymentStatus}
    → ((u : PaymentStatus) → ensure_transition s u ≢ ok tt)
    → Leads s t
    → t ≡ s
Leads-terminal final Leads.stay = refl
Leads-terminal {s} final (Leads.move {t} {u} a e) =
    absurd (final u (ap (λ x. ensure_transition x u) (sym (Leads-terminal final a)) ∙ e))

captured-final : (u : PaymentStatus) → ensure_transition captured u ≢ ok tt
unfolding ensure_transition
captured-final u h = ground arith

-- A captured payment stays captured through any steps of the system.
pub Reach-captured :
    {db db' : Db} (id : String) (p : PaymentRecord)
    → find_payment id db.payments ≡ some p
    → p.status ≡ captured
    → Reach db db'
    → (p' : PaymentRecord) × (find_payment id db'.payments ≡ some p') × (p'.status ≡ captured)
Reach-captured id p f h r =
    let (p', f', c) = Reach-HasContinued id p f r in
    (p', f', Leads-terminal captured-final (rw h at c.leads))
