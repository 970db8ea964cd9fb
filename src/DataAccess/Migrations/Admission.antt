-- ===== src/DataAccess/Migrations/Admission.antt =====
-- Which rows the constraints of the migrations of services/payment-service/src/bootstrap/knex/migrations admit.
use payment_orchestration_pl.Prelude.{
  ◌<◌, String, ◌≡◌, refl, sym, ap, ◌∙◌, true, Option, some, List, [], ◌∷◌, arith, eq_iff, All,
  Option-cases, inl, inr,
}
use payment_orchestration_pl.DataAccess.Rows.{PaymentStatus, PaymentRecord, IdempotencyStatus}
use payment_orchestration_pl.DataAccess.Migrations.{
  Payment001, KeyRow, LeasedKeyRow, map_rows, check_rows,
}
use payment_orchestration_pl.DataAccess.Migrations.Constraints.{
  payment_status, payment_status_text, key_status, key_status_text, is_currency, checked_payment,
  check_payment, key_with_status, check_key, payment_001, unchecked_key,
}

-- A table is admitted exactly if its rows are, and what admits a row only changes its form.
module _ {A B : Type 0} (check : A → Option B) (back : B → A) (IsAdmitted : A → Type 0)
    (admits : (a : A) → IsAdmitted a → (b : B) × (check a ≡ some b) × (back b ≡ a))
    (admitted : (a : A) (b : B) → check a ≡ some b → IsAdmitted a) where
  pub check_rows-some :
      (rows : List A)
      → All IsAdmitted rows
      → (rows' : List B) × (check_rows check rows ≡ some rows') × (map_rows back rows' ≡ rows)
  check_rows-some [] h = ([], refl, refl)
  check_rows-some (r ∷ rs) h =
      let (r', e, b) = admits r h.0 in
      let (rs', es, bs) = check_rows-some rs h.1 in (r' ∷ rs', ground (arith, e, es), cc (b, bs))

  pub some-check_rows :
      (rows : List A) (rows' : List B) → check_rows check rows ≡ some rows' → All IsAdmitted rows
  some-check_rows [] rows' h = tt
  some-check_rows (r ∷ rs) rows' h = elim (Option-cases (check r)) [
    | inl e ↦ absurd (ground (arith, e))
    | inr (r', e) ↦ elim (Option-cases (check_rows check rs)) [
      | inl es ↦ absurd (ground (arith, e, es))
      | inr (rs', es) ↦ (admitted r r' e, some-check_rows rs rs' es)
    ]
  ]

-- The constraints of 004.
pub record IsAdmittedPayment (p : Payment001) : Type 0 where
  pub status : PaymentStatus
  pub has_status : p.status ≡ payment_status_text status
  pub amount : 0 < p.amount_minor
  pub currency : is_currency p.currency ≡ true

abbrev pub IsAdmittedKey : KeyRow String → Type 0
IsAdmittedKey r = (status : IdempotencyStatus) × (r.status ≡ key_status_text status)

abbrev pub IsAdmittedRow : LeasedKeyRow String → Type 0
IsAdmittedRow r = IsAdmittedKey r.row

payment_status-text : (s : PaymentStatus) → payment_status (payment_status_text s) ≡ some s
payment_status-text PaymentStatus.created = refl
payment_status-text PaymentStatus.authorized = refl
payment_status-text PaymentStatus.captured = refl
payment_status-text PaymentStatus.failed = refl
payment_status-text PaymentStatus.capture_failed = refl

text-payment_status :
    (t : String) (s : PaymentStatus) → payment_status t ≡ some s → t ≡ payment_status_text s
text-payment_status t s h = ground (
  arith,
  eq_iff t "CREATED",
  eq_iff t "AUTHORIZED",
  eq_iff t "CAPTURED",
  eq_iff t "FAILED",
  eq_iff t "CAPTURE_FAILED",
)

pub check_payment-some :
    (p : Payment001)
    → IsAdmittedPayment p
    → (q : PaymentRecord) × (check_payment p ≡ some q) × (payment_001 q ≡ p)
unfolding check_payment
check_payment-some p h = (
  checked_payment p h.status,
  (let e : payment_status p.status ≡ some h.status =
        ap payment_status h.has_status ∙ payment_status-text h.status in
      ground (arith, e, h.amount, h.currency)),
  ap (λ s. record p { status = s }) (sym h.has_status),
)

pub some-check_payment :
    (p : Payment001) (q : PaymentRecord) → check_payment p ≡ some q → IsAdmittedPayment p
unfolding check_payment
some-check_payment p q h = elim (Option-cases (payment_status p.status)) [
  | inl e ↦ absurd (ground (arith, e))
  | inr (s, e) ↦ record {
    status = s;
    has_status = text-payment_status p.status s e;
    amount = ground (arith, e);
    currency = ground (arith, e);
  }
]

key_status-text : (s : IdempotencyStatus) → key_status (key_status_text s) ≡ some s
key_status-text IdempotencyStatus.processing = refl
key_status-text IdempotencyStatus.completed = refl
key_status-text IdempotencyStatus.failed = refl

text-key_status :
    (t : String) (s : IdempotencyStatus) → key_status t ≡ some s → t ≡ key_status_text s
text-key_status t s h =
    ground (arith, eq_iff t "PROCESSING", eq_iff t "COMPLETED", eq_iff t "FAILED")

pub check_key-some :
    (r : LeasedKeyRow String)
    → IsAdmittedRow r
    → (r' : LeasedKeyRow IdempotencyStatus) × (check_key r ≡ some r') × (unchecked_key r' ≡ r)
unfolding check_key
check_key-some r (s, h) = (
  key_with_status s r,
  (let e : key_status r.row.status ≡ some s = ap key_status h ∙ key_status-text s in
      ground (arith, e)),
  ap (λ x. record r { row = record r.row { status = x } }) (sym h),
)

pub some-check_key :
    (r : LeasedKeyRow String) (r' : LeasedKeyRow IdempotencyStatus)
    → check_key r ≡ some r'
    → IsAdmittedRow r
unfolding check_key
some-check_key r r' h = elim (Option-cases (key_status r.row.status)) [
  | inl e ↦ absurd (ground (arith, e))
  | inr (s, e) ↦ (s, text-key_status r.row.status s e)
]
