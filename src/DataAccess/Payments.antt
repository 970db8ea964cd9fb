-- ===== src/DataAccess/Payments.antt =====
-- services/payment-service/src/data-access/payments/payments-data-access.ts, over the table of
-- the migrations 001 and 004: its constraints and its trigger on `updated_at`.
use Prim.Native.String.{count}
use payment_orchestration_pl.Prelude.{
  ℕ, String, Bool, true, false, not, ◌&&◌, ◌||◌, Option, none, some, List, [], ◌∷◌, ◌++◌, ◌==◌, leb,
  ltb, if◌then◌else◌, is_some,
}
use payment_orchestration_pl.Errors.{other_error, ok, err}
use payment_orchestration_pl.Tables.{first_where, update_returning}
use payment_orchestration_pl.DataAccess.Rows.{PaymentStatus, PaymentRecord}
use payment_orchestration_pl.Exec.{Statement}

pub record InsertPaymentRecord : Type 0 where
  pub id : String
  pub merchant_id : String
  pub amount_minor : ℕ
  pub currency : String
  pub status : PaymentStatus
  pub provider : String
  pub provider_payment_id : Option String
  pub failure_code : Option String
  pub failure_message : Option String
  pub authorized_at : Option ℕ
  pub failed_at : Option ℕ

pub record UpdateAuthorizedPaymentStatusInput : Type 0 where
  pub id : String
  pub status : PaymentStatus
  pub captured_at : Option ℕ
  pub failed_at : Option ℕ
  pub failure_code : Option String
  pub failure_message : Option String

abbrev pub is_authorized : PaymentStatus → Bool
is_authorized PaymentStatus.authorized = true
is_authorized _ = false

abbrev pub has_id : String → PaymentRecord → Bool
has_id id p = p.id == id

-- The row that a payment id reads.
abbrev pub find_payment : String → List PaymentRecord → Option PaymentRecord
find_payment id = first_where (has_id id)

-- A text fits a column `varchar(n)`; NULL does.
fits : ℕ → Option String → Bool
fits n none = true
fits n (some s) = leb (count s) n

-- The CHECK constraints and column types of `payments`.
unfoldable pub meets_checks : InsertPaymentRecord → Bool
unfolding fits
meets_checks r =
    ltb 0 r.amount_minor
    && (r.currency == "TRY" || r.currency == "USD" || r.currency == "EUR")
    && fits 50 (some r.provider)
    && fits 120 r.provider_payment_id
    && fits 80 r.failure_code

-- The row that the database makes of an insertion: `created_at` and `updated_at` by default.
abbrev pub inserted_payment : InsertPaymentRecord → ℕ → PaymentRecord
inserted_payment r now = record {
  id = r.id;
  merchant_id = r.merchant_id;
  amount_minor = r.amount_minor;
  currency = r.currency;
  status = r.status;
  provider = r.provider;
  provider_payment_id = r.provider_payment_id;
  failure_code = r.failure_code;
  failure_message = r.failure_message;
  authorized_at = r.authorized_at;
  captured_at = none;
  failed_at = r.failed_at;
  created_at = now;
  updated_at = now;
}

unfoldable pub insert : InsertPaymentRecord → Statement PaymentRecord
insert r now db =
    if is_some (find_payment r.id db.payments)
    then (err (other_error "payments_pkey"), db)
    else if meets_checks r
    then (
      ok (inserted_payment r now),
      record db { payments = db.payments ++ inserted_payment r now ∷ [] },
    )
    else (err (other_error "payments_check"), db)

unfoldable pub find_by_id : String → Statement (Option PaymentRecord)
find_by_id id now db = (ok (find_payment id db.payments), db)

-- The row lock is the transaction's atomicity.
unfoldable pub find_by_id_for_update : String → Statement (Option PaymentRecord)
find_by_id_for_update id now db = (ok (find_payment id db.payments), db)

abbrev pub is_updatable : String → PaymentRecord → Bool
is_updatable id p = p.id == id && is_authorized p.status

abbrev pub with_status : UpdateAuthorizedPaymentStatusInput → ℕ → PaymentRecord → PaymentRecord
with_status u now p = record p {
  status = u.status;
  captured_at = u.captured_at;
  failed_at = u.failed_at;
  failure_code = u.failure_code;
  failure_message = u.failure_message;
  updated_at = now;
}

-- An update of no row meets every constraint.
unfoldable pub update_status_if_authorized :
    UpdateAuthorizedPaymentStatusInput → Statement (Option PaymentRecord)
unfolding fits
update_status_if_authorized u now db =
    let (updated, rows) = update_returning (is_updatable u.id) (with_status u now) db.payments in
    if is_some updated && not (fits 80 u.failure_code)
    then (err (other_error "value too long for type character varying(80)"), db)
    else (ok updated, record db { payments = rows })
