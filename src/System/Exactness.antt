-- ===== src/System/Exactness.antt =====
-- The outbox tells exactly what has happened to every payment.
use payment_orchestration_pl.Prelude.{
  ℕ, ◌+◌, String, ◌≡◌, refl, sym, ap, ◌∙◌, none, some, List, [], ◌∷◌, ◌++◌, arith, inl, inr,
  Bool-cases, Option-cases, map_option, if◌then◌else◌, ◌==◌, eq_iff, eq_refl,
}
use payment_orchestration_pl.Tables.{first_where, update_where}
use payment_orchestration_pl.Tables.Laws.{
  first_where-append, first_where-update_where, first_where_sound,
}
use payment_orchestration_pl.DataAccess.Rows.{
  authorized, PaymentRecord, PaymentEventType, OutboxEventRecord, Db,
}
use payment_orchestration_pl.DataAccess.Payments.{find_payment, has_id, is_updatable, with_status}
use payment_orchestration_pl.Providers.Contract.{CapturePaymentResult}
use payment_orchestration_pl.Payments.Commands.{capture_update}
use payment_orchestration_pl.System.{Reach}
use payment_orchestration_pl.System.Effects.{PaymentsEffect, Step-PaymentsEffect}
use payment_orchestration_pl.System.Counts.{
  hit, events_about, by_status, happened, IsExact, events_about-append, events_about-update,
  happened_create, happened_capture, hit_other,
}

find-append :
    (id : String) (p : PaymentRecord) (ps : List PaymentRecord)
    → find_payment id (ps ++ p ∷ [])
      ≡ elim (find_payment id ps) [ none ↦ if p.id == id then some p else none | some r ↦ some r ]
unfolding first_where
find-append id p ps = first_where-append (has_id id) ps (p ∷ [])

create-exact :
    (id : String) (t : PaymentEventType) (db : Db) (p : PaymentRecord) (e : OutboxEventRecord)
    → events_about id t db.outbox_events ≡ happened t (find_payment id db.payments)
    → find_payment p.id db.payments ≡ none
    → hit p.id t e ≡ by_status t p.status
    → e.aggregate_id ≡ p.id
    → events_about id t (db.outbox_events ++ e ∷ [])
      ≡ happened t (find_payment id (db.payments ++ p ∷ []))
create-exact id t db p e h fresh k a =
    rw (events_about-append, find-append, h)
      (elim (Bool-cases (p.id == id)) [
        | inl same ↦
            let q : p.id ≡ id = (eq_iff p.id id).0 same in
            let f : find_payment id db.payments ≡ none =
              ap (λ x. find_payment x db.payments) (sym q) ∙ fresh in
            let k' : hit id t e ≡ by_status t p.status = ap (λ x. hit x t e) (sym q) ∙ k in
            rw (f, same) (omega (arith, k'))
        | inr other ↦
            let o : hit id t e ≡ 0 =
              hit_other id t e p a (λ q. absurd (ground (arith, eq_iff p.id id, sym q))) in
            rw o (elim (Option-cases (find_payment id db.payments)) [
              | inl f ↦ rw (f, other) refl
              | inr (r, f) ↦ rw f (omega arith)
            ])
      ])

-- The lookup of any id after the update of one payment.
find-capture :
    (id : String) (p : PaymentRecord) (answer : CapturePaymentResult) (at now : ℕ)
    (ps : List PaymentRecord)
    → find_payment id
        (update_where (is_updatable p.id) (with_status (capture_update p.id answer at) now) ps)
      ≡ map_option
          (λ r.
            if is_updatable p.id r then with_status (capture_update p.id answer at) now r else r)
          (find_payment id ps)
find-capture id p answer at now ps =
    first_where-update_where (has_id id) (is_updatable p.id)
      (with_status (capture_update p.id answer at) now) ps (λ r. refl)

capture-exact :
    (id : String) (t : PaymentEventType) (db : Db) (p : PaymentRecord) (e : OutboxEventRecord)
    (answer : CapturePaymentResult) (at now : ℕ)
    → events_about id t db.outbox_events ≡ happened t (find_payment id db.payments)
    → find_payment p.id db.payments ≡ some p
    → p.status ≡ authorized
    → e.aggregate_id ≡ p.id
    → by_status t p.status + hit p.id t e ≡ by_status t (capture_update p.id answer at).status
    → events_about id t (db.outbox_events ++ e ∷ [])
      ≡ happened t (
          find_payment id (
            update_where
              (is_updatable p.id)
              (with_status (capture_update p.id answer at) now)
              db.payments))
capture-exact id t db p e answer at now h found capturable a k =
    rw (events_about-append, find-capture, h)
      (elim (Bool-cases (p.id == id)) [
        | inl same ↦
            let q : p.id ≡ id = (eq_iff p.id id).0 same in
            let f : find_payment id db.payments ≡ some p =
              ap (λ x. find_payment x db.payments) (sym q) ∙ found in
            let k' : by_status t p.status + hit id t e
                ≡ by_status t (capture_update p.id answer at).status =
              ap (λ x. by_status t p.status + hit x t e) (sym q) ∙ k in
            rw f (ground (arith, k', eq_refl p.id))
        | inr other ↦
            let o : hit id t e ≡ 0 =
              hit_other id t e p a (λ q. absurd (ground (arith, eq_iff p.id id, sym q))) in
            rw o (elim (Option-cases (find_payment id db.payments)) [
              | inl f ↦ rw f refl
              | inr (r, f) ↦
                  let i : r.id ≡ id =
                    (eq_iff r.id id).0 (first_where_sound (has_id id) db.payments r f) in
                  rw f (ground (arith, eq_iff r.id p.id, eq_iff p.id id))
            ])
      ])

effect-IsExact : {db db' : Db} → PaymentsEffect db db' → IsExact db → IsExact db'
unfolding IsExact
effect-IsExact (PaymentsEffect.same hp ho) h id t = rw (hp, ho) (h id t)
effect-IsExact {db} (PaymentsEffect.create p e answer fresh status a k hp ho) h id t =
    rw (hp, ho)
      (create-exact id t db p e (h id t) fresh (happened_create t p e answer status a k) a)
effect-IsExact {db} (PaymentsEffect.capture p e answer at now found capturable a k hp ho) h id t =
    rw (hp, ho)
      (capture-exact id t db p e answer at now (h id t) found capturable a
        (happened_capture t p e answer at capturable a k))
effect-IsExact {db} (PaymentsEffect.publish p f ha ht hp ho) h id t =
    rw (hp, ho) (events_about-update id t p f db.outbox_events ha ht ∙ h id t)

-- In every database that the steps reach from an exact one, the outbox holds for each payment
-- exactly the events that its status calls for, and none for other ids.
pub Reach-IsExact : {db db' : Db} → IsExact db → Reach db db' → IsExact db'
Reach-IsExact h Reach.here = h
Reach-IsExact h (Reach.next r st) = effect-IsExact (Step-PaymentsEffect st) (Reach-IsExact h r)
