-- ===== src/Worker/Batches.antt =====
-- What `fetchPendingBatch` of services/payment-service/src/data-access/outbox picks: the rows are
-- claimed oldest first.
use mathlib.Core.List.{Perm}
use mathlib.Core.List.Perm
use payment_orchestration_pl.Prelude.{
  ℕ, zero, suc, min, String, ◌≡◌, refl, ap, ◌∙◌, ◌⊎◌, inl, inr, Bool, true, false, not, ◌&&◌, List,
  [], ◌∷◌, ◌++◌, arith, All, length, take, Bool-cases,
}
use payment_orchestration_pl.Errors.{ok}
use payment_orchestration_pl.Tables.{select_where}
use payment_orchestration_pl.DataAccess.Rows.{OutboxEventRecord, Db}
use payment_orchestration_pl.DataAccess.Outbox.{
  precedes, place, order_by_age, is_eligible, fetch_pending_batch,
}

-- What PostgreSQL's order of UUIDs is relied on for.
pub record IsOrder (id_le : String → String → Bool) : Type 0 where
  pub total : (a b : String) → (id_le a b ≡ true) ⊎ (id_le b a ≡ true)
  pub transitive : (a b c : String) → id_le a b ≡ true → id_le b c ≡ true → id_le a c ≡ true

module _ (id_le : String → String → Bool) where
  -- Each row precedes all that follow.
  abbrev pub IsSorted : List OutboxEventRecord → Type 0
  IsSorted [] = Unit
  IsSorted (e ∷ es) = All (λ x. precedes id_le e x ≡ true) es × IsSorted es

  -- The batch, with the rows that wait for a later one: together they are the rows that are due
  -- and that no other poller holds, in order of age.
  pub record IsBatch (limit now : ℕ) (locked : OutboxEventRecord → Bool) (db : Db)
      (batch : List OutboxEventRecord) : Type 0 where
    pub waiting : List OutboxEventRecord
    pub same_rows :
        Perm
          (batch ++ waiting)
          (select_where (λ e. is_eligible now e && not (locked e)) db.outbox_events)
    pub sorted : IsSorted (batch ++ waiting)
    pub size :
        length batch
        ≡ min limit
            (length (select_where (λ e. is_eligible now e && not (locked e)) db.outbox_events))

drop : ℕ → List OutboxEventRecord → List OutboxEventRecord
drop zero xs = xs
drop (suc n) [] = []
drop (suc n) (x ∷ xs) = drop n xs

take-drop : (n : ℕ) (xs : List OutboxEventRecord) → take n xs ++ drop n xs ≡ xs
unfolding drop
take-drop zero xs = refl
take-drop (suc n) [] = refl
take-drop (suc n) (x ∷ xs) = ap (λ ys. x ∷ ys) (take-drop n xs)

length-take : (n : ℕ) (xs : List OutboxEventRecord) → length (take n xs) ≡ min n (length xs)
length-take zero xs = ground arith
length-take (suc n) [] = ground arith
length-take (suc n) (x ∷ xs) = ground (arith, length-take n xs)

module _ (id_le : String → String → Bool) (order : IsOrder id_le) where
  precedes_total :
      (a b : OutboxEventRecord) → precedes id_le a b ≡ false → precedes id_le b a ≡ true
  precedes_total a b h = ground (arith, order.total a.id b.id)

  precedes_trans :
      (a b c : OutboxEventRecord)
      → precedes id_le a b ≡ true
      → precedes id_le b c ≡ true
      → precedes id_le a c ≡ true
  precedes_trans a b c h k = ground (arith, order.transitive a.id b.id c.id)

  precede-All :
      (a b : OutboxEventRecord) (es : List OutboxEventRecord)
      → precedes id_le a b ≡ true
      → All (λ x. precedes id_le b x ≡ true) es
      → All (λ x. precedes id_le a x ≡ true) es
  precede-All a b [] h k = tt
  precede-All a b (e ∷ es) h k = (precedes_trans a b e h k.0, precede-All a b es h k.1)

  place-All :
      (a e : OutboxEventRecord) (es : List OutboxEventRecord)
      → precedes id_le a e ≡ true
      → All (λ x. precedes id_le a x ≡ true) es
      → All (λ x. precedes id_le a x ≡ true) (place id_le e es)
  unfolding place
  place-All a e [] h k = (h, tt)
  place-All a e (x ∷ xs) h k = elim (Bool-cases (precedes id_le e x)) [
    | inl first ↦ rw first (h, k)
    | inr later ↦ rw later (k.0, place-All a e xs h k.1)
  ]

  place-IsSorted :
      (e : OutboxEventRecord) (es : List OutboxEventRecord)
      → IsSorted id_le es
      → IsSorted id_le (place id_le e es)
  unfolding place
  place-IsSorted e [] h = (tt, tt)
  place-IsSorted e (x ∷ xs) h = elim (Bool-cases (precedes id_le e x)) [
    | inl first ↦ rw first ((first, precede-All e x xs first h.0), h)
    | inr later ↦
        rw later (place-All x e xs (precedes_total e x later) h.0, place-IsSorted e xs h.1)
  ]

  order_by_age-IsSorted : (es : List OutboxEventRecord) → IsSorted id_le (order_by_age id_le es)
  unfolding order_by_age
  order_by_age-IsSorted [] = tt
  order_by_age-IsSorted (e ∷ es) =
      place-IsSorted e (order_by_age id_le es) (order_by_age-IsSorted es)

  place-Perm :
      (e : OutboxEventRecord) (es : List OutboxEventRecord) → Perm (place id_le e es) (e ∷ es)
  unfolding place
  place-Perm e [] = Perm.refl (e ∷ [])
  place-Perm e (x ∷ xs) = elim (Bool-cases (precedes id_le e x)) [
    | inl first ↦ rw first (Perm.refl (e ∷ x ∷ xs))
    | inr later ↦ rw later (Perm.trans (Perm.cons x (place-Perm e xs)) (Perm.swap e x xs))
  ]

  order_by_age-Perm : (es : List OutboxEventRecord) → Perm (order_by_age id_le es) es
  unfolding order_by_age
  order_by_age-Perm [] = Perm.refl []
  order_by_age-Perm (e ∷ es) =
      Perm.trans (place-Perm e (order_by_age id_le es)) (Perm.cons e (order_by_age-Perm es))

  place-length :
      (e : OutboxEventRecord) (es : List OutboxEventRecord)
      → length (place id_le e es) ≡ suc (length es)
  unfolding place
  place-length e [] = refl
  place-length e (x ∷ xs) = ground (arith, place-length e xs)

  order_by_age-length : (es : List OutboxEventRecord) → length (order_by_age id_le es) ≡ length es
  unfolding order_by_age
  order_by_age-length [] = refl
  order_by_age-length (e ∷ es) =
      place-length e (order_by_age id_le es) ∙ ap suc (order_by_age-length es)

  -- Where `id_le` orders the UUIDs, `fetchPendingBatch` answers with the oldest rows that are
  -- PENDING, due and not held by another poller, oldest first, as many as the limit admits, and
  -- changes nothing.
  pub fetch_pending_batch-IsBatch :
      (limit now : ℕ) (locked : OutboxEventRecord → Bool) (db : Db)
      → (batch : List OutboxEventRecord) × (fetch_pending_batch id_le limit locked now db
          ≡ (ok batch, db))
        × IsBatch id_le limit now locked db batch
  unfolding fetch_pending_batch
  fetch_pending_batch-IsBatch limit now locked db =
      let rows = select_where (λ e. is_eligible now e && not (locked e)) db.outbox_events in
      let ordered = order_by_age id_le rows in
      (
        take limit ordered,
        refl,
        record {
          waiting = drop limit ordered;
          same_rows = rw (take-drop limit ordered) (order_by_age-Perm rows);
          sorted = rw (take-drop limit ordered) (order_by_age-IsSorted rows);
          size = length-take limit ordered ∙ ap (λ k. min limit k) (order_by_age-length rows);
        },
      )
