-- ===== src/Tables/Laws.antt =====
-- How a lookup by a key reads a table after an update or an insertion.
use payment_orchestration_pl.Prelude.{
  ◌≡◌, refl, Bool, true, none, some, List, [], ◌∷◌, ◌++◌, if◌then◌else◌, map_option, arith,
}
use payment_orchestration_pl.Tables.{first_where, update_where}

module _ {R : Type 0} where
  pub first_where-append :
      (p : R → Bool) (xs ys : List R)
      → first_where p (xs ++ ys)
        ≡ elim (first_where p xs) [ none ↦ first_where p ys | some r ↦ some r ]
  unfolding first_where
  first_where-append p [] ys = refl
  first_where-append p (x ∷ xs) ys = ground (arith, first_where-append p xs ys)

  -- An update that leaves the key alone is seen by a lookup as a change of the row found.
  pub first_where-update_where :
      (key p : R → Bool) (f : R → R) (rows : List R)
      → ((r : R) → key (f r) ≡ key r)
      → first_where key (update_where p f rows)
        ≡ map_option (λ r. if p r then f r else r) (first_where key rows)
  unfolding first_where update_where
  first_where-update_where key p f [] keeps = refl
  first_where-update_where key p f (r ∷ rows) keeps =
      ground (arith, keeps r, first_where-update_where key p f rows keeps)

  -- A row that is found satisfies the condition.
  pub first_where_sound :
      (p : R → Bool) (rows : List R) (r : R) → first_where p rows ≡ some r → p r ≡ true
  unfolding first_where
  first_where_sound p [] r e = ground arith
  first_where_sound p (x ∷ rows) r e = ground (arith, first_where_sound p rows r)

  -- A stronger condition that holds of the row found by a weaker one finds the same row.
  pub first_where_strengthen :
      (p q : R → Bool) (rows : List R) (r : R)
      → ((x : R) → p x ≡ true → q x ≡ true)
      → first_where q rows ≡ some r
      → p r ≡ true
      → first_where p rows ≡ some r
  unfolding first_where
  first_where_strengthen p q [] r weaker e h = ground arith
  first_where_strengthen p q (x ∷ rows) r weaker e h =
      ground (arith, weaker x, first_where_strengthen p q rows r weaker)

  -- What a weaker condition does not find, a stronger one does not.
  pub first_where-none :
      (p q : R → Bool) (rows : List R)
      → ((x : R) → p x ≡ true → q x ≡ true)
      → first_where q rows ≡ none
      → first_where p rows ≡ none
  unfolding first_where
  first_where-none p q [] weaker e = refl
  first_where-none p q (x ∷ rows) weaker e =
      ground (arith, weaker x, first_where-none p q rows weaker)

  -- The last row of a table, where no other row satisfies the condition.
  pub first_where_last :
      (p : R → Bool) (rows : List R) (r : R)
      → first_where p rows ≡ none
      → p r ≡ true
      → first_where p (rows ++ r ∷ []) ≡ some r
  unfolding first_where
  first_where_last p [] r e h = ground arith
  first_where_last p (x ∷ rows) r e h = ground (arith, first_where_last p rows r)
