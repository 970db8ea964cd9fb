-- ===== src/Tables.antt =====
-- The meaning of the SQL statements that the data-access classes build: a table is the list of
-- its rows, oldest first.
pub mod Laws
use payment_orchestration_pl.Prelude.{
  Bool, Option, none, some, List, [], ◌∷◌, if◌then◌else◌, map_option,
}

module _ {R : Type 0} where
  -- `SELECT … WHERE p`, of which `.first()` keeps one row.
  unfoldable pub first_where : (R → Bool) → List R → Option R
  first_where p [] = none
  first_where p (r ∷ rows) = if p r then some r else first_where p rows

  unfoldable pub select_where : (R → Bool) → List R → List R
  select_where p [] = []
  select_where p (r ∷ rows) = if p r then r ∷ select_where p rows else select_where p rows

  -- `UPDATE … SET f WHERE p`
  unfoldable pub update_where : (R → Bool) → (R → R) → List R → List R
  update_where p f [] = []
  update_where p f (r ∷ rows) = (if p r then f r else r) ∷ update_where p f rows

  -- `const [record] = await ….update(…).returning('*')`
  abbrev pub update_returning : (R → Bool) → (R → R) → List R → Option R × List R
  update_returning p f rows = (map_option f (first_where p rows), update_where p f rows)
