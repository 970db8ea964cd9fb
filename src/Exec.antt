-- ===== src/Exec.antt =====
-- How a request runs: a state and exception monad over the database, the clocks, the supply of
-- UUIDs and an environment. Before each statement the environment lets other requests change the
-- database and time pass, and may make the statement fail. A transaction
-- (data-access/transaction-manager.ts) is one such step: its row locks and its single commit let
-- nothing of another request come between its effects, and it has no effect if its body throws.
pub mod Laws
pub mod Keeps
use payment_orchestration_pl.Prelude.{ℕ, ◌+◌, String, List, [], ◌∷◌, ◌++◌}
use payment_orchestration_pl.Errors.{Thrown, Result, ok, err}
use payment_orchestration_pl.DataAccess.Rows.{Db}
use payment_orchestration_pl.Providers.Contract.{ProviderCall}

-- Whether the database executes what is sent, refuses it, or executes it and the answer is lost.
pub data Fault : Type 0 where
  healthy : Fault
  refused : Thrown → Fault
  unacknowledged : Thrown → Fault

-- What happens before and to one statement.
pub record Tick : Type 0 where
  pub others : Db → Db
  pub elapsed : ℕ
  pub fault : Fault

-- `now` is the clock of the process (`Date.now()`), `db_now` that of the database (`now()`).
-- `calls` logs the calls of providers.
pub record World : Type 0 where
  pub db : Db
  pub now : ℕ
  pub db_now : ℕ
  pub uuid : ℕ → String
  pub drawn : ℕ
  pub ticks : List Tick
  pub calls : List ProviderCall

abbrev pub M : Type 0 → Type 0
M A = World → Result A × World

-- A statement reads the database's clock; it may break a constraint.
abbrev pub Statement : Type 0 → Type 0
Statement A = ℕ → Db → Result A × Db

unfoldable pub pure : {A : Type 0} → A → M A
pure a w = (ok a, w)

unfoldable pub throw : {A : Type 0} → Thrown → M A
throw e w = (err e, w)

-- `try { m } catch (error) { handler(error) }`
unfoldable pub try_catch : {A : Type 0} → M A → (Thrown → M A) → M A
try_catch m handler w = let (r, w') = m w in elim r [ ok a ↦ (ok a, w') | err e ↦ handler e w' ]

unfoldable pub lift : {A : Type 0} → Result A → M A
lift r w = (r, w)

unfoldable pub gets : {A : Type 0} → (World → A) → M A
gets f w = (ok (f w), w)

-- `randomUUID()`
unfoldable pub random_uuid : M String
random_uuid w = (ok (w.uuid w.drawn), record w { drawn = w.drawn + 1 })

abbrev pub head_fault : List Tick → Fault
head_fault [] = healthy
head_fault (t ∷ ts) = t.fault

abbrev pub run_others : List Tick → Db → Db
run_others [] db = db
run_others (t ∷ ts) db = t.others db

abbrev pub head_elapsed : List Tick → ℕ
head_elapsed [] = 0
head_elapsed (t ∷ ts) = t.elapsed

abbrev pub later_ticks : List Tick → List Tick
later_ticks [] = []
later_ticks (t ∷ ts) = ts

-- The world in which the next statement runs.
abbrev pub interleave : World → World
interleave w = record w {
  db = run_others w.ticks w.db;
  now = w.now + head_elapsed w.ticks;
  db_now = w.db_now + head_elapsed w.ticks;
  ticks = later_ticks w.ticks;
}

-- A statement inside a transaction.
unfoldable pub query : {A : Type 0} → Statement A → M A
query s w = let (r, db') = s w.db_now w.db in (r, record w { db = db' })

abbrev pub settle : {A : Type 0} → Fault → Result A → World → World → Result A × World
settle healthy r before after = (r, after)
settle (refused e) r before after = (err e, record after { db = before.db })
settle (unacknowledged e) r before after = (err e, after)

-- `knex.transaction(body)`: commits if the body resolves, rolls back if it throws.
unfoldable pub transaction : {A : Type 0} → M A → M A
transaction body w =
    let before = interleave w in
    let (r, after) = body before in
    elim r [
      | ok a ↦ settle (head_fault w.ticks) (ok a) before after
      | err e ↦ (err e, record after { db = before.db })
    ]

infixl 5 ◌>>=◌ ◌>>◌
-- Opening this opens the other actions too.
unfoldable pub ◌>>=◌ : {A B : Type 0} → M A → (A → M B) → M B
unfolding pure throw try_catch lift gets random_uuid query transaction
◌>>=◌ m f w = let (r, w') = m w in elim r [ ok a ↦ f a w' | err e ↦ (err e, w') ]

abbrev pub ◌>>◌ : {A B : Type 0} → M A → M B → M B
m >> k = m >>= λ _. k

-- A statement on its own is a transaction of one.
abbrev pub await : {A : Type 0} → Statement A → M A
await s = transaction (query s)
