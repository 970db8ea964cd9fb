-- ===== src/System/Runs.antt =====
-- Whatever a request does, in whatever environment of other requests, is a sequence of the
-- system's steps.
use payment_orchestration_pl.Prelude.{ℕ, ◌≡◌, refl, List, [], ◌∷◌}
use payment_orchestration_pl.Errors.{Result, ok, err}
use payment_orchestration_pl.DataAccess.Rows.{Db}
use payment_orchestration_pl.Exec.{
  World, M, Tick, Statement, Fault, healthy, refused, unacknowledged, head_fault, interleave,
  run_others, later_ticks, random_uuid, query, transaction, await, settle,
}
use payment_orchestration_pl.Exec.Keeps.{Keeps}
use payment_orchestration_pl.System.{Reach, Reach-trans, Friendly}

-- The world's database is reachable from `db₀`, and its environment is friendly.
abbrev pub Reached : Db → World → Type 0
Reached db₀ w = Reach db₀ w.db × Friendly w.ticks

abbrev pub InFriendly : World → Type 0
InFriendly w = Friendly w.ticks

pub others-Reach : (ts : List Tick) (db : Db) → Friendly ts → Reach db (run_others ts db)
others-Reach [] db h = Reach.here
others-Reach (t ∷ ts) db h = h.0 db

pub later-Friendly : (ts : List Tick) → Friendly ts → Friendly (later_ticks ts)
later-Friendly [] h = tt
later-Friendly (t ∷ ts) h = h.1

pub interleave-Reached : (db₀ : Db) (w : World) → Reached db₀ w → Reached db₀ (interleave w)
interleave-Reached db₀ w h =
    (Reach-trans h.0 (others-Reach w.ticks w.db h.1), later-Friendly w.ticks h.1)

pub Keeps-random_uuid : (db₀ : Db) → Keeps (Reached db₀) random_uuid
unfolding random_uuid
Keeps-random_uuid db₀ = record { keeps = λ w h. h }

pub friendly-random_uuid : Keeps InFriendly random_uuid
unfolding random_uuid
friendly-random_uuid = record { keeps = λ w h. h }

pub friendly-query : {A : Type 0} (s : Statement A) → Keeps InFriendly (query s)
unfolding query
friendly-query s = record { keeps = λ w h. h }

settle-Reached :
    {A : Type 0} (db₀ : Db) (f : Fault) (a : A) (before after : World)
    → Reach db₀ before.db
    → Reached db₀ after
    → Reached db₀ (settle f (ok a) before after).1
settle-Reached db₀ healthy a before after r h = h
settle-Reached db₀ (refused e) a before after r h = (r, h.1)
settle-Reached db₀ (unacknowledged e) a before after r h = h

-- A transaction is one step if its body, where it resolves, is.
pub Keeps-transaction :
    {A : Type 0} (db₀ : Db) (body : M A)
    → ((w w' : World) (a : A) → body w ≡ (ok a, w') → Reach w.db w'.db)
    → Keeps InFriendly body
    → Keeps (Reached db₀) (transaction body)
unfolding transaction
Keeps-transaction {A} db₀ body steps friendly = record {
  keeps = λ w h.
      let before = interleave w in
      let (r, f) = interleave-Reached db₀ w h in
      go w before r (body before) refl (friendly.keeps before f);
}
  where
    go :
        (w before : World)
        → Reach db₀ before.db
        → (x : Result A × World) → body before ≡ x
        → Friendly x.1.ticks
        → Reached db₀
            (let y : Result A × World = elim x.0 [
              | ok a ↦ settle (head_fault w.ticks) (ok a) before x.1
              | err e ↦ (err e, record x.1 { db = before.db })
            ] in
              y).1
    go w before r (ok a, after) e f =
        settle-Reached db₀ (head_fault w.ticks) a before after r
          (Reach-trans r (steps before after a e), f)
    go w before r (err t, after) e f = (r, f)

-- A statement on its own.
pub Keeps-await :
    {A : Type 0} (db₀ : Db) (s : Statement A)
    → ((now : ℕ) (db : Db) → Reach db (s now db).1)
    → Keeps (Reached db₀) (await s)
unfolding query
Keeps-await {A} db₀ s steps =
    Keeps-transaction db₀ (query s) (λ w w' a e. go w w' a e) (friendly-query s)
  where
    go : (w w' : World) (a : A) → query s w ≡ (ok a, w') → Reach w.db w'.db
    go w w' a e = let same : (s w.db_now w.db).1 ≡ w'.db = cc in rw (← same) (steps w.db_now w.db)
