-- ===== src/Configuration/Tests.antt =====
-- A configuration that is read from a concrete environment.
use payment_orchestration_pl.Prelude.{ℕ, refl, true, none, some, ◌==◌, ltb, if◌then◌else◌}
use payment_orchestration_pl.Configuration.{Numbers, Environment}
use payment_orchestration_pl.Configuration.Settings.{AreAdmitted}

abbrev naturals : Numbers
naturals = record {
  Number = ℕ;
  number = λ s. if s == "25" then 25 else 0;
  literal = λ n. n;
  is_integer = λ n. true;
  is_finite = λ n. true;
  is_positive = λ n. ltb 0 n;
}

abbrev small_batches : Environment
small_batches name = if name == "OUTBOX_BATCH_SIZE" then some "25" else none

is_admitted : AreAdmitted naturals small_batches
is_admitted = (tt, (refl, refl, refl), tt, tt, tt, tt)
