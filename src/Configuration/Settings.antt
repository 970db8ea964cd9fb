-- ===== src/Configuration/Settings.antt =====
-- What the settings of the outbox worker are, services/payment-service/src/workers/outbox-publisher-worker.ts.
use payment_orchestration_pl.Prelude.{
  ℕ, String, ◌≡◌, ◌⊎◌, ◌↔◌, inl, inr, refl, true, Option, none, some, arith,
}
use payment_orchestration_pl.Errors.{Thrown, Result, ok, err}
use payment_orchestration_pl.Configuration.{
  Numbers, Environment, parse_positive_integer, WorkerConfig, worker_config,
}

module _ (n : Numbers) where
  open n use {Number, number, literal, is_integer, is_finite, is_positive}

  abbrev pub IsPositiveInteger : Number → Type 0
  IsPositiveInteger x = (is_integer x ≡ true) × (is_finite x ≡ true) × (is_positive x ≡ true)

  Result-cases : {A : Type 0} (r : Result A) → ((e : Thrown) × (r ≡ err e)) ⊎ ((a : A) × (r ≡ ok a))
  Result-cases (err e) = inl (e, refl)
  Result-cases (ok a) = inr (a, refl)

  -- The default where the variable is not set, and else the positive integer that it shows.
  abbrev pub IsSetting : Option String → (default_value : ℕ) → Number → Type 0
  IsSetting none default_value x = x ≡ literal default_value
  IsSetting (some text) default_value x = (x ≡ number text) × IsPositiveInteger x

  -- A variable that is set shows a positive integer.
  abbrev pub IsAdmitted : Option String → Type 0
  IsAdmitted none = Unit
  IsAdmitted (some text) = IsPositiveInteger (number text)

  parse-IsSetting :
      (value : Option String) (name : String) (default_value : ℕ) (x : Number)
      → parse_positive_integer n value name default_value ≡ ok x
      → IsSetting value default_value x
  unfolding parse_positive_integer
  parse-IsSetting value name default_value x e = ground arith

  IsAdmitted-parse :
      (value : Option String) (name : String) (default_value : ℕ)
      → IsAdmitted value
      → (x : Number) × (parse_positive_integer n value name default_value ≡ ok x)
  unfolding parse_positive_integer
  IsAdmitted-parse none name default_value h = (literal default_value, refl)
  IsAdmitted-parse (some text) name default_value h = (number text, ground arith)

  -- The fields are the settings.
  pub record IsConfigured (env : Environment) (c : WorkerConfig n) : Type 0 where
    pub poll_interval : IsSetting (env "OUTBOX_POLL_INTERVAL_MS") 1000 c.poll_interval_ms
    pub batch_size : IsSetting (env "OUTBOX_BATCH_SIZE") 50 c.batch_size
    pub max_attempts : IsSetting (env "OUTBOX_MAX_ATTEMPTS") 10 c.max_attempts
    pub retry_base_delay : IsSetting (env "OUTBOX_RETRY_BASE_DELAY_MS") 1000 c.retry_base_delay_ms
    pub retry_max_delay : IsSetting (env "OUTBOX_RETRY_MAX_DELAY_MS") 60000 c.retry_max_delay_ms

  IsSetting-IsAdmitted :
      (value : Option String) (default_value : ℕ) (x : Number)
      → IsSetting value default_value x
      → IsAdmitted value
  IsSetting-IsAdmitted none default_value x h = tt
  IsSetting-IsAdmitted (some text) default_value x h = ground (arith, h)

  abbrev parse : Environment → String → ℕ → Result Number
  parse env name default_value = parse_positive_integer n (env name) name default_value

  -- What each variable came to, where the constructor does not throw.
  pub record IsParsed (env : Environment) (c : WorkerConfig n) : Type 0 where
    pub poll_interval : parse env "OUTBOX_POLL_INTERVAL_MS" 1000 ≡ ok c.poll_interval_ms
    pub batch_size : parse env "OUTBOX_BATCH_SIZE" 50 ≡ ok c.batch_size
    pub max_attempts : parse env "OUTBOX_MAX_ATTEMPTS" 10 ≡ ok c.max_attempts
    pub retry_base_delay : parse env "OUTBOX_RETRY_BASE_DELAY_MS" 1000 ≡ ok c.retry_base_delay_ms
    pub retry_max_delay : parse env "OUTBOX_RETRY_MAX_DELAY_MS" 60000 ≡ ok c.retry_max_delay_ms
    pub grace : Number
    pub shutdown_grace : parse env "OUTBOX_SHUTDOWN_GRACE_MS" 30000 ≡ ok grace

  worker_config-IsParsed :
      (env : Environment) (c : WorkerConfig n) → worker_config n env ≡ ok c → IsParsed env c
  unfolding worker_config
  worker_config-IsParsed env c h =
      elim (Result-cases (parse env "OUTBOX_SHUTDOWN_GRACE_MS" 30000)) [
        | inl (x, e) ↦ absurd (ground (arith, h, e))
        | inr (g, e) ↦ record {
          poll_interval = ground (arith, h, e);
          batch_size = ground (arith, h, e);
          max_attempts = ground (arith, h, e);
          retry_base_delay = ground (arith, h, e);
          retry_max_delay = ground (arith, h, e);
          grace = g;
          shutdown_grace = e;
        }
      ]

  abbrev pub AreAdmitted : Environment → Type 0
  AreAdmitted env =
      IsAdmitted (env "OUTBOX_POLL_INTERVAL_MS")
      × IsAdmitted (env "OUTBOX_BATCH_SIZE")
      × IsAdmitted (env "OUTBOX_MAX_ATTEMPTS")
      × IsAdmitted (env "OUTBOX_RETRY_BASE_DELAY_MS")
      × IsAdmitted (env "OUTBOX_RETRY_MAX_DELAY_MS")
      × IsAdmitted (env "OUTBOX_SHUTDOWN_GRACE_MS")

  IsParsed-IsConfigured :
      (env : Environment) (c : WorkerConfig n) → IsParsed env c → IsConfigured env c
  IsParsed-IsConfigured env c p = record {
    poll_interval =
        parse-IsSetting (env "OUTBOX_POLL_INTERVAL_MS") "OUTBOX_POLL_INTERVAL_MS" 1000
          c.poll_interval_ms p.poll_interval;
    batch_size =
        parse-IsSetting (env "OUTBOX_BATCH_SIZE") "OUTBOX_BATCH_SIZE" 50 c.batch_size p.batch_size;
    max_attempts =
        parse-IsSetting (env "OUTBOX_MAX_ATTEMPTS") "OUTBOX_MAX_ATTEMPTS" 10 c.max_attempts
          p.max_attempts;
    retry_base_delay =
        parse-IsSetting (env "OUTBOX_RETRY_BASE_DELAY_MS") "OUTBOX_RETRY_BASE_DELAY_MS" 1000
          c.retry_base_delay_ms p.retry_base_delay;
    retry_max_delay =
        parse-IsSetting (env "OUTBOX_RETRY_MAX_DELAY_MS") "OUTBOX_RETRY_MAX_DELAY_MS" 60000
          c.retry_max_delay_ms p.retry_max_delay;
  }

  IsParsed-AreAdmitted : (env : Environment) (c : WorkerConfig n) → IsParsed env c → AreAdmitted env
  IsParsed-AreAdmitted env c p =
      let v : IsConfigured env c = IsParsed-IsConfigured env c p in
      (
        IsSetting-IsAdmitted (env "OUTBOX_POLL_INTERVAL_MS") 1000 c.poll_interval_ms
            v.poll_interval,
        IsSetting-IsAdmitted (env "OUTBOX_BATCH_SIZE") 50 c.batch_size v.batch_size,
        IsSetting-IsAdmitted (env "OUTBOX_MAX_ATTEMPTS") 10 c.max_attempts v.max_attempts,
        IsSetting-IsAdmitted (env "OUTBOX_RETRY_BASE_DELAY_MS") 1000 c.retry_base_delay_ms
            v.retry_base_delay,
        IsSetting-IsAdmitted (env "OUTBOX_RETRY_MAX_DELAY_MS") 60000 c.retry_max_delay_ms
            v.retry_max_delay,
        IsSetting-IsAdmitted (env "OUTBOX_SHUTDOWN_GRACE_MS") 30000 p.grace (
            parse-IsSetting (env "OUTBOX_SHUTDOWN_GRACE_MS") "OUTBOX_SHUTDOWN_GRACE_MS" 30000
              p.grace p.shutdown_grace),
      )

  AreAdmitted-ok :
      (env : Environment) → AreAdmitted env → (c : WorkerConfig n) × (worker_config n env ≡ ok c)
  unfolding worker_config
  AreAdmitted-ok env h =
      let (a, ea) =
        IsAdmitted-parse (env "OUTBOX_POLL_INTERVAL_MS") "OUTBOX_POLL_INTERVAL_MS" 1000 h.0 in
      let (b, eb) = IsAdmitted-parse (env "OUTBOX_BATCH_SIZE") "OUTBOX_BATCH_SIZE" 50 h.1 in
      let (d, ed) = IsAdmitted-parse (env "OUTBOX_MAX_ATTEMPTS") "OUTBOX_MAX_ATTEMPTS" 10 h.2 in
      let (e, ee) =
        IsAdmitted-parse (env "OUTBOX_RETRY_BASE_DELAY_MS") "OUTBOX_RETRY_BASE_DELAY_MS" 1000 h.3 in
      let (f, ef) =
        IsAdmitted-parse (env "OUTBOX_RETRY_MAX_DELAY_MS") "OUTBOX_RETRY_MAX_DELAY_MS" 60000 h.4 in
      let (g, eg) =
        IsAdmitted-parse (env "OUTBOX_SHUTDOWN_GRACE_MS") "OUTBOX_SHUTDOWN_GRACE_MS" 30000 h.5 in
      (
        record {
          poll_interval_ms = a;
          batch_size = b;
          max_attempts = d;
          retry_base_delay_ms = e;
          retry_max_delay_ms = f;
        },
        ground (arith, ea, eb, ed, ee, ef, eg),
      )

  -- The outbox worker is constructed exactly if each of its six variables is unset or shows a
  -- positive finite integer, and each of its settings is then what its variable shows or, if that
  -- is unset, its default.
  pub worker_config-IsConfigured :
      (env : Environment)
      → AreAdmitted env ↔ ((c : WorkerConfig n) × (worker_config n env ≡ ok c) × IsConfigured env c)
  worker_config-IsConfigured env = (
    (λ h.
        let (c, e) = AreAdmitted-ok env h in
        (c, e, IsParsed-IsConfigured env c (worker_config-IsParsed env c e))),
    (λ x. IsParsed-AreAdmitted env x.0 (worker_config-IsParsed env x.0 x.1)),
  )
