-- ===== src/Log/Operations.antt =====
-- Every function of the log module keeps the registry's invariant.
use livio_ark.Prelude.{
  ℕ, ◌≡◌, refl, sym, ◌∙◌, inl, inr, Option-cases, Bool, List, [], ◌∷◌, none, some, Bytes,
  Bytes-discrete, find, find-emplace, pick-same, arith,
}
use mathlib.Core.Path.{subst}
use livio_ark.Log.Spdlog.{Spdlog, Laws}
use livio_ark.Log.Options.{Level, number, LogOptions, to_spdlog_level}
use livio_ark.Log.Loggers.{
  Registry, on_logger, ensure_default, ensure_module, init, set_level, set_module_level,
  flush_modules, flush, cached_default,
}
use livio_ark.Log.Valid.{
  IsValid, with_default, ensure_default-missing, ensure_default-there, ensure_module-missing,
  ensure_module-there, level-new_logger, on_logger-apart, on_logger-IsValid, ensure_default-IsValid,
  ensure_module-IsValid,
}

module _ {Logger : Type 0} (spd : Spdlog Logger) (ndebug : Bool) (laws : Laws spd) where
  -- The logger that a lookup returns is the one that the registry has.
  pub ensure_default-found :
      (r : Registry Logger)
      → (ensure_default spd ndebug r).0.default_logger ≡ some (ensure_default spd ndebug r).1
  ensure_default-found r = elim (Option-cases r.default_logger) [
    | inl missing ↦ rw (ensure_default-missing spd ndebug r missing)
    | inr (id, there) ↦ rw (ensure_default-there spd ndebug r id there) there
  ]

  pub ensure_module-found :
      (name : Bytes) (r : Registry Logger)
      → find Bytes-discrete name (ensure_module spd ndebug name r).0.modules
        ≡ some (ensure_module spd ndebug name r).1
  ensure_module-found name r = elim (Option-cases (find Bytes-discrete name r.modules)) [
    | inl missing ↦ rw (ensure_module-missing spd ndebug name r missing) (
        find-emplace Bytes-discrete name name r.made r.modules missing
        ∙ pick-same Bytes-discrete name _ _)
    | inr (id, there) ↦ rw (ensure_module-there spd ndebug name r id there) there
  ]

  pub init-IsValid :
      (options : LogOptions) (r : Registry Logger)
      → IsValid spd ndebug r
      → IsValid spd ndebug (init spd ndebug options r)
  unfolding init
  init-IsValid options r v = record {
    cached_level = refl;
    default_made = λ k e. ground arith;
    default_at =
        λ k e. ground (arith, level-new_logger spd ndebug laws options.logger_name options);
    cached = λ k e. e;
    module_made = λ name k e. ground (arith, v.module_made name k);
    module_apart = λ name k e p. ground (arith, v.module_made name k);
    modules_apart = v.modules_apart;
  }

  -- The registry in the middle of `set_level`.
  abbrev relevelled : Level → Registry Logger → Registry Logger
  relevelled level r = record r {
    options = record r.options { level = level };
    default_level = number level;
  }

  levelled-IsValid :
      (level : Level) (id : ℕ) (r : Registry Logger)
      → r.default_logger ≡ some id
      → IsValid spd ndebug r
      → IsValid spd ndebug
          (on_logger spd ndebug id (spd.set_level (to_spdlog_level level)) (relevelled level r))
  levelled-IsValid level id r there v = record {
    cached_level = refl;
    default_made = v.default_made;
    default_at = λ k e. ground (arith, laws.level-set_level (to_spdlog_level level) (r.loggers id));
    cached = v.cached;
    module_made = v.module_made;
    module_apart = v.module_apart;
    modules_apart = v.modules_apart;
  }

  made-IsValid :
      (level : Level) (r : Registry Logger)
      → r.default_logger ≡ none
      → IsValid spd ndebug r
      → IsValid spd ndebug (with_default spd ndebug (relevelled level r))
  made-IsValid level r missing v = record {
    cached_level = refl;
    default_made = λ k e. ground arith;
    default_at = λ k e. ground (
      arith,
      level-new_logger spd ndebug laws r.options.logger_name (relevelled level r).options,
    );
    cached = λ k e. ground (arith, v.cached k);
    module_made = λ name k e. ground (arith, v.module_made name k);
    module_apart = λ name k e p. ground (arith, v.module_made name k);
    modules_apart = v.modules_apart;
  }

  pub set_level-IsValid :
      (level : Level) (r : Registry Logger)
      → IsValid spd ndebug r
      → IsValid spd ndebug (set_level spd ndebug level r)
  unfolding set_level
  set_level-IsValid level r v =
      let f = spd.set_level (to_spdlog_level level) in
      elim (Option-cases r.default_logger) [
        | inl missing ↦
            subst (λ x. IsValid spd ndebug (on_logger spd ndebug x.1 f x.0))
              (sym (ensure_default-missing spd ndebug (relevelled level r) missing))
              (levelled-IsValid level r.made _ refl (made-IsValid level r missing v))
        | inr (id, there) ↦
            subst (λ x. IsValid spd ndebug (on_logger spd ndebug x.1 f x.0))
              (sym (ensure_default-there spd ndebug (relevelled level r) id there))
              (levelled-IsValid level id r there v)
      ]

  pub set_module_level-IsValid :
      (name : Bytes) (level : Level) (r : Registry Logger)
      → IsValid spd ndebug r
      → IsValid spd ndebug (set_module_level spd ndebug name level r)
  unfolding set_module_level
  set_module_level-IsValid name level r v =
      let after = ensure_module-IsValid spd ndebug laws name r v in
      on_logger-apart spd ndebug laws _ (spd.set_level (to_spdlog_level level)) _
        (after.module_apart name _ (ensure_module-found name r)) after

  flush_modules-IsValid :
      (ms : List (Bytes × ℕ)) (r : Registry Logger)
      → IsValid spd ndebug r
      → IsValid spd ndebug (flush_modules spd ndebug ms r)
  unfolding flush_modules
  flush_modules-IsValid [] r v = v
  flush_modules-IsValid ((name, id) ∷ ms) r v =
      flush_modules-IsValid ms _
        (on_logger-IsValid spd ndebug laws id spd.flush r (laws.level-flush _) v)

  flush-missing :
      (r : Registry Logger)
      → r.default_logger ≡ none
      → flush spd ndebug r ≡ flush_modules spd ndebug r.modules r
  unfolding flush
  flush-missing r e = ground arith

  flush-there :
      (r : Registry Logger) (id : ℕ)
      → r.default_logger ≡ some id
      → flush spd ndebug r
        ≡ flush_modules spd ndebug r.modules (on_logger spd ndebug id spd.flush r)
  unfolding flush
  flush-there r id e = ground arith

  pub flush-IsValid :
      (r : Registry Logger) → IsValid spd ndebug r → IsValid spd ndebug (flush spd ndebug r)
  flush-IsValid r v = elim (Option-cases r.default_logger) [
    | inl missing ↦
        subst (IsValid spd ndebug) (sym (flush-missing r missing))
          (flush_modules-IsValid r.modules r v)
    | inr (id, there) ↦ subst (IsValid spd ndebug) (sym (flush-there r id there)) (
        flush_modules-IsValid r.modules _
          (on_logger-IsValid spd ndebug laws id spd.flush r (laws.level-flush _) v))
  ]

  pub cached_default-missing :
      (r : Registry Logger)
      → r.default_cache ≡ none
      → cached_default spd ndebug r ≡ (
        record ((ensure_default spd ndebug r).0) {
          default_cache = some (ensure_default spd ndebug r).1;
        },
        (ensure_default spd ndebug r).1,
      )
  unfolding cached_default
  cached_default-missing r e = ground arith

  pub cached_default-there :
      (r : Registry Logger) (id : ℕ)
      → r.default_cache ≡ some id
      → cached_default spd ndebug r ≡ (r, id)
  unfolding cached_default
  cached_default-there r id e = ground arith

  recached-IsValid :
      (id : ℕ) (r : Registry Logger)
      → r.default_logger ≡ some id
      → IsValid spd ndebug r
      → IsValid spd ndebug (record r { default_cache = some id })
  recached-IsValid id r there v = record {
    cached_level = v.cached_level;
    default_made = v.default_made;
    default_at = v.default_at;
    cached = λ k e. ground arith;
    module_made = v.module_made;
    module_apart = v.module_apart;
    modules_apart = v.modules_apart;
  }

  pub cached_default-IsValid :
      (r : Registry Logger)
      → IsValid spd ndebug r
      → IsValid spd ndebug (cached_default spd ndebug r).0
  cached_default-IsValid r v = elim (Option-cases r.default_cache) [
    | inl missing ↦
        subst (λ x. IsValid spd ndebug x.0) (sym (cached_default-missing r missing))
          (recached-IsValid _ _ (ensure_default-found r)
            (ensure_default-IsValid spd ndebug laws r v))
    | inr (id, there) ↦
        subst (λ x. IsValid spd ndebug x.0) (sym (cached_default-there r id there)) v
  ]
