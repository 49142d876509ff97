-- ===== src/Log/Valid.antt =====
-- The registry's invariant: the cached level is the level of the default logger, and no two owners
-- share a logger.
use livio_ark.Prelude.{
  ℕ, ◌<◌, ◌≡◌, ◌≢◌, refl, sym, ◌∙◌, inl, inr, Option-cases, Bool, none, some, Bytes, Bytes-discrete,
  find, find-emplace, emplace, arith,
}
use mathlib.Core.Path.{subst}
use livio_ark.Log.Spdlog.{Spdlog, Laws}
use livio_ark.Log.Options.{number, LogOptions, to_spdlog_level}
use livio_ark.Log.Loggers.{
  Registry, new_registry, on_logger, new_logger, make_logger, ensure_default, ensure_module,
}

module _ {Logger : Type 0} (spd : Spdlog Logger) (ndebug : Bool) where
  pub record IsValid (r : Registry Logger) : Type 0 where
    pub cached_level : r.default_level ≡ number r.options.level
    pub default_made : (id : ℕ) → r.default_logger ≡ some id → id < r.made
    pub default_at :
        (id : ℕ)
        → r.default_logger ≡ some id
        → spd.level (r.loggers id) ≡ to_spdlog_level r.options.level
    pub cached : (id : ℕ) → r.default_cache ≡ some id → r.default_logger ≡ some id
    pub module_made :
        (name : Bytes) (id : ℕ) → find Bytes-discrete name r.modules ≡ some id → id < r.made
    pub module_apart :
        (name : Bytes) (id : ℕ)
        → find Bytes-discrete name r.modules ≡ some id
        → r.default_logger ≢ some id
    pub modules_apart :
        (a b : Bytes) (id : ℕ)
        → find Bytes-discrete a r.modules ≡ some id
        → find Bytes-discrete b r.modules ≡ some id
        → a ≡ b

  pub new-IsValid : IsValid (new_registry spd ndebug)
  new-IsValid = record {
    cached_level = refl;
    default_made = λ id e. cc;
    default_at = λ id e. cc;
    cached = λ id e. cc;
    module_made = λ name id e. cc;
    module_apart = λ name id e. cc;
    modules_apart = λ a b id e. cc;
  }

  -- The registry with a default logger made, and with a module's.
  abbrev pub with_default : Registry Logger → Registry Logger
  with_default r = record ((make_logger spd ndebug r.options.logger_name r.options r).0) {
    default_logger = some r.made;
  }

  pub ensure_default-missing :
      (r : Registry Logger)
      → r.default_logger ≡ none
      → ensure_default spd ndebug r ≡ (with_default r, r.made)
  unfolding ensure_default
  ensure_default-missing r e = ground arith

  pub ensure_default-there :
      (r : Registry Logger) (id : ℕ)
      → r.default_logger ≡ some id
      → ensure_default spd ndebug r ≡ (r, id)
  unfolding ensure_default
  ensure_default-there r id e = ground arith

  abbrev pub with_module : Bytes → Registry Logger → Registry Logger
  with_module name r =
      let r' = (make_logger spd ndebug name (record r.options { logger_name = name }) r).0 in
      record r' { modules = emplace Bytes-discrete name r.made r.modules }

  pub ensure_module-missing :
      (name : Bytes) (r : Registry Logger)
      → find Bytes-discrete name r.modules ≡ none
      → ensure_module spd ndebug name r ≡ (with_module name r, r.made)
  unfolding ensure_module
  ensure_module-missing name r e = ground arith

  pub ensure_module-there :
      (name : Bytes) (r : Registry Logger) (id : ℕ)
      → find Bytes-discrete name r.modules ≡ some id
      → ensure_module spd ndebug name r ≡ (r, id)
  unfolding ensure_module
  ensure_module-there name r id e = ground arith

  module _ (laws : Laws spd) where
    pub level-new_logger :
        (name : Bytes) (options : LogOptions)
        → spd.level (new_logger spd ndebug name options) ≡ to_spdlog_level options.level
    unfolding new_logger
    level-new_logger name options =
        laws.level-flush_on _ _ ∙ laws.level-set_pattern _ _ ∙ laws.level-set_level _ _

    -- Any method of a logger that is not the default one keeps the invariant.
    pub on_logger-apart :
        (id : ℕ) (f : Logger → Logger) (r : Registry Logger)
        → r.default_logger ≢ some id
        → IsValid r
        → IsValid (on_logger spd ndebug id f r)
    on_logger-apart id f r apart v = record {
      cached_level = v.cached_level;
      default_made = v.default_made;
      default_at = λ k e. ground (arith, v.default_at k);
      cached = v.cached;
      module_made = v.module_made;
      module_apart = v.module_apart;
      modules_apart = v.modules_apart;
    }

    -- A method that keeps the level of a logger keeps the invariant.
    pub on_logger-IsValid :
        (id : ℕ) (f : Logger → Logger) (r : Registry Logger)
        → spd.level (f (r.loggers id)) ≡ spd.level (r.loggers id)
        → IsValid r
        → IsValid (on_logger spd ndebug id f r)
    on_logger-IsValid id f r same v = record {
      cached_level = v.cached_level;
      default_made = v.default_made;
      default_at = λ k e. ground (arith, v.default_at k);
      cached = v.cached;
      module_made = v.module_made;
      module_apart = v.module_apart;
      modules_apart = v.modules_apart;
    }

    with_default-IsValid :
        (r : Registry Logger) → r.default_logger ≡ none → IsValid r → IsValid (with_default r)
    with_default-IsValid r missing v = record {
      cached_level = v.cached_level;
      default_made = λ k e. ground arith;
      default_at = λ k e. ground (arith, level-new_logger r.options.logger_name r.options);
      cached = λ k e. ground (arith, v.cached k);
      module_made = λ name k e. ground (arith, v.module_made name k);
      module_apart = λ name k e. ground (arith, v.module_made name k);
      modules_apart = v.modules_apart;
    }

    pub ensure_default-IsValid :
        (r : Registry Logger) → IsValid r → IsValid (ensure_default spd ndebug r).0
    ensure_default-IsValid r v = elim (Option-cases r.default_logger) [
      | inl missing ↦
          subst (λ x. IsValid x.0) (sym (ensure_default-missing r missing))
            (with_default-IsValid r missing v)
      | inr (id, there) ↦ subst (λ x. IsValid x.0) (sym (ensure_default-there r id there)) v
    ]

    with_module-IsValid :
        (name : Bytes) (r : Registry Logger)
        → find Bytes-discrete name r.modules ≡ none
        → IsValid r
        → IsValid (with_module name r)
    with_module-IsValid name r missing v = record {
      cached_level = v.cached_level;
      default_made = λ k e. ground (arith, v.default_made k);
      default_at = λ k e. ground (arith, v.default_made k, v.default_at k);
      cached = v.cached;
      module_made = λ other k e.
          ground
            (arith, find-emplace Bytes-discrete name other r.made r.modules, v.module_made other k);
      module_apart = λ other k e p. ground (
        arith,
        find-emplace Bytes-discrete name other r.made r.modules,
        v.default_made k,
        v.module_apart other k,
      );
      modules_apart = λ a b k e f. ground (
        arith,
        find-emplace Bytes-discrete name a r.made r.modules,
        find-emplace Bytes-discrete name b r.made r.modules,
        v.module_made a k,
        v.module_made b k,
        v.modules_apart a b k,
      );
    }

    pub ensure_module-IsValid :
        (name : Bytes) (r : Registry Logger)
        → IsValid r
        → IsValid (ensure_module spd ndebug name r).0
    ensure_module-IsValid name r v = elim (Option-cases (find Bytes-discrete name r.modules)) [
      | inl missing ↦
          subst (λ x. IsValid x.0) (sym (ensure_module-missing name r missing))
            (with_module-IsValid name r missing v)
      | inr (id, there) ↦ subst (λ x. IsValid x.0) (sym (ensure_module-there name r id there)) v
    ]
