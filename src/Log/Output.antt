-- ===== src/Log/Output.antt =====
-- Which lines reach the default logger.
use livio_ark.Prelude.{
  ℕ, ◌≡◌, refl, sym, ap, ◌∙◌, inl, inr, Option-cases, Bool-cases, Bool, true, false, List, [], ◌∷◌,
  ◌++◌, some, Bytes, if◌then◌else◌, leb,
}
use mathlib.Core.Path.{subst}
use livio_ark.Log.Spdlog.{SourceLoc, Spdlog, Laws, Line}
use livio_ark.Log.Options.{Level, number, LogOptions, to_spdlog_level}
use livio_ark.Log.Loggers.{Registry, new_logger, ensure_default, cached_default, detail_log}
use livio_ark.Log.Macros.{log_at}
use livio_ark.Log.Valid.{IsValid, ensure_default-missing, ensure_default-there}
use livio_ark.Log.Operations.{
  ensure_default-found, cached_default-IsValid, cached_default-there, cached_default-missing,
}
use livio_ark.Log.Views.{
  default_lines, module_lines, default_view-ensure_default, module_view-ensure_default,
  module_view-on_default, default_view-on_default,
}

module _ {Logger : Type 0} (spd : Spdlog Logger) (ndebug : Bool) (laws : Laws spd) where
  pub written-new_logger :
      (name : Bytes) (options : LogOptions) → spd.written (new_logger spd ndebug name options) ≡ []
  unfolding new_logger
  written-new_logger name options =
      laws.written-flush_on _ _
      ∙ laws.written-set_pattern _ _
      ∙ laws.written-set_level _ _
      ∙ laws.written-make _ _

  pub value-to_spdlog_level : (level : Level) → spd.value (to_spdlog_level level) ≡ number level
  value-to_spdlog_level Level.trace = laws.value_trace
  value-to_spdlog_level Level.debug = laws.value_debug
  value-to_spdlog_level Level.info = laws.value_info
  value-to_spdlog_level Level.warn = laws.value_warn
  value-to_spdlog_level Level.error = laws.value_err
  value-to_spdlog_level Level.critical = laws.value_critical
  value-to_spdlog_level Level.off = laws.value_off

  default_view-there :
      (r : Registry Logger) (id : ℕ)
      → r.default_logger ≡ some id
      → default_lines spd ndebug r ≡ spd.written (r.loggers id)
  default_view-there r id e = rw e refl

  abbrev appended : Level → SourceLoc → Bytes → List Line → List Line
  appended level at msg lines = lines ++ (at, to_spdlog_level level, msg) ∷ []

  -- The state that `cached_default` leaves.
  options-ensure_default :
      (r : Registry Logger) → (ensure_default spd ndebug r).0.options ≡ r.options
  options-ensure_default r = elim (Option-cases r.default_logger) [
    | inl missing ↦ ap (λ x. x.0.options) (ensure_default-missing spd ndebug r missing)
    | inr (id, there) ↦ ap (λ x. x.0.options) (ensure_default-there spd ndebug r id there)
  ]

  record IsReady (r r' : Registry Logger) (id : ℕ) : Type 0 where
    valid : IsValid spd ndebug r'
    same_options : r'.options ≡ r.options
    there : r'.default_logger ≡ some id
    same_lines : default_lines spd ndebug r' ≡ default_lines spd ndebug r
    same_modules : (name : Bytes) → module_lines spd ndebug name r' ≡ module_lines spd ndebug name r

  cached_default-IsReady :
      (r : Registry Logger)
      → IsValid spd ndebug r
      → IsReady r (cached_default spd ndebug r).0 (cached_default spd ndebug r).1
  cached_default-IsReady r v = elim (Option-cases r.default_cache) [
    | inl missing ↦
        subst (λ x. IsReady r x.0 x.1) (sym (cached_default-missing spd ndebug laws r missing))
          (record {
            valid =
                subst (λ x. IsValid spd ndebug x.0)
                  (cached_default-missing spd ndebug laws r missing)
                  (cached_default-IsValid spd ndebug laws r v);
            same_options = options-ensure_default r;
            there = ensure_default-found spd ndebug laws r;
            same_lines =
                default_view-ensure_default spd ndebug spd.written [] r (written-new_logger _ _);
            same_modules = λ name. module_view-ensure_default spd ndebug spd.written [] name r v;
          })
    | inr (id, there) ↦
        subst (λ x. IsReady r x.0 x.1) (sym (cached_default-there spd ndebug laws r id there))
          (record {
            valid = v;
            same_options = refl;
            there = v.cached id there;
            same_lines = refl;
            same_modules = λ name. refl;
          })
  ]

  -- What the default logger has after `spd.log`, by its own level.
  written-ready :
      (r r' : Registry Logger) (id : ℕ) (level : Level) (at : SourceLoc) (msg : Bytes)
      → IsReady r r' id
      → spd.written (spd.log at (to_spdlog_level level) msg (r'.loggers id)) ≡ (
          if leb (number r.options.level) (number level)
          then appended level at msg (default_lines spd ndebug r)
          else default_lines spd ndebug r)
  written-ready r r' id level at msg q =
      let by_options =
        ap spd.value (q.valid.default_at id q.there)
        ∙ value-to_spdlog_level _
        ∙ ap (λ o. number o.level) q.same_options in
      let same : spd.written (r'.loggers id) ≡ default_lines spd ndebug r =
        sym (default_view-there r' id q.there) ∙ q.same_lines in
      laws.written-log at (to_spdlog_level level) msg (r'.loggers id)
      ∙ rw (by_options, value-to_spdlog_level level, same) refl

  log_at-accepted :
      (level : Level) (at : SourceLoc) (msg : Bytes) (r : Registry Logger)
      → leb r.default_level (number level) ≡ true
      → log_at spd ndebug level at msg r ≡ detail_log spd ndebug level msg at r
  unfolding log_at
  log_at-accepted level at msg r e = rw e refl

  log_at-refused :
      (level : Level) (at : SourceLoc) (msg : Bytes) (r : Registry Logger)
      → leb r.default_level (number level) ≡ false
      → log_at spd ndebug level at msg r ≡ r
  unfolding log_at
  log_at-refused level at msg r e = rw e refl

  detail_log-lines :
      (level : Level) (at : SourceLoc) (msg : Bytes) (r : Registry Logger)
      → IsValid spd ndebug r
      → (default_lines spd ndebug (detail_log spd ndebug level msg at r) ≡ (
          if leb (number r.options.level) (number level)
          then appended level at msg (default_lines spd ndebug r)
          else default_lines spd ndebug r))
        × ((name : Bytes)
            → module_lines spd ndebug name (detail_log spd ndebug level msg at r)
              ≡ module_lines spd ndebug name r)
  unfolding detail_log
  detail_log-lines level at msg r v =
      let q = cached_default-IsReady r v in
      let (r', id) = cached_default spd ndebug r in
      let f = spd.log at (to_spdlog_level level) msg in
      (
        default_view-on_default spd ndebug spd.written [] id f r' q.there
            ∙ written-ready r r' id level at msg q,
        λ name.
            module_view-on_default spd ndebug spd.written [] name id f r' q.there q.valid
            ∙ q.same_modules name,
      )

  -- log_at, with loggers that behave as spdlog documents and a registry in which the cached level
  -- is the default logger's and no logger has two owners, adds its line to what the default logger
  -- has written exactly when its level is at least the level of the options, and then with its
  -- place and text, making the logger first where there is none; the lines of the modules' loggers
  -- stay as they were.
  pub log_at-lines :
      (level : Level) (at : SourceLoc) (msg : Bytes) (r : Registry Logger)
      → IsValid spd ndebug r
      → (default_lines spd ndebug (log_at spd ndebug level at msg r) ≡ (
          if leb (number r.options.level) (number level)
          then default_lines spd ndebug r ++ (at, to_spdlog_level level, msg) ∷ []
          else default_lines spd ndebug r))
        × ((name : Bytes)
            → module_lines spd ndebug name (log_at spd ndebug level at msg r)
              ≡ module_lines spd ndebug name r)
  log_at-lines level at msg r v = elim (Bool-cases (leb r.default_level (number level))) [
    | inl e ↦ rw (log_at-accepted level at msg r e) (detail_log-lines level at msg r v)
    | inr e ↦
        let e' : leb (number r.options.level) (number level) ≡ false = rw (← v.cached_level) e in
        rw (log_at-refused level at msg r e, e') (refl, λ name. refl)
  ]
