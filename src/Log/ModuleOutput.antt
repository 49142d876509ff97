-- ===== src/Log/ModuleOutput.antt =====
-- Which lines reach the logger of a module.
use livio_ark.Prelude.{
  ℕ, ◌≡◌, refl, sym, ap, ◌∙◌, inl, inr, Option-cases, Bool-cases, Bool, [], ◌∷◌, ◌++◌, some, Bytes,
  Bytes-discrete, if◌then◌else◌, find, leb,
}
use livio_ark.Log.Spdlog.{SourceLoc, Spdlog, Laws}
use livio_ark.Log.Options.{Level, number, LogOptions, to_spdlog_level}
use livio_ark.Log.Loggers.{Registry, on_logger, ensure_module, should_log_module, detail_log_module}
use livio_ark.Log.Macros.{log_module_at}
use livio_ark.Log.Valid.{
  IsValid, ensure_module-missing, ensure_module-there, level-new_logger, ensure_module-IsValid,
}
use livio_ark.Log.Operations.{ensure_module-found}
use livio_ark.Log.Views.{
  module_view, choose, threshold, default_lines, module_lines, module_view-there,
  module_view-ensure_module, default_view-ensure_module, module_view-on_module,
  default_view-on_module,
}
use livio_ark.Log.Output.{written-new_logger, value-to_spdlog_level}

module _ {Logger : Type 0} (spd : Spdlog Logger) (ndebug : Bool) (laws : Laws spd) where
  options-ensure_module :
      (name : Bytes) (r : Registry Logger) → (ensure_module spd ndebug name r).0.options ≡ r.options
  options-ensure_module name r = elim (Option-cases (find Bytes-discrete name r.modules)) [
    | inl missing ↦ ap (λ x. x.0.options) (ensure_module-missing spd ndebug name r missing)
    | inr (id, there) ↦ ap (λ x. x.0.options) (ensure_module-there spd ndebug name r id there)
  ]

  -- The state that `ensure_module` leaves.
  pub record IsReady (name : Bytes) (r r' : Registry Logger) (id : ℕ) : Type 0 where
    pub valid : IsValid spd ndebug r'
    pub there : find Bytes-discrete name r'.modules ≡ some id
    pub same_lines :
        (other : Bytes) → module_lines spd ndebug other r' ≡ module_lines spd ndebug other r
    pub same_threshold :
        (other : Bytes) → threshold spd ndebug other r' ≡ threshold spd ndebug other r
    pub same_default : default_lines spd ndebug r' ≡ default_lines spd ndebug r

  pub ensure_module-IsReady :
      (name : Bytes) (r : Registry Logger)
      → IsValid spd ndebug r
      → IsReady name r (ensure_module spd ndebug name r).0 (ensure_module spd ndebug name r).1
  ensure_module-IsReady name r v = record {
    valid = ensure_module-IsValid spd ndebug laws name r v;
    there = ensure_module-found spd ndebug laws name r;
    same_lines = λ other.
        module_view-ensure_module spd ndebug spd.written [] name other r
          (written-new_logger spd ndebug laws _ _) v;
    same_threshold = λ other.
        ap
          (λ (o : LogOptions).
            module_view spd ndebug (λ x. spd.value (spd.level x)) (number o.level) other
              (ensure_module spd ndebug name r).0)
          (options-ensure_module name r)
        ∙ module_view-ensure_module spd ndebug (λ x. spd.value (spd.level x))
            (number r.options.level) name other r
            (ap spd.value (level-new_logger spd ndebug laws _ _)
              ∙ value-to_spdlog_level spd ndebug laws r.options.level)
            v;
    same_default = default_view-ensure_module spd ndebug spd.written [] name r v;
  }

  pub level-ready :
      (name : Bytes) (r r' : Registry Logger) (id : ℕ)
      → IsReady name r r' id
      → spd.value (spd.level (r'.loggers id)) ≡ threshold spd ndebug name r
  level-ready name r r' id q =
      sym (module_view-there spd ndebug (λ x. spd.value (spd.level x)) _ name id r' q.there)
      ∙ q.same_threshold name

  written-ready :
      (name : Bytes) (r r' : Registry Logger) (id : ℕ)
      → IsReady name r r' id
      → spd.written (r'.loggers id) ≡ module_lines spd ndebug name r
  written-ready name r r' id q =
      sym (module_view-there spd ndebug spd.written [] name id r' q.there) ∙ q.same_lines name

  -- `log_module_at` in terms of the state that `ensure_module` leaves.
  log_module_at-ensured :
      (name : Bytes) (level : Level) (at : SourceLoc) (msg : Bytes) (r : Registry Logger)
      → log_module_at spd ndebug name level at msg r ≡ (
          let (r', id) = ensure_module spd ndebug name r in
          if spd.should_log (to_spdlog_level level) (r'.loggers id)
          then on_logger spd ndebug id (spd.log at (to_spdlog_level level) msg) r'
          else r')
  unfolding log_module_at detail_log_module should_log_module
  log_module_at-ensured name level at msg r =
      rw
        (ensure_module-there spd ndebug name (ensure_module spd ndebug name r).0 _
          (ensure_module-found spd ndebug laws name r))
        refl

  -- log_module_at, with loggers that behave as spdlog documents and a valid registry, adds its line
  -- to what the named module's logger has written exactly when its level is at least the least
  -- level of that module, which is that of the options for a module with no logger yet; the lines
  -- of every other module and of the default logger stay as they were.
  pub log_module_at-lines :
      (name other : Bytes) (level : Level) (at : SourceLoc) (msg : Bytes) (r : Registry Logger)
      → IsValid spd ndebug r
      → (module_lines spd ndebug other (log_module_at spd ndebug name level at msg r) ≡ (
          if leb (threshold spd ndebug name r) (number level)
          then choose spd ndebug name other
              (module_lines spd ndebug name r ++ (at, to_spdlog_level level, msg) ∷ [])
              (module_lines spd ndebug other r)
          else module_lines spd ndebug other r))
        × (default_lines spd ndebug (log_module_at spd ndebug name level at msg r)
            ≡ default_lines spd ndebug r)
  log_module_at-lines name other level at msg r v =
      let (r', id) = ensure_module spd ndebug name r in
      let q = ensure_module-IsReady name r v in
      let f = spd.log at (to_spdlog_level level) msg in
      let same_level = level-ready name r r' id q in
      let same_value = value-to_spdlog_level spd ndebug laws level in
      let same_test : spd.should_log (to_spdlog_level level) (r'.loggers id)
          ≡ leb (threshold spd ndebug name r) (number level) =
        laws.should_log_lem _ _ ∙ rw (same_level, same_value) refl in
      elim (Bool-cases (leb (threshold spd ndebug name r) (number level))) [
        | inl e ↦
            let logged : spd.written (f (r'.loggers id))
                ≡ module_lines spd ndebug name r ++ (at, to_spdlog_level level, msg) ∷ [] =
              laws.written-log at (to_spdlog_level level) msg (r'.loggers id)
              ∙ rw (same_level, same_value, e, written-ready name r r' id q) refl in
            rw (log_module_at-ensured name level at msg r, same_test ∙ e, e)
              (
                module_view-on_module spd ndebug spd.written [] name other id f r' q.there q.valid
                    ∙ ap (λ x. choose spd ndebug name other x (module_lines spd ndebug other r'))
                        logged
                    ∙ ap
                        (choose spd ndebug name other
                          (module_lines spd ndebug name r ++ (at, to_spdlog_level level, msg) ∷ []))
                        (q.same_lines other),
                default_view-on_module spd ndebug spd.written [] name id f r' q.there q.valid
                    ∙ q.same_default,
              )
        | inr e ↦
            rw (log_module_at-ensured name level at msg r, same_test ∙ e, e)
              (q.same_lines other, q.same_default)
      ]
