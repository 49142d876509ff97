-- ===== src/Log/Views.antt =====
-- What a client of the log module can observe of the default logger and of a module's, and how the
-- methods of one logger show in the views of the others.
use livio_ark.Prelude.{
  ℕ, ◌≡◌, ap, ◌∙◌, inl, inr, Option-cases, Bool, List, [], none, some, Bytes, Bytes-discrete, find,
  find-emplace, arith,
}
use livio_ark.Log.Spdlog.{Spdlog, Line}
use livio_ark.Log.Options.{number}
use livio_ark.Log.Loggers.{Registry, on_logger, new_logger, ensure_default, ensure_module}
use livio_ark.Log.Valid.{
  IsValid, ensure_default-missing, ensure_default-there, ensure_module-missing, ensure_module-there,
}

module _ {Logger : Type 0} (spd : Spdlog Logger) (ndebug : Bool) where
  -- `o` of a logger, and `d` where there is none yet.
  abbrev pub default_view : {X : Type 0} → (Logger → X) → X → Registry Logger → X
  default_view o d r = elim r.default_logger [ none ↦ d | some id ↦ o (r.loggers id) ]

  abbrev pub module_view : {X : Type 0} → (Logger → X) → X → Bytes → Registry Logger → X
  module_view o d name r = elim (find Bytes-discrete name r.modules) [
    | none ↦ d
    | some id ↦ o (r.loggers id)
  ]

  abbrev pub choose : {X : Type 0} → Bytes → Bytes → X → X → X
  choose a b x y = elim (Bytes-discrete a b) [ yes _ ↦ x | no _ ↦ y ]

  -- The lines that the default logger has written, and a module's.
  abbrev pub default_lines : Registry Logger → List Line
  default_lines = default_view spd.written []

  abbrev pub module_lines : Bytes → Registry Logger → List Line
  module_lines = module_view spd.written []

  -- The least level that a module logs, which is the default's until the module has a logger.
  abbrev pub threshold : Bytes → Registry Logger → ℕ
  threshold name r = module_view (λ x. spd.value (spd.level x)) (number r.options.level) name r

  module _ {X : Type 0} (o : Logger → X) (d : X) where
    pub module_view-there :
        (name : Bytes) (id : ℕ) (r : Registry Logger)
        → find Bytes-discrete name r.modules ≡ some id
        → module_view o d name r ≡ o (r.loggers id)
    module_view-there name id r e = ap (λ m. elim m [ none ↦ d | some k ↦ o (r.loggers k) ]) e

    pub module_view-ensure_module :
        (name other : Bytes) (r : Registry Logger)
        → o (new_logger spd ndebug name (record r.options { logger_name = name })) ≡ d
        → IsValid spd ndebug r
        → module_view o d other (ensure_module spd ndebug name r).0 ≡ module_view o d other r
    module_view-ensure_module name other r new v =
        elim (Option-cases (find Bytes-discrete name r.modules)) [
          | inl missing ↦
              ap (λ x. module_view o d other x.0) (ensure_module-missing spd ndebug name r missing)
              ∙ grind (
                arith,
                find-emplace Bytes-discrete name other r.made r.modules,
                v.module_made other,
              )
          | inr (id, there) ↦
              ap (λ x. module_view o d other x.0) (ensure_module-there spd ndebug name r id there)
        ]

    pub default_view-ensure_module :
        (name : Bytes) (r : Registry Logger)
        → IsValid spd ndebug r
        → default_view o d (ensure_module spd ndebug name r).0 ≡ default_view o d r
    default_view-ensure_module name r v = elim (Option-cases (find Bytes-discrete name r.modules)) [
      | inl missing ↦
          ap (λ x. default_view o d x.0) (ensure_module-missing spd ndebug name r missing)
          ∙ grind (arith, v.default_made)
      | inr (id, there) ↦
          ap (λ x. default_view o d x.0) (ensure_module-there spd ndebug name r id there)
    ]

    pub default_view-ensure_default :
        (r : Registry Logger)
        → o (new_logger spd ndebug r.options.logger_name r.options) ≡ d
        → default_view o d (ensure_default spd ndebug r).0 ≡ default_view o d r
    default_view-ensure_default r new = elim (Option-cases r.default_logger) [
      | inl missing ↦
          ap (λ x. default_view o d x.0) (ensure_default-missing spd ndebug r missing)
          ∙ ground arith
      | inr (id, there) ↦
          ap (λ x. default_view o d x.0) (ensure_default-there spd ndebug r id there)
    ]

    pub module_view-ensure_default :
        (name : Bytes) (r : Registry Logger)
        → IsValid spd ndebug r
        → module_view o d name (ensure_default spd ndebug r).0 ≡ module_view o d name r
    module_view-ensure_default name r v = elim (Option-cases r.default_logger) [
      | inl missing ↦
          ap (λ x. module_view o d name x.0) (ensure_default-missing spd ndebug r missing)
          ∙ grind (arith, v.module_made name)
      | inr (id, there) ↦
          ap (λ x. module_view o d name x.0) (ensure_default-there spd ndebug r id there)
    ]

    pub module_view-on_module :
        (name other : Bytes) (id : ℕ) (f : Logger → Logger) (r : Registry Logger)
        → find Bytes-discrete name r.modules ≡ some id
        → IsValid spd ndebug r
        → module_view o d other (on_logger spd ndebug id f r)
          ≡ choose name other (o (f (r.loggers id))) (module_view o d other r)
    module_view-on_module name other id f r e v = ground (arith, v.modules_apart name other id e)

    pub default_view-on_module :
        (name : Bytes) (id : ℕ) (f : Logger → Logger) (r : Registry Logger)
        → find Bytes-discrete name r.modules ≡ some id
        → IsValid spd ndebug r
        → default_view o d (on_logger spd ndebug id f r) ≡ default_view o d r
    default_view-on_module name id f r e v = ground (arith, v.module_apart name id e)

    pub module_view-on_default :
        (name : Bytes) (id : ℕ) (f : Logger → Logger) (r : Registry Logger)
        → r.default_logger ≡ some id
        → IsValid spd ndebug r
        → module_view o d name (on_logger spd ndebug id f r) ≡ module_view o d name r
    module_view-on_default name id f r e v = ground (arith, v.module_apart name id)

    pub default_view-on_default :
        (id : ℕ) (f : Logger → Logger) (r : Registry Logger)
        → r.default_logger ≡ some id
        → default_view o d (on_logger spd ndebug id f r) ≡ o (f (r.loggers id))
    default_view-on_default id f r e = ground arith
