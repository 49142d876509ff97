-- ===== src/Log/ModuleLevels.antt =====
-- The levels of the loggers of modules.
use livio_ark.Prelude.{◌≡◌, refl, ap, ◌∙◌, Bool, Bytes, arith}
use livio_ark.Log.Spdlog.{Spdlog, Laws}
use livio_ark.Log.Options.{Level, number, level_of, to_spdlog_level}
use livio_ark.Log.Loggers.{Registry, ensure_module, set_module_level, get_module_level}
use livio_ark.Log.Valid.{IsValid}
use livio_ark.Log.Operations.{set_module_level-IsValid}
use livio_ark.Log.Views.{choose, threshold, module_view-on_module}
use livio_ark.Log.Output.{value-to_spdlog_level}
use livio_ark.Log.ModuleOutput.{ensure_module-IsReady, level-ready}

module _ {Logger : Type 0} (spd : Spdlog Logger) (ndebug : Bool) (laws : Laws spd) where
  abbrev pub module_level : Registry Logger → Bytes → Level
  module_level r name = (get_module_level spd ndebug name r).1

  level_of-number : (level : Level) → level_of (number level) ≡ level
  level_of-number Level.trace = refl
  level_of-number Level.debug = refl
  level_of-number Level.info = refl
  level_of-number Level.warn = refl
  level_of-number Level.error = refl
  level_of-number Level.critical = refl
  level_of-number Level.off = refl

  module_level-threshold :
      (name : Bytes) (r : Registry Logger)
      → IsValid spd ndebug r
      → module_level r name ≡ level_of (threshold spd ndebug name r)
  unfolding get_module_level
  module_level-threshold name r v =
      ap level_of
        (level-ready spd ndebug laws name r _ _ (ensure_module-IsReady spd ndebug laws name r v))

  threshold-set_module_level :
      (name other : Bytes) (level : Level) (r : Registry Logger)
      → IsValid spd ndebug r
      → threshold spd ndebug other (set_module_level spd ndebug name level r)
        ≡ choose spd ndebug name other (number level) (threshold spd ndebug other r)
  unfolding set_module_level
  threshold-set_module_level name other level r v =
      let (r', id) = ensure_module spd ndebug name r in
      let q = ensure_module-IsReady spd ndebug laws name r v in
      module_view-on_module spd ndebug (λ x. spd.value (spd.level x)) (number r'.options.level) name
        other id (spd.set_level (to_spdlog_level level)) r' q.there q.valid
      ∙ ap (λ x. choose spd ndebug name other x (threshold spd ndebug other r'))
          (ap spd.value (laws.level-set_level _ _) ∙ value-to_spdlog_level spd ndebug laws level)
      ∙ ap (choose spd ndebug name other (number level)) (q.same_threshold other)

  -- After set_level of a module in a valid registry, with loggers that behave as spdlog documents,
  -- get_level of that module is the level that was set, and get_level of any other module is what
  -- it was before.
  pub get_module_level-set_module_level :
      (name other : Bytes) (level : Level) (r : Registry Logger)
      → IsValid spd ndebug r
      → module_level (set_module_level spd ndebug name level r) other
        ≡ choose spd ndebug name other level (module_level r other)
  get_module_level-set_module_level name other level r v =
      module_level-threshold other _ (set_module_level-IsValid spd ndebug laws name level r v)
      ∙ ap level_of (threshold-set_module_level name other level r v)
      ∙ choose-level_of
    where
      choose-level_of :
          level_of (choose spd ndebug name other (number level) (threshold spd ndebug other r))
          ≡ choose spd ndebug name other level (module_level r other)
      choose-level_of = ground (arith, level_of-number level, module_level-threshold other r v)
