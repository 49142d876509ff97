-- ===== src/Log/Loggers.antt =====
-- The registry of loggers of src/log/log.cpp and the functions on it, each of which holds its mutex
-- but for reads of the cached level and the cached default logger.
use livio_ark.Prelude.{
  ℕ, ◌+◌, Bool, List, [], ◌∷◌, Option, none, some, Bytes, Bytes-discrete, leb, find, emplace,
  update,
}
use livio_ark.Log.Spdlog.{SourceLoc, Spdlog}
use livio_ark.Log.Options.{
  Level, number, level_of, LogOptions, default_options, to_spdlog_level, create_sinks,
}

pub record Registry (Logger : Type 0) : Type 0 where
  pub options : LogOptions
  pub default_logger : Option ℕ
  pub modules : List (Bytes × ℕ)
  pub default_level : ℕ
  pub default_cache : Option ℕ
  pub loggers : ℕ → Logger
  pub made : ℕ

module _ {Logger : Type 0} (spd : Spdlog Logger) (ndebug : Bool) where
  -- The static registry before its first use, with what its loggers would be before they are made.
  abbrev pub new_registry : Registry Logger
  new_registry = record {
    options = default_options;
    default_logger = none;
    modules = [];
    default_level = number Level.info;
    default_cache = none;
    loggers = λ id. spd.make [] [];
    made = 0;
  }

  -- A method call on the logger that a pointer leads to.
  abbrev pub on_logger : ℕ → (Logger → Logger) → Registry Logger → Registry Logger
  on_logger id f r = record r { loggers = update id (f (r.loggers id)) r.loggers }

  unfoldable pub new_logger : Bytes → LogOptions → Logger
  new_logger name options =
      let logger = spd.make name (create_sinks ndebug options) in
      let levelled = spd.set_level (to_spdlog_level options.level) logger in
      let patterned = spd.set_pattern options.pattern levelled in
      spd.flush_on (to_spdlog_level options.flush_level) patterned

  -- The logger gets the next number.
  abbrev pub make_logger : Bytes → LogOptions → Registry Logger → Registry Logger × ℕ
  make_logger name options r = (
    record r { loggers = update r.made (new_logger name options) r.loggers; made = r.made + 1 },
    r.made,
  )

  unfoldable pub ensure_default : Registry Logger → Registry Logger × ℕ
  ensure_default r = elim r.default_logger [
    | none ↦
        let (r', id) = make_logger r.options.logger_name r.options r in
        (record r' { default_logger = some id }, id)
    | some id ↦ (r, id)
  ]

  unfoldable pub ensure_module : Bytes → Registry Logger → Registry Logger × ℕ
  ensure_module module_name r = elim (find Bytes-discrete module_name r.modules) [
    | none ↦
        let (r', id) = make_logger module_name (record r.options { logger_name = module_name }) r in
        (record r' { modules = emplace Bytes-discrete module_name id r'.modules }, id)
    | some id ↦ (r, id)
  ]

  unfoldable pub init : LogOptions → Registry Logger → Registry Logger
  init options r =
      let (r', id) = make_logger options.logger_name options (record r { options = options }) in
      record r' {
        default_logger = some id;
        default_level = number options.level;
        default_cache = some id;
      }

  unfoldable pub set_level : Level → Registry Logger → Registry Logger
  unfolding ensure_default
  set_level level r =
      let (r', id) =
        ensure_default (record r {
          options = record r.options { level = level };
          default_level = number level;
        }) in
      on_logger id (spd.set_level (to_spdlog_level level)) r'

  unfoldable pub set_module_level : Bytes → Level → Registry Logger → Registry Logger
  unfolding ensure_module
  set_module_level module_name level r =
      let (r', id) = ensure_module module_name r in
      on_logger id (spd.set_level (to_spdlog_level level)) r'

  abbrev pub get_level : Registry Logger → Level
  get_level r = level_of r.default_level

  unfoldable pub get_module_level : Bytes → Registry Logger → Registry Logger × Level
  unfolding ensure_module
  get_module_level module_name r =
      let (r', id) = ensure_module module_name r in
      (r', level_of (spd.value (spd.level (r'.loggers id))))

  abbrev pub should_log : Level → Registry Logger → Bool
  should_log level r = leb r.default_level (number level)

  unfoldable pub should_log_module : Bytes → Level → Registry Logger → Registry Logger × Bool
  unfolding ensure_module
  should_log_module module_name level r =
      let (r', id) = ensure_module module_name r in
      (r', spd.should_log (to_spdlog_level level) (r'.loggers id))

  unfoldable pub flush_modules : List (Bytes × ℕ) → Registry Logger → Registry Logger
  flush_modules [] r = r
  flush_modules ((name, id) ∷ modules) r = flush_modules modules (on_logger id spd.flush r)

  unfoldable pub flush : Registry Logger → Registry Logger
  unfolding flush_modules
  flush r = elim r.default_logger [
    | none ↦ flush_modules r.modules r
    | some id ↦ flush_modules r.modules (on_logger id spd.flush r)
  ]

  -- The cached default logger, made and cached where there is none.
  unfoldable pub cached_default : Registry Logger → Registry Logger × ℕ
  unfolding ensure_default
  cached_default r = elim r.default_cache [
    | none ↦ let (r', id) = ensure_default r in (record r' { default_cache = some id }, id)
    | some id ↦ (r, id)
  ]

  -- `detail::log`, for the default logger and for a module's.
  unfoldable pub detail_log : Level → Bytes → SourceLoc → Registry Logger → Registry Logger
  unfolding cached_default
  detail_log level msg at r =
      let (r', id) = cached_default r in on_logger id (spd.log at (to_spdlog_level level) msg) r'

  unfoldable pub detail_log_module :
      Bytes → Level → Bytes → SourceLoc → Registry Logger → Registry Logger
  unfolding ensure_module
  detail_log_module module_name level msg at r =
      let (r', id) = ensure_module module_name r in
      on_logger id (spd.log at (to_spdlog_level level) msg) r'
