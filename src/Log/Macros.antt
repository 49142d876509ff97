-- ===== src/Log/Macros.antt =====
-- The log functions and macros of include/livioark/log/log.hpp. A message is the text that
-- `std::format` makes of its arguments.
use livio_ark.Prelude.{ℕ, Bool, true, false, [], Bytes, if◌then◌else◌, leb}
use livio_ark.Log.Spdlog.{SourceLoc, Spdlog}
use livio_ark.Log.Options.{Level}
use livio_ark.Log.Loggers.{Registry, should_log, should_log_module, detail_log, detail_log_module}
use livio_ark.Slot.{Outcome, returned, threw}

-- `SourceLoc{}`
abbrev pub no_source_loc : SourceLoc
no_source_loc = record { file = []; line = 0; func = [] }

-- `LIVIO_LOG_LEVEL_TRACE` and the others.
abbrev pub level_num : Level → ℕ
level_num Level.trace = 0
level_num Level.debug = 1
level_num Level.info = 2
level_num Level.warn = 3
level_num Level.error = 4
level_num Level.critical = 5
level_num Level.off = 6

module _ {Logger : Type 0} (spd : Spdlog Logger) (ndebug : Bool) where
  unfoldable pub log_at : Level → SourceLoc → Bytes → Registry Logger → Registry Logger
  log_at level at msg r =
      if should_log spd ndebug level r then detail_log spd ndebug level msg at r else r

  unfoldable pub log : Level → Bytes → Registry Logger → Registry Logger
  log level msg r =
      if should_log spd ndebug level r then detail_log spd ndebug level msg no_source_loc r else r

  unfoldable pub log_module_at :
      Bytes → Level → SourceLoc → Bytes → Registry Logger → Registry Logger
  log_module_at module_name level at msg r =
      let (r', accepted) = should_log_module spd ndebug module_name level r in
      if accepted then detail_log_module spd ndebug module_name level msg at r' else r'

  unfoldable pub log_module : Bytes → Level → Bytes → Registry Logger → Registry Logger
  log_module module_name level msg r =
      let (r', accepted) = should_log_module spd ndebug module_name level r in
      if accepted then detail_log_module spd ndebug module_name level msg no_source_loc r' else r'

  -- `active` is `LIVIO_LOG_ACTIVE_LEVEL`.
  unfoldable pub log_impl : ℕ → ℕ → Level → SourceLoc → Bytes → Registry Logger → Registry Logger
  unfolding log_at
  log_impl active num level at msg r = if leb active num then log_at level at msg r else r

  unfoldable pub logm_impl :
      ℕ → ℕ → Bytes → Level → SourceLoc → Bytes → Registry Logger → Registry Logger
  unfolding log_module_at
  logm_impl active num module_name level at msg r =
      if leb active num then log_module_at module_name level at msg r else r

  -- `LOG_TRACE` to `LOG_CRITICAL`, by their level.
  unfoldable pub log_macro : ℕ → Level → SourceLoc → Bytes → Registry Logger → Registry Logger
  unfolding log_impl
  log_macro active level at msg r = log_impl active (level_num level) level at msg r

  -- `LOGM_TRACE` to `LOGM_CRITICAL`.
  unfoldable pub logm_macro :
      ℕ → Bytes → Level → SourceLoc → Bytes → Registry Logger → Registry Logger
  unfolding logm_impl
  logm_macro active module_name level at msg r =
      logm_impl active (level_num level) module_name level at msg r

-- `LOG_IF` and `LOGM_IF` around the macro that they name.
abbrev pub log_if : {R : Type 0} → Bool → (R → R) → R → R
log_if cond expr r = if cond then expr r else r

-- `LIVIO_ARK_LOG_ONCE`: the flag of a static variable at the call's place. An initializer that
-- throws leaves it unset.
unfoldable pub log_once : {R : Type 0} → (R → Outcome × R) → Bool × R → Outcome × (Bool × R)
log_once expr (true, r) = (returned, (true, r))
log_once expr (false, r) =
    let (outcome, r') = expr r in
    elim outcome [ returned ↦ (returned, (true, r')) | threw ↦ (threw, (false, r')) ]
