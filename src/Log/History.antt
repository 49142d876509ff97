-- ===== src/Log/History.antt =====
-- Any sequence of calls of the log module, from the registry at the program's start.
use livio_ark.Prelude.{if-holds, Bool, List, [], ◌∷◌, Bytes}
use livio_ark.Log.Spdlog.{SourceLoc, Spdlog, Laws}
use livio_ark.Log.Options.{Level, LogOptions, to_spdlog_level}
use livio_ark.Log.Loggers.{
  Registry, new_registry, init, set_level, set_module_level, get_module_level, should_log,
  should_log_module, flush, detail_log, detail_log_module,
}
use livio_ark.Log.Macros.{log_at, log_module_at}
use livio_ark.Log.Valid.{IsValid, new-IsValid, on_logger-IsValid, ensure_module-IsValid}
use livio_ark.Log.Operations.{
  init-IsValid, set_level-IsValid, set_module_level-IsValid, flush-IsValid, cached_default-IsValid,
}

-- A call of src/log/log.cpp, or of the functions of log.hpp over it, with its arguments.
pub data Call : Type 0 where
  init_call : LogOptions → Call
  set_level_call : Level → Call
  set_module_level_call : Bytes → Level → Call
  get_module_level_call : Bytes → Call
  should_log_module_call : Bytes → Level → Call
  flush_call : Call
  log_call : Level → SourceLoc → Bytes → Call
  log_module_call : Bytes → Level → SourceLoc → Bytes → Call

module _ {Logger : Type 0} (spd : Spdlog Logger) (ndebug : Bool) where
  abbrev pub call : Call → Registry Logger → Registry Logger
  call (init_call options) r = init spd ndebug options r
  call (set_level_call level) r = set_level spd ndebug level r
  call (set_module_level_call name level) r = set_module_level spd ndebug name level r
  call (get_module_level_call name) r = (get_module_level spd ndebug name r).0
  call (should_log_module_call name level) r = (should_log_module spd ndebug name level r).0
  call flush_call r = flush spd ndebug r
  call (log_call level at msg) r = log_at spd ndebug level at msg r
  call (log_module_call name level at msg) r = log_module_at spd ndebug name level at msg r

  abbrev pub run : List Call → Registry Logger → Registry Logger
  run [] r = r
  run (c ∷ cs) r = run cs (call c r)

module _ {Logger : Type 0} (spd : Spdlog Logger) (ndebug : Bool) (laws : Laws spd) where
  pub detail_log-IsValid :
      (level : Level) (msg : Bytes) (at : SourceLoc) (r : Registry Logger)
      → IsValid spd ndebug r
      → IsValid spd ndebug (detail_log spd ndebug level msg at r)
  unfolding detail_log
  detail_log-IsValid level msg at r v =
      on_logger-IsValid spd ndebug laws _ (spd.log at (to_spdlog_level level) msg) _
        (laws.level-log _ _ _ _) (cached_default-IsValid spd ndebug laws r v)

  pub detail_log_module-IsValid :
      (name : Bytes) (level : Level) (msg : Bytes) (at : SourceLoc) (r : Registry Logger)
      → IsValid spd ndebug r
      → IsValid spd ndebug (detail_log_module spd ndebug name level msg at r)
  unfolding detail_log_module
  detail_log_module-IsValid name level msg at r v =
      on_logger-IsValid spd ndebug laws _ (spd.log at (to_spdlog_level level) msg) _
        (laws.level-log _ _ _ _) (ensure_module-IsValid spd ndebug laws name r v)

  pub log_at-IsValid :
      (level : Level) (at : SourceLoc) (msg : Bytes) (r : Registry Logger)
      → IsValid spd ndebug r
      → IsValid spd ndebug (log_at spd ndebug level at msg r)
  unfolding log_at
  log_at-IsValid level at msg r v =
      if-holds (IsValid spd ndebug) (should_log spd ndebug level r)
        (detail_log-IsValid level msg at r v) v

  pub log_module_at-IsValid :
      (name : Bytes) (level : Level) (at : SourceLoc) (msg : Bytes) (r : Registry Logger)
      → IsValid spd ndebug r
      → IsValid spd ndebug (log_module_at spd ndebug name level at msg r)
  unfolding log_module_at should_log_module
  log_module_at-IsValid name level at msg r v =
      let after = ensure_module-IsValid spd ndebug laws name r v in
      if-holds (IsValid spd ndebug) _ (detail_log_module-IsValid name level msg at _ after) after

  call-IsValid :
      (c : Call) (r : Registry Logger)
      → IsValid spd ndebug r
      → IsValid spd ndebug (call spd ndebug c r)
  unfolding get_module_level should_log_module
  call-IsValid (init_call options) r v = init-IsValid spd ndebug laws options r v
  call-IsValid (set_level_call level) r v = set_level-IsValid spd ndebug laws level r v
  call-IsValid (set_module_level_call name level) r v =
      set_module_level-IsValid spd ndebug laws name level r v
  call-IsValid (get_module_level_call name) r v = ensure_module-IsValid spd ndebug laws name r v
  call-IsValid (should_log_module_call name level) r v =
      ensure_module-IsValid spd ndebug laws name r v
  call-IsValid flush_call r v = flush-IsValid spd ndebug laws r v
  call-IsValid (log_call level at msg) r v = log_at-IsValid level at msg r v
  call-IsValid (log_module_call name level at msg) r v = log_module_at-IsValid name level at msg r v

  run_from-IsValid :
      (cs : List Call) (r : Registry Logger)
      → IsValid spd ndebug r
      → IsValid spd ndebug (run spd ndebug cs r)
  run_from-IsValid [] r v = v
  run_from-IsValid (c ∷ cs) r v = run_from-IsValid cs _ (call-IsValid c r v)

  -- After any sequence of init, both forms of set_level, get_level and should_log of a module,
  -- flush and log calls, with loggers that behave as spdlog documents, the cached level is the
  -- number of the options' level and the level of the default logger, the cached default logger is
  -- the default logger, and no two modules, nor a module and the default, share a logger.
  pub run-IsValid :
      (cs : List Call) → IsValid spd ndebug (run spd ndebug cs (new_registry spd ndebug))
  run-IsValid cs = run_from-IsValid cs _ (new-IsValid spd ndebug)
