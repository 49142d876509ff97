-- ===== src/Log/Tests.antt =====
-- The theorems on the log module at concrete inputs, with a logger that keeps its level and the
-- lines that passed it.
use livio_ark.Prelude.{
  ℕ, ◌≡◌, refl, Bool, true, List, [], ◌∷◌, ◌++◌, Bytes, bytes, Bytes-discrete, ℕ_discrete,
  if◌then◌else◌, leb,
}
use livio_ark.Log.Spdlog.{LevelEnum, Spdlog, Laws, Line}
use livio_ark.Log.Options.{Level, default_options, create_sinks}
use livio_ark.Log.Loggers.{
  Registry, new_registry, new_logger, ensure_default, ensure_module, flush_modules, flush, init,
  set_level, set_module_level, should_log_module, cached_default, detail_log, detail_log_module,
  get_module_level,
}
use livio_ark.Log.Macros.{log_at, log_module_at, no_source_loc}
use livio_ark.Log.Valid.{IsValid}
use livio_ark.Log.History.{
  Call, init_call, set_level_call, set_module_level_call, log_call, log_module_call, flush_call,
  run, run-IsValid,
}
use livio_ark.Log.Views.{default_lines, module_lines}
use livio_ark.Log.Output.{log_at-lines}
use livio_ark.Log.ModuleOutput.{log_module_at-lines}
use livio_ark.Log.ModuleLevels.{get_module_level-set_module_level}

record PlainLogger : Type 0 where
  lowest : LevelEnum
  lines : List Line

abbrev plain_value : LevelEnum → ℕ
plain_value LevelEnum.trace = 0
plain_value LevelEnum.debug = 1
plain_value LevelEnum.info = 2
plain_value LevelEnum.warn = 3
plain_value LevelEnum.err = 4
plain_value LevelEnum.critical = 5
plain_value LevelEnum.off = 6

abbrev plain_should_log : LevelEnum → PlainLogger → Bool
plain_should_log l x = leb (plain_value x.lowest) (plain_value l)

abbrev plain : Spdlog PlainLogger
plain = record {
  value = plain_value;
  make = λ name sinks. record { lowest = LevelEnum.info; lines = [] };
  set_level = λ l x. record x { lowest = l };
  set_pattern = λ pattern x. x;
  flush_on = λ l x. x;
  level = λ x. x.lowest;
  should_log = plain_should_log;
  log = λ at l msg x. record x {
    lines = if plain_should_log l x then x.lines ++ (at, l, msg) ∷ [] else x.lines;
  };
  flush = λ x. x;
  written = λ x. x.lines;
}

plain-Laws : Laws plain
plain-Laws = record {
  value_trace = refl;
  value_debug = refl;
  value_info = refl;
  value_warn = refl;
  value_err = refl;
  value_critical = refl;
  value_off = refl;
  level-set_level = λ l x. refl;
  level-set_pattern = λ p x. refl;
  level-flush_on = λ l x. refl;
  level-log = λ at l msg x. refl;
  level-flush = λ x. refl;
  should_log_lem = λ l x. refl;
  written-make = λ name sinks. refl;
  written-set_level = λ l x. refl;
  written-set_pattern = λ p x. refl;
  written-flush_on = λ l x. refl;
  written-flush = λ x. refl;
  written-log = λ at l msg x. refl;
}

abbrev calls : List Call
calls =
    log_module_call (bytes "net") Level.warn no_source_loc (bytes "slow")
    ∷ set_module_level_call (bytes "net") Level.error
    ∷ log_call Level.debug no_source_loc (bytes "hidden")
    ∷ set_level_call Level.debug
    ∷ log_call Level.debug no_source_loc (bytes "shown")
    ∷ init_call default_options
    ∷ flush_call
    ∷ []

abbrev after_calls : Registry PlainLogger
after_calls = run plain true calls (new_registry plain true)

run-IsValid_example : IsValid plain true after_calls
run-IsValid_example = run-IsValid plain true plain-Laws calls

log_at-lines_example :
    (default_lines plain true (log_at plain true Level.warn no_source_loc (bytes "x") after_calls)
      ≡ (no_source_loc, LevelEnum.warn, bytes "x") ∷ [])
    × ((name : Bytes)
        → module_lines plain true name
            (log_at plain true Level.warn no_source_loc (bytes "x") after_calls)
          ≡ module_lines plain true name after_calls)
unfolding new_logger ensure_default ensure_module flush_modules flush init set_level
    set_module_level should_log_module cached_default detail_log detail_log_module log_at
    log_module_at Bytes-discrete create_sinks get_module_level ℕ_discrete
log_at-lines_example =
    log_at-lines plain true plain-Laws Level.warn no_source_loc (bytes "x") after_calls
      (run-IsValid plain true plain-Laws calls)

log_module_at-lines_example :
    (module_lines plain true (bytes "net") (
        log_module_at plain true (bytes "net") Level.critical no_source_loc (bytes "x") after_calls)
      ≡ (no_source_loc, LevelEnum.warn, bytes "slow")
        ∷ (no_source_loc, LevelEnum.critical, bytes "x")
        ∷ [])
    × (default_lines plain true (
          log_module_at plain true
            (bytes "net")
            Level.critical
            no_source_loc
            (bytes "x")
            after_calls)
        ≡ [])
unfolding new_logger ensure_default ensure_module flush_modules flush init set_level
    set_module_level should_log_module cached_default detail_log detail_log_module log_at
    log_module_at Bytes-discrete create_sinks get_module_level ℕ_discrete
log_module_at-lines_example =
    log_module_at-lines plain true plain-Laws (bytes "net") (bytes "net") Level.critical
      no_source_loc (bytes "x") after_calls (run-IsValid plain true plain-Laws calls)

get_module_level-set_module_level_example :
    (get_module_level plain true
      (bytes "db")
      (set_module_level plain true (bytes "net") Level.off after_calls)).1
    ≡ Level.info
unfolding new_logger ensure_default ensure_module flush_modules flush init set_level
    set_module_level should_log_module cached_default detail_log detail_log_module log_at
    log_module_at Bytes-discrete create_sinks get_module_level ℕ_discrete
get_module_level-set_module_level_example =
    get_module_level-set_module_level plain true plain-Laws (bytes "net") (bytes "db") Level.off
      after_calls (run-IsValid plain true plain-Laws calls)
