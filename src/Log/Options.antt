-- ===== src/Log/Options.antt =====
-- `Level`, `LogOptions`, and what src/log/log.cpp makes of them.
use livio_ark.Prelude.{
  ℕ, ◌*◌, ◌==◌, Bool, true, false, not, ◌||◌, List, [], ◌∷◌, ◌++◌, Bytes, bytes, is_nil,
  if◌then◌else◌,
}
use livio_ark.Log.Spdlog.{LevelEnum, Sink, stdout_color, rotating_file}
use livio_ark.Log.Spdlog

pub data Level : Type 0 where
  trace debug info warn error critical off : Level

-- `static_cast<int>(level)`
abbrev pub number : Level → ℕ
number trace = 0
number debug = 1
number info = 2
number warn = 3
number error = 4
number critical = 5
number off = 6

-- `static_cast<Level>(n)` of a number that is a level's.
abbrev pub level_of : ℕ → Level
level_of n =
    if n == 0
    then trace
    else if n == 1
    then debug
    else if n == 2
    then info
    else if n == 3
    then warn
    else if n == 4
    then error
    else if n == 5
    then critical
    else off

pub record LogOptions : Type 0 where
  pub level : Level
  pub flush_level : Level
  pub logger_name : Bytes
  pub pattern : Bytes
  pub file_path : Bytes
  pub max_file_size : ℕ
  pub max_files : ℕ
  pub truncate : Bool
  pub console : Bool

abbrev pub default_options : LogOptions
default_options = record {
  level = info;
  flush_level = warn;
  logger_name = bytes "livio_ark";
  pattern = bytes "[%Y-%m-%d %H:%M:%S.%e] [%^%l%$] [%n] %v";
  file_path = [];
  max_file_size = 10 * 1024 * 1024;
  max_files = 3;
  truncate = false;
  console = true;
}

abbrev pub to_spdlog_level : Level → LevelEnum
to_spdlog_level trace = Spdlog.trace
to_spdlog_level debug = Spdlog.debug
to_spdlog_level info = Spdlog.info
to_spdlog_level warn = Spdlog.warn
to_spdlog_level error = Spdlog.err
to_spdlog_level critical = Spdlog.critical
to_spdlog_level off = Spdlog.off

-- `ndebug` tells whether `NDEBUG` is defined.
unfoldable pub create_sinks : Bool → LogOptions → List Sink
create_sinks ndebug options =
    (if not ndebug || options.console then stdout_color ∷ [] else [])
    ++ (if is_nil options.file_path
        then []
        else rotating_file options.file_path options.max_file_size options.max_files
            options.truncate
          ∷ [])
