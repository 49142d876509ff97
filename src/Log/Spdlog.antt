-- ===== src/Log/Spdlog.antt =====
-- What src/log/log.cpp uses of spdlog, which is another project's library: its loggers are a
-- parameter, and `Laws` is what spdlog documents of them.
use livio_ark.Prelude.{ℕ, ◌≡◌, Bool, List, [], ◌∷◌, ◌++◌, Bytes, if◌then◌else◌, leb}

-- `spdlog::level::level_enum`
pub data LevelEnum : Type 0 where
  trace debug info warn err critical off : LevelEnum

-- The sinks that the code makes, with the arguments of their constructors.
pub data Sink : Type 0 where
  stdout_color : Sink
  rotating_file : Bytes → ℕ → ℕ → Bool → Sink

-- `SourceLoc`, and `spdlog::source_loc`, which has the same parts.
pub record SourceLoc : Type 0 where
  pub file : Bytes
  pub line : ℕ
  pub func : Bytes

-- A message as a logger gets it.
abbrev pub Line : Type 0
Line = SourceLoc × LevelEnum × Bytes

-- A method that changes a logger gives the logger afterwards. `value` is the number of an
-- enumerator, and `written` the lines that passed a logger's level, which it hands to each of its
-- sinks; a logger may have none, and its lines then go nowhere.
pub record Spdlog (Logger : Type 0) : Type 0 where
  pub value : LevelEnum → ℕ
  pub make : Bytes → List Sink → Logger
  pub set_level : LevelEnum → Logger → Logger
  pub set_pattern : Bytes → Logger → Logger
  pub flush_on : LevelEnum → Logger → Logger
  pub level : Logger → LevelEnum
  pub should_log : LevelEnum → Logger → Bool
  pub log : SourceLoc → LevelEnum → Bytes → Logger → Logger
  pub flush : Logger → Logger
  pub written : Logger → List Line

pub record Laws {Logger : Type 0} (spd : Spdlog Logger) : Type 0 where
  pub value_trace : spd.value trace ≡ 0
  pub value_debug : spd.value debug ≡ 1
  pub value_info : spd.value info ≡ 2
  pub value_warn : spd.value warn ≡ 3
  pub value_err : spd.value err ≡ 4
  pub value_critical : spd.value critical ≡ 5
  pub value_off : spd.value off ≡ 6
  pub level-set_level : (l : LevelEnum) (x : Logger) → spd.level (spd.set_level l x) ≡ l
  pub level-set_pattern : (p : Bytes) (x : Logger) → spd.level (spd.set_pattern p x) ≡ spd.level x
  pub level-flush_on : (l : LevelEnum) (x : Logger) → spd.level (spd.flush_on l x) ≡ spd.level x
  pub level-log :
      (at : SourceLoc) (l : LevelEnum) (msg : Bytes) (x : Logger)
      → spd.level (spd.log at l msg x) ≡ spd.level x
  pub level-flush : (x : Logger) → spd.level (spd.flush x) ≡ spd.level x
  pub should_log_lem :
      (l : LevelEnum) (x : Logger)
      → spd.should_log l x ≡ leb (spd.value (spd.level x)) (spd.value l)
  pub written-make : (name : Bytes) (sinks : List Sink) → spd.written (spd.make name sinks) ≡ []
  pub written-set_level :
      (l : LevelEnum) (x : Logger) → spd.written (spd.set_level l x) ≡ spd.written x
  pub written-set_pattern :
      (p : Bytes) (x : Logger) → spd.written (spd.set_pattern p x) ≡ spd.written x
  pub written-flush_on :
      (l : LevelEnum) (x : Logger) → spd.written (spd.flush_on l x) ≡ spd.written x
  pub written-flush : (x : Logger) → spd.written (spd.flush x) ≡ spd.written x
  pub written-log :
      (at : SourceLoc) (l : LevelEnum) (msg : Bytes) (x : Logger)
      → spd.written (spd.log at l msg x) ≡ (
          if leb (spd.value (spd.level x)) (spd.value l)
          then spd.written x ++ (at, l, msg) ∷ []
          else spd.written x)
