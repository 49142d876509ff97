-- ===== src/Log.antt =====
-- The log module: include/livioark/log/log.hpp and src/log/log.cpp. A logger of spdlog is an object
-- in a store, since the registry, its cache and a running call share it; a `shared_ptr` to it is its
-- number there.
pub mod Spdlog
pub mod Options
pub mod Loggers
pub mod Macros
pub mod Valid
pub mod Operations
pub mod History
pub mod Views
pub mod Output
pub mod ModuleOutput
pub mod ModuleLevels
mod Tests
