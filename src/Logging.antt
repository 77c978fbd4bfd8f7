-- ===== src/Logging.antt =====
-- src/Utility/LogService.h and LogService.cc: the levels of the log.
pub mod Macro

-- `LogService::LogLevel`
pub data LogLevel : Type 0 where
  debug info warn error : LogLevel
