-- ===== src/LogParser.antt =====
-- src/tlsocket/log_parser/: reading the lines of a log, and the report on its records.
pub mod Counter
pub mod Attacks
pub mod Failures
pub mod Analyzer
pub mod Filters
pub mod Parser
pub mod Report
pub mod Command
