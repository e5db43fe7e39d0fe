-- ===== src/Lib.antt =====
-- TLSocket: a chat server over TLS, with accounts, roles, bans, rate limits and a detector of brute-force attacks.
--
-- The server keeps one registry of clients (sessions, the index of names, slots by address, reserved names, one
-- writer with a queue for each client). A connection is authenticated line by line; then a thread reads its lines
-- and handles each as a command or as a message to all. Commands change the registry, the ban list and the
-- accounts; every event goes to the logs, the counters and the detector.
--
-- The files, and the code that they model (paths from the root of the repository):
--   Protocol               src/tlsocket/protocol.py
--   Config                 src/tlsocket/config.py, its limits
--   Security/Validation    src/tlsocket/security/validation.py
--   Security/RateLimiter   src/tlsocket/security/rate_limiter.py
--   Security/BruteForce    src/tlsocket/security/brute_force_detection.py, with src/tlsocket/log_parser/models.py
--   Auth/Rbac              src/tlsocket/auth/rbac.py
--   Auth/Bans              src/tlsocket/server_side/handlers/ban_handler.py
--   Auth/Accounts          src/tlsocket/auth/authentication.py
--   Server/Registry        src/tlsocket/server_side/client_registry.py
--   Server/Reader          read_line of src/tlsocket/server_side/handlers/client_handler.py
--   Server/Cleanup         broadcast, clean_up_client, kick_user, ban_user and _target_role of the same file
--   Server/Messages        handle_messages of the same file
--   Server/Events          src/tlsocket/server_side/logs_management/record_logs.py, with log_alert of
--                          src/tlsocket/security/logger.py
--   Server/State           what the threads share, with the counters of src/tlsocket/metrics.py
--   Server/Connections     handle_new_connection of src/tlsocket/server_side/server.py
--   Server/Logins          how the threads of handle_new_connection interleave
--   Server/Console         server_console_input of src/tlsocket/server_side/server.py
--   Server/Certificate     src/tlsocket/server_side/ensure_cert.py
--   LogParser/Parser       src/tlsocket/log_parser/parser.py
--   LogParser/Counter      collections.Counter, as src/tlsocket/log_parser/analyzer.py uses it
--   LogParser/Attacks      peak_attack_hours and top_targeted_users of the same file
--   LogParser/Failures     failure_rate_over_time of the same file
--   LogParser/Analyzer     analyze of the same file
--   LogParser/Filters      src/tlsocket/log_parser/filters.py
--   LogParser/Report       src/tlsocket/log_parser/report.py, with resolve_path and the live line of
--                          src/tlsocket/log_parser/main.py
--   LogParser/Command      main of the same file
--   Client/Dial            connect and connect_with_backoff of
--                          src/tlsocket/client_side/client_management/connection.py
--   Client/Screen          receive of the same file
--   Client/Input           write of the same file
--   Client/Login           src/tlsocket/client_side/client.py, with instructions.py beside connection.py
-- Prelude, Dict and Text hold the helpers: tests, lists, association lists for dictionaries, and the methods of
-- str. Below each component are the modules of its proofs; Tests holds tests and examples.
--
-- A call under a lock is one step. The clock is an argument: the monotonic clock counts ticks, the wall clock
-- microseconds. It stands still in a handler's call, and each line of a client comes with its readings; a log line has a time of its own, since
-- the logging library reads the clock for itself. Timestamps are instants in UTC. A socket is a number, a file that may be absent an Option of its content. Salts are arguments.
-- Parameters: `Unicode` (case tables and UTF-8 decoding of the interpreter) and `Hasher` (Argon2 and SHA-256), with
-- the documented facts that the code relies on; `Digits` (what a regular expression takes for a digit), `Json` (json.loads
-- and datetime.fromisoformat) and `JsonFormatter` (the formatter of the log files, which writes what these read).
--
-- The client's loops run over lists of what is typed and received. The retries of a connection recur on the number
-- of the attempts left. A growing log is a list of appended texts and of rounds of the loop that reads it.
--
-- broadcast and clean_up_client call each other. They recur on fuel, one more than there are sessions, which is
-- enough because every cleaning removes a session before it broadcasts.
--
-- Not modelled: sockets, TLS, threads and processes as such, the set-up of logging, the environment, the parsing of
-- the arguments of the log parser, times before 1970, the exceptions of encoding a text and of the files in the console, and what the server only prints.
pub mod Prelude
pub mod Dict
pub mod Text
pub mod Config
pub mod Protocol
pub mod Security
pub mod Auth
pub mod Server
pub mod Tests
pub mod LogParser
pub mod Client
