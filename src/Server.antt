-- ===== src/Server.antt =====
-- src/tlsocket/server_side/: the registry of the clients, the interleaving of log-ins, the reader of lines, the
-- log of events, and the handlers of connections, of messages and of the console.
pub mod Registry
pub mod Logins
pub mod Reader
pub mod State
pub mod Events
pub mod Cleanup
pub mod Messages
pub mod Connections
pub mod Console
pub mod Certificate
