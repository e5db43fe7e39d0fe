-- ===== src/Auth.antt =====
-- src/tlsocket/auth/ and the ban list of src/tlsocket/server_side/handlers/ban_handler.py.
pub mod Rbac
pub mod Bans
pub mod Accounts
