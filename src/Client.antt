-- ===== src/Client.antt =====
-- src/tlsocket/client_side/: the connection with its retries, the log-in at the terminal, and the two threads that show
-- what is received and send what is typed.
pub mod Dial
pub mod Screen
pub mod Input
pub mod Login
