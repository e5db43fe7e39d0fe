-- ===== src/Security.antt =====
-- src/tlsocket/security/: the checks of names, messages and commands, the sliding-window limiter and
-- the detector of brute-force attacks.
pub mod Validation
pub mod RateLimiter
pub mod BruteForce
