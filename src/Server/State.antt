-- ===== src/Server/State.antt =====
-- What the threads of the server share: the objects that the modules of src/tlsocket/server_side/ keep, the files,
-- and what leaves the process. One call of a handler is one step; the clock stands still in it.
use tlsocket.Prelude.{ℕ, Option, List}
use tlsocket.Text.{Text}
use tlsocket.Security.RateLimiter.{Limiter}
use tlsocket.Security.BruteForce.{Detector}
use tlsocket.Auth.Accounts.{Users}
use tlsocket.Server.Registry.{ClientRegistry}

pub data Logger : Type 0 where
  server security test alert : Logger

pub data Level : Type 0 where
  info warning : Level

-- A line of a log; `none` for a field that is left out.
pub record LogLine : Type 0 where
  pub logger : Logger
  pub level : Level
  pub event : Text
  pub username : Option Text
  pub ip : Option Text
  pub extra_info : Option Text
  -- `failed_attempts` and `window_seconds` of an alert
  pub counts : Option (ℕ × ℕ)

-- src/tlsocket/metrics.py: the counters. The gauges are read off the registry and the detector.
pub record Metrics : Type 0 where
  pub connections_total : ℕ
  pub logins_success : ℕ
  pub logins_failed : ℕ
  pub registrations_success : ℕ
  pub registrations_failed : ℕ
  pub messages_total : ℕ

pub record Server : Type 0 where
  pub registry : ClientRegistry
  pub message_limiter : Limiter ℕ
  pub register_limiter : Limiter Text
  pub detector : Detector
  pub users : Option Users
  pub bans : Option Text
  pub metrics : Metrics
  pub log : List LogLine
  -- what was written to a socket past its writer, and the sockets that were closed
  pub written : List (ℕ × Text)
  pub closed : List ℕ
  -- microseconds of the wall clock, and ticks of the monotonic one
  pub clock : ℕ
  pub ticks : ℕ
