-- ===== src/Config.antt =====
-- src/tlsocket/config.py: the limits that are written in the source, and those that the environment sets. The
-- paths of files, the host and the ports are not modelled.
use tlsocket.Prelude.{ℕ}

abbrev pub max_login_attempts : ℕ
max_login_attempts = 5

abbrev pub login_window : ℕ
login_window = 60

abbrev pub block_duration : ℕ
block_duration = 10

abbrev pub max_register_attempts : ℕ
max_register_attempts = 5

abbrev pub register_window : ℕ
register_window = 60

abbrev pub max_nickname_length : ℕ
max_nickname_length = 20

abbrev pub min_nickname_length : ℕ
min_nickname_length = 1

abbrev pub max_message_length : ℕ
max_message_length = 1000

abbrev pub message_rate_window : ℕ
message_rate_window = 10

abbrev pub max_line_length : ℕ
max_line_length = 4096

-- what TLSOCKET_* variables may change
pub record Settings : Type 0 where
  pub max_messages_per_window : ℕ
  pub send_queue_maxsize : ℕ
  pub max_connections_per_ip : ℕ

abbrev pub default_settings : Settings
default_settings = record {
  max_messages_per_window = 10;
  send_queue_maxsize = 100;
  max_connections_per_ip = 5;
}
