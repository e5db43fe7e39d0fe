-- ===== src/Tests/SecurityTests.antt =====
-- The protocol, the validation, the rate limiter, the brute-force detector and the reading of lines.
use tlsocket.Prelude.{
  ℕ, ◌≡◌, ◌≢◌, ◌↔◌, true, false, refl, none, some, List, [], ◌∷◌, ◌++◌, arith, every, contains,
  text_eq, nat_eq, text_beq,
}
use tlsocket.Dict.{lookup}
use tlsocket.Text.{Text, codes, cut, is_space, is_empty}
use tlsocket.Text.Words.{is_word}
use tlsocket.Protocol.{parse_command, format_command, kick}
use tlsocket.Protocol.Roundtrip.{parse_command-format_command}
use tlsocket.Security.Validation.{validate_nickname}
use tlsocket.Security.Validation.Names.{IsNickname, validate_nickname_iff}
use tlsocket.Security.RateLimiter
use tlsocket.Security.RateLimiter.{is_recent}
use tlsocket.Security.RateLimiter.Ideal.{InOrder, run, ideal_run, run-eq-ideal_run}
use tlsocket.Security.BruteForce.{
  Detector, LogRecord, init, block, is_ip_blocked, process_record, process_all, login_failed,
  is_ignored, second, history, load_state, violations, load_counts, load_times, not_available,
}
use tlsocket.Security.BruteForce.Blocking.{block_end}
use tlsocket.Security.BruteForce.Burst.{IsBurst, burst_blocks, last_timestamp}
use tlsocket.Security.BruteForce.Restart.{restart-serve, serve, floored, record_of, ask}
use tlsocket.Server.Reader.{read_line}
use tlsocket.Server.Reader.Stream.{ReadsFirst, read_line-stream, received, stream}
use tlsocket.Tests.Fixtures.{ascii_unicode, bob}

bob-is_word : every is_word (bob ∷ []) ≡ true
unfolding codes every is_space is_empty
bob-is_word = refl

parse_command-format_command_example :
    parse_command ascii_unicode (format_command kick (bob ∷ [])) ≡ (some kick, bob ∷ [])
parse_command-format_command_example =
    parse_command-format_command ascii_unicode kick (bob ∷ []) bob-is_word

validate_nickname_iff_example : ((validate_nickname bob).0 ≡ true) ↔ IsNickname bob
validate_nickname_iff_example = validate_nickname_iff bob

abbrev calls : List (ℕ × ℕ)
calls = (1, 0) ∷ (1, 3) ∷ (2, 4) ∷ (1, 5) ∷ (1, 30) ∷ []

calls-InOrder : InOrder 0 calls
calls-InOrder = (omega arith, (omega arith, (omega arith, (omega arith, (omega arith, tt)))))

run-eq-ideal_run_example : run (RateLimiter.init 2 10) calls ≡ ideal_run 2 10 [] calls
run-eq-ideal_run_example = run-eq-ideal_run 2 10 calls calls-InOrder

abbrev address : Text
address = codes "10.0.0.7"

abbrev fresh : Detector
fresh = init 2 60 10 none

abbrev failed_at : ℕ → LogRecord
failed_at t = record {
  timestamp = t;
  level = codes "WARNING";
  event_type = login_failed;
  username = bob;
  ip = address;
  extra_info = [];
}

address_is_not_bob : address ≢ bob
unfolding codes
address_is_not_bob e = cc

counted : (t : ℕ) → is_ignored (failed_at t) ≡ false
unfolding is_ignored codes is_empty text_beq
counted t = refl

burst : IsBurst fresh address 0 (failed_at 1 ∷ failed_at 2 ∷ [])
unfolding init load_state
burst = (counted 1, refl, omega arith, omega arith, (counted 2, refl, omega arith, omega arith, tt))

no_history : history fresh address ≡ []
unfolding init load_state lookup
no_history = refl

burst_blocks_example :
    lookup address (process_all fresh (failed_at 1 ∷ failed_at 2 ∷ [])).blocked_ips
    ≡ some (block_end fresh address (last_timestamp 0 (failed_at 1 ∷ failed_at 2 ∷ [])))
burst_blocks_example =
    burst_blocks fresh address 0 (failed_at 1 ∷ failed_at 2 ∷ []) burst
      (rw no_history (unfold every in refl)) (omega arith)
      (rw no_history (unfold init load_state in refl))

abbrev served : List tlsocket.Security.BruteForce.Restart.Event
served = record_of (failed_at 1) ∷ record_of (failed_at 2) ∷ ask address 3 ∷ []

restart-serve_example :
    (violations (init 2 60 10 (serve fresh served).db_file) address
      ≡ violations (serve fresh served) address)
    × (lookup address (init 2 60 10 (serve fresh served).db_file).blocked_ips
        ≡ floored (lookup address (serve fresh served).blocked_ips))
restart-serve_example = restart-serve 2 60 10 served address

abbrev chunks : List (ℕ × List ℕ)
chunks = (104, 105 ∷ []) ∷ (10, 120 ∷ []) ∷ []

read_line-stream_example :
    ReadsFirst ascii_unicode ([] ++ stream chunks) (read_line ascii_unicode (received chunks) [])
read_line-stream_example =
    read_line-stream ascii_unicode chunks [] (unfold contains in refl) (unfold cut in omega arith)
