-- ===== src/LogParser/Failures.antt =====
-- `failure_rate_over_time` of src/tlsocket/log_parser/analyzer.py. The rate of a bucket is left as its two numbers.
pub mod Buckets
use tlsocket.Prelude.{
  Option, none, some, nat_beq, ℕ, zero, suc, ◌+◌, ◌-◌, ◌*◌, ◌/◌, ◌%◌, Bool, true, false, ◌&&◌, ◌||◌,
  not, List, [], ◌∷◌, ◌++◌, if◌then◌else◌, ◌==◌, text_eq, nat_eq, contains, leb, ltb, length, map,
  is_some,
}
use tlsocket.Dict.{keys}
use tlsocket.Text.{Text, codes, is_empty, decimal, starts_with}
use tlsocket.Security.BruteForce.{LogRecord, second, not_available}
use tlsocket.LogParser.Counter.{increment, count_of, most_common, top}

pub record FailureBucket : Type 0 where
  pub start : ℕ
  pub total : ℕ
  pub failures : ℕ

-- epoch - epoch % size
abbrev pub bucket_of : ℕ → LogRecord → ℕ
bucket_of size r = r.timestamp / second - (r.timestamp / second) % size

-- the loop, over `totals` and `failures`
unfoldable pub count_buckets :
    ℕ → List LogRecord → List (ℕ × ℕ) → List (ℕ × ℕ) → List (ℕ × ℕ) × List (ℕ × ℕ)
count_buckets size [] totals failures = (totals, failures)
count_buckets size (r ∷ rs) totals failures =
    count_buckets size rs (increment (bucket_of size r) totals)
      (if r.level == codes "WARNING" then increment (bucket_of size r) failures else failures)

-- sorted(...)
unfoldable pub put_sorted : ℕ → List ℕ → List ℕ
put_sorted b [] = b ∷ []
put_sorted b (c ∷ cs) = let rest = put_sorted b cs in if leb b c then b ∷ c ∷ cs else c ∷ rest

unfoldable pub sorted : List ℕ → List ℕ
sorted [] = []
sorted (b ∷ bs) = put_sorted b (sorted bs)

abbrev pub bucket_at : List (ℕ × ℕ) → List (ℕ × ℕ) → ℕ → FailureBucket
bucket_at totals failures b = record {
  start = b;
  total = count_of b totals;
  failures = count_of b failures;
}

unfoldable pub failure_buckets : List LogRecord → ℕ → List FailureBucket
failure_buckets records size =
    let (totals, failures) = count_buckets size records [] [] in
    map (bucket_at totals failures) (sorted (keys totals))

-- `none` is the ZeroDivisionError of a size of 0
unfoldable pub failure_rate_over_time : List LogRecord → ℕ → Option (List FailureBucket)
failure_rate_over_time records bucket_minutes =
    if nat_beq bucket_minutes 0 && ltb 0 (length records)
    then none
    else some (failure_buckets records (bucket_minutes * 60))
