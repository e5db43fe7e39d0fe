-- ===== src/LogParser/Report/Totals.antt =====
-- The parts of a report fit together.
use tlsocket.Prelude.{
  ℕ, suc, ◌+◌, ◌≡◌, refl, true, false, some, List, [], ◌∷◌, map, arith, if◌then◌else◌, ◌==◌, nat_eq,
  nat_beq_iff, text_eq, contains, distinct, length,
}
use tlsocket.Dict.{lookup, insert, keys}
use tlsocket.Text.{codes}
use tlsocket.Security.BruteForce.{LogRecord}
use tlsocket.LogParser.Counter.{count_of, increment}
use tlsocket.LogParser.Failures.{
  FailureBucket, bucket_of, count_buckets, put_sorted, sorted, bucket_at, failure_buckets,
  failure_rate_over_time,
}
use tlsocket.LogParser.Failures.Buckets.{buckets-distinct}
use tlsocket.LogParser.Analyzer.Counts.{analyze_numbers}
use tlsocket.LogParser.Report.{Report, build_report}

abbrev pub sum {ℓ} : {A : Type ℓ} → (A → ℕ) → List A → ℕ
sum f [] = 0
sum f (x ∷ xs) = f x + sum f xs

abbrev pub all_counts : List (ℕ × ℕ) → ℕ
all_counts c = sum (λ (e : ℕ × ℕ). e.1) c

counts-insert :
    (k v : ℕ) (c : List (ℕ × ℕ)) → all_counts (insert k v c) + count_of k c ≡ all_counts c + v
unfolding insert lookup
counts-insert k v [] = omega arith
counts-insert k v ((j, w) ∷ c) = ground (arith, counts-insert k v c)

counts-increment : (k : ℕ) (c : List (ℕ × ℕ)) → all_counts (increment k c) ≡ suc (all_counts c)
unfolding increment
counts-increment k c = omega (arith, counts-insert k (count_of k c + 1) c)

counts_lem :
    (size : ℕ) (rs : List LogRecord) (ts fs : List (ℕ × ℕ))
    → all_counts (count_buckets size rs ts fs).0 ≡ all_counts ts + length rs
unfolding count_buckets
counts_lem size [] ts fs = omega arith
counts_lem size (r ∷ rs) ts fs = omega (
  arith,
  counts_lem size rs (increment (bucket_of size r) ts)
      (if r.level == codes "WARNING" then increment (bucket_of size r) fs else fs),
  counts-increment (bucket_of size r) ts,
)

-- the counts of the keys, one by one
sum_without :
    (k v : ℕ) (c : List (ℕ × ℕ)) (ks : List ℕ)
    → contains ks k ≡ false
    → sum (λ b. count_of b ((k, v) ∷ c)) ks ≡ sum (λ b. count_of b c) ks
unfolding contains lookup
sum_without k v c [] h = refl
sum_without k v c (j ∷ ks) h =
    ground (arith, nat_beq_iff j k, nat_beq_iff k j, sum_without k v c ks)

sum-keys :
    (c : List (ℕ × ℕ)) → distinct (keys c) ≡ true → sum (λ b. count_of b c) (keys c) ≡ all_counts c
unfolding distinct lookup
sum-keys [] d = refl
sum-keys ((k, v) ∷ c) d = ground (arith, sum_without k v c (keys c), sum-keys c, nat_beq_iff k k)

sum-put_sorted : (f : ℕ → ℕ) (b : ℕ) (bs : List ℕ) → sum f (put_sorted b bs) ≡ f b + sum f bs
unfolding put_sorted
sum-put_sorted f b [] = refl
sum-put_sorted f b (c ∷ cs) = ground (arith, sum-put_sorted f b cs)

sum-sorted : (f : ℕ → ℕ) (bs : List ℕ) → sum f (sorted bs) ≡ sum f bs
unfolding sorted
sum-sorted f [] = refl
sum-sorted f (b ∷ bs) = omega (arith, sum-put_sorted f b (sorted bs), sum-sorted f bs)

sum-map :
    (f : FailureBucket → ℕ) (g : ℕ → FailureBucket) (bs : List ℕ)
    → sum f (map g bs) ≡ sum (λ b. f (g b)) bs
sum-map f g [] = refl
sum-map f g (b ∷ bs) = omega (arith, sum-map f g bs)

-- A report is made of any records: no division by 0 stops it. The totals of its timeline add up to its number of requests, which
-- is the number of the records.
pub build_report-adds_up :
    (rs : List LogRecord)
    → (r : Report) × (build_report rs ≡ some r)
      × (r.analysis.total_requests ≡ length rs)
      × (sum (λ (b : FailureBucket). b.total) r.failure_rate_over_time ≡ length rs)
unfolding build_report failure_rate_over_time failure_buckets
build_report-adds_up rs =
    let (totals, failures) = count_buckets 3600 rs [] [] in
    (
      _,
      refl,
      (analyze_numbers rs).0,
      omega (
        arith,
        sum-map (λ (b : FailureBucket). b.total) (bucket_at totals failures) (sorted (keys totals)),
        sum-sorted (λ b. count_of b totals) (keys totals),
        sum-keys totals (buckets-distinct 3600 rs [] [] (unfold distinct in refl)),
        counts_lem 3600 rs [] [],
      ),
    )
