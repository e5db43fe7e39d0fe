-- ===== src/LogParser/Failures/Buckets.antt =====
-- The buckets of a timeline against the records.
use tlsocket.Prelude.{
  ℕ, ◌+◌, ◌*◌, ◌≤◌, ◌<◌, ◌≡◌, refl, Bool, true, false, ◌&&◌, ◌||◌, List, [], ◌∷◌, arith,
  if◌then◌else◌, ◌==◌, text_eq, nat_eq, contains, length, keep, distinct, map, leb, ltb, every,
  is_some, some, ◌∙◌, ap, sym, ==_refl,
}
use tlsocket.Dict.{lookup, keys}
use tlsocket.Dict.Keys.{contains-keys}
use tlsocket.Dict.Laws.{lookup-insert}
use tlsocket.Text.{codes}
use tlsocket.Security.BruteForce.{LogRecord}
use tlsocket.LogParser.Counter.{count_of, increment}
use tlsocket.LogParser.Counter.Laws.{count_of-increment, increment-distinct}
use tlsocket.LogParser.Failures.{
  FailureBucket, bucket_of, count_buckets, put_sorted, sorted, bucket_at, failure_buckets,
  failure_rate_over_time,
}

abbrev pub in_bucket : ℕ → ℕ → LogRecord → Bool
in_bucket size b r = bucket_of size r == b

abbrev pub fails_in : ℕ → ℕ → LogRecord → Bool
fails_in size b r = in_bucket size b r && r.level == codes "WARNING"

buckets_lem :
    (size : ℕ) (rs : List LogRecord) (ts fs : List (ℕ × ℕ)) (b : ℕ)
    → (count_of b (count_buckets size rs ts fs).0
        ≡ count_of b ts + length (keep (in_bucket size b) rs))
      × (count_of b (count_buckets size rs ts fs).1
          ≡ count_of b fs + length (keep (fails_in size b) rs))
unfolding count_buckets keep
buckets_lem size [] ts fs b = omega arith
buckets_lem size (r ∷ rs) ts fs b =
    let n = bucket_of size r in
    let fs' = if r.level == codes "WARNING" then increment n fs else fs in
    let (p, q) = buckets_lem size rs (increment n ts) fs' b in
    (ground (arith, p, count_of-increment n b ts), ground (arith, q, count_of-increment n b fs))

-- the keys are the buckets that were counted
is_some-increment :
    (n b : ℕ) (c : List (ℕ × ℕ))
    → is_some (lookup b (increment n c)) ≡ (n == b || is_some (lookup b c))
unfolding increment
is_some-increment n b c = ground (arith, lookup-insert n b (count_of n c + 1) c)

buckets-keys :
    (size : ℕ) (rs : List LogRecord) (ts fs : List (ℕ × ℕ)) (b : ℕ)
    → is_some (lookup b (count_buckets size rs ts fs).0)
      ≡ (is_some (lookup b ts) || ltb 0 (length (keep (in_bucket size b) rs)))
unfolding count_buckets keep
buckets-keys size [] ts fs b = ground arith
buckets-keys size (r ∷ rs) ts fs b =
    let n = bucket_of size r in
    let fs' = if r.level == codes "WARNING" then increment n fs else fs in
    ground (arith, buckets-keys size rs (increment n ts) fs' b, is_some-increment n b ts)

pub buckets-distinct :
    (size : ℕ) (rs : List LogRecord) (ts fs : List (ℕ × ℕ))
    → distinct (keys ts) ≡ true
    → distinct (keys (count_buckets size rs ts fs).0) ≡ true
unfolding count_buckets
buckets-distinct size [] ts fs d = d
buckets-distinct size (r ∷ rs) ts fs d =
    buckets-distinct size rs (increment (bucket_of size r) ts) _
      (increment-distinct (bucket_of size r) ts d)

-- Strictly rising numbers.
unfoldable pub is_rising : List ℕ → Bool
is_rising [] = true
is_rising (b ∷ bs) = every (ltb b) bs && is_rising bs

contains-put_sorted :
    (b c : ℕ) (bs : List ℕ) → contains (put_sorted b bs) c ≡ (b == c || contains bs c)
unfolding put_sorted contains
contains-put_sorted b c [] = refl
contains-put_sorted b c (x ∷ xs) = ground (arith, contains-put_sorted b c xs)

every-put_sorted :
    (n b : ℕ) (bs : List ℕ) → every (ltb n) (put_sorted b bs) ≡ (ltb n b && every (ltb n) bs)
unfolding put_sorted every
every-put_sorted n b [] = refl
every-put_sorted n b (x ∷ xs) = ground (arith, every-put_sorted n b xs)

every-below : (m n : ℕ) (bs : List ℕ) → m ≤ n → every (ltb n) bs ≡ true → every (ltb m) bs ≡ true
unfolding every
every-below m n [] le h = refl
every-below m n (x ∷ xs) le h = ground (arith, every-below m n xs)

put_sorted-rising :
    (b : ℕ) (bs : List ℕ)
    → contains bs b ≡ false
    → is_rising bs ≡ true
    → is_rising (put_sorted b bs) ≡ true
unfolding put_sorted is_rising contains every
put_sorted-rising b [] n h = refl
put_sorted-rising b (x ∷ xs) n h =
    ground (arith, put_sorted-rising b xs, every-put_sorted x b xs, every-below b x xs)

contains-sorted : (c : ℕ) (bs : List ℕ) → contains (sorted bs) c ≡ contains bs c
unfolding sorted contains
contains-sorted c [] = refl
contains-sorted c (b ∷ bs) =
    ground (arith, contains-put_sorted b c (sorted bs), contains-sorted c bs)

sorted-rising : (bs : List ℕ) → distinct bs ≡ true → is_rising (sorted bs) ≡ true
unfolding sorted distinct is_rising
sorted-rising [] d = refl
sorted-rising (b ∷ bs) d =
    ground (arith, put_sorted-rising b (sorted bs), sorted-rising bs, contains-sorted b bs)

abbrev pub starts : List FailureBucket → List ℕ
starts = map (λ b. b.start)

starts-map : (ts fs : List (ℕ × ℕ)) (bs : List ℕ) → starts (map (bucket_at ts fs) bs) ≡ bs
starts-map ts fs [] = refl
starts-map ts fs (b ∷ bs) = ground (arith, starts-map ts fs bs)

-- The bucket that the records give.
abbrev pub bucket_spec : ℕ → List LogRecord → ℕ → FailureBucket
bucket_spec size rs b = record {
  start = b;
  total = length (keep (in_bucket size b) rs);
  failures = length (keep (fails_in size b) rs);
}

length-fails_in :
    (size b : ℕ) (rs : List LogRecord)
    → length (keep (fails_in size b) rs) ≤ length (keep (in_bucket size b) rs)
unfolding keep
length-fails_in size b [] = omega arith
length-fails_in size b (r ∷ rs) = ground (arith, length-fails_in size b rs)

-- A bucket that can be divided by its total.
abbrev pub is_fraction : FailureBucket → Bool
is_fraction b = ltb 0 b.total && leb b.failures b.total

map_spec :
    (size : ℕ) (rs : List LogRecord) (bs : List ℕ)
    → map (bucket_at (count_buckets size rs [] []).0 (count_buckets size rs [] []).1) bs
      ≡ map (bucket_spec size rs) bs
unfolding lookup
map_spec size rs [] = refl
map_spec size rs (b ∷ bs) =
    let (p, q) = buckets_lem size rs [] [] b in
    let p' : count_of b (count_buckets size rs [] []).0 ≡ length (keep (in_bucket size b) rs) =
      omega (arith, p) in
    let q' : count_of b (count_buckets size rs [] []).1 ≡ length (keep (fails_in size b) rs) =
      omega (arith, q) in
    rw (p', q') (ap (◌∷◌ (bucket_spec size rs b)) (map_spec size rs bs))

fractions :
    (size : ℕ) (rs : List LogRecord) (bs : List ℕ)
    → every (λ b. ltb 0 (length (keep (in_bucket size b) rs))) bs ≡ true
    → every is_fraction (map (bucket_spec size rs) bs) ≡ true
unfolding every
fractions size rs [] h = refl
fractions size rs (b ∷ bs) h = ground (arith, fractions size rs bs, length-fails_in size b rs)

every_of_contains :
    (p : ℕ → Bool) (bs : List ℕ) → ((b : ℕ) → contains bs b ≡ true → p b ≡ true) → every p bs ≡ true
unfolding every contains
every_of_contains p [] h = refl
every_of_contains p (b ∷ bs) h =
    let here = h b (ground (arith, ==_refl b)) in
    let rest = every_of_contains p bs (λ c e. h c (ground (arith, e))) in ground arith

-- With buckets of at least a minute there is no division by 0: the buckets are those that a record lies in, once and
-- in their order, each with the number of its records and of the warnings among them; and a rate can be taken of each.
pub failure_rate_over_time_lem :
    (rs : List LogRecord) (minutes : ℕ)
    → 0 < minutes
    → (bs : List FailureBucket) × (failure_rate_over_time rs minutes ≡ some bs)
      × (bs ≡ map (bucket_spec (minutes * 60) rs) (starts bs))
      × (is_rising (starts bs) ≡ true)
      × ((b : ℕ) → contains (starts bs) b ≡ ltb 0 (length (keep (in_bucket (minutes * 60) b) rs)))
      × (every is_fraction bs ≡ true)
unfolding failure_rate_over_time failure_buckets
failure_rate_over_time_lem rs minutes positive =
    let size = minutes * 60 in
    let (totals, failures) = count_buckets size rs [] [] in
    let shown = sorted (keys totals) in
    let bs = map (bucket_at totals failures) shown in
    let same : starts bs ≡ shown = starts-map totals failures shown in
    let listed : (b : ℕ) → contains shown b ≡ ltb 0 (length (keep (in_bucket size b) rs)) = λ b.
      contains-sorted b (keys totals)
      ∙ (contains-keys b totals ∙ unfold lookup in buckets-keys size rs [] [] b) in
    let spec : bs ≡ map (bucket_spec size rs) shown = map_spec size rs shown in
    let positive_totals =
      every_of_contains (λ b. ltb 0 (length (keep (in_bucket size b) rs))) shown
        (λ b e. sym (listed b) ∙ e) in
    (
      bs,
      ground arith,
      rw same spec,
      rw same
          (sorted-rising (keys totals) (buckets-distinct size rs [] [] (unfold distinct in refl))),
      λ b. rw same (listed b),
      rw spec (fractions size rs shown positive_totals),
    )
