-- ===== src/LogParser/Counter/Ranking.antt =====
-- The order that `most_common` puts the entries in.
use tlsocket.Prelude.{
  ℕ, zero, suc, ◌≤◌, ◌<◌, ◌≡◌, refl, Bool, true, false, ◌&&◌, some, List, [], ◌∷◌, arith,
  if◌then◌else◌, Eq, ◌==◌, leb, distinct, contains, take, every, length,
}
use tlsocket.Dict.{lookup, keys}
use tlsocket.Dict.Keys.{contains-keys}
use tlsocket.LogParser.Counter.{count_of, rank, most_common, top}

module _ {ℓ} {K : Type ℓ} where
  -- Each entry counts at least as much as those behind it.
  unfoldable pub is_falling : List (K × ℕ) → Bool
  is_falling [] = true
  is_falling (x ∷ xs) = every (λ y. leb y.1 x.1) xs && is_falling xs

  every-rank :
      (p : K × ℕ → Bool) (x : K × ℕ) (xs : List (K × ℕ)) → every p (rank x xs) ≡ (p x && every p xs)
  unfolding rank every
  every-rank p x [] = refl
  every-rank p x (y ∷ ys) = ground (arith, every-rank p x ys)

  every-weaken :
      (m n : ℕ) (xs : List (K × ℕ))
      → m ≤ n
      → every (λ y. leb y.1 m) xs ≡ true
      → every (λ y. leb y.1 n) xs ≡ true
  unfolding every
  every-weaken m n [] le h = refl
  every-weaken m n (x ∷ xs) le h = ground (arith, every-weaken m n xs le)

  rank-falling :
      (x : K × ℕ) (xs : List (K × ℕ)) → is_falling xs ≡ true → is_falling (rank x xs) ≡ true
  unfolding rank is_falling every
  rank-falling x [] h = refl
  rank-falling x (y ∷ ys) h = ground (
    arith,
    rank-falling x ys,
    every-rank (λ (z : K × ℕ). leb z.1 y.1) x ys,
    every-weaken y.1 x.1 ys,
  )

  pub most_common-falling : (c : List (K × ℕ)) → is_falling (most_common c) ≡ true
  unfolding most_common is_falling
  most_common-falling [] = refl
  most_common-falling (x ∷ c) = rank-falling x (most_common c) (most_common-falling c)

  length-rank : (x : K × ℕ) (xs : List (K × ℕ)) → length (rank x xs) ≡ suc (length xs)
  unfolding rank
  length-rank x [] = refl
  length-rank x (y ∷ ys) = ground (arith, length-rank x ys)

  pub length-most_common : (c : List (K × ℕ)) → length (most_common c) ≡ length c
  unfolding most_common
  length-most_common [] = refl
  length-most_common (x ∷ c) = ground (arith, length-rank x (most_common c), length-most_common c)

  every-take :
      (p : K × ℕ → Bool) (n : ℕ) (xs : List (K × ℕ))
      → every p xs ≡ true
      → every p (take n xs) ≡ true
  unfolding every
  every-take p zero xs h = refl
  every-take p (suc n) [] h = refl
  every-take p (suc n) (x ∷ xs) h = ground (arith, every-take p n xs)

  take-falling : (n : ℕ) (xs : List (K × ℕ)) → is_falling xs ≡ true → is_falling (take n xs) ≡ true
  unfolding is_falling
  take-falling zero xs h = refl
  take-falling (suc n) [] h = refl
  take-falling (suc n) (x ∷ xs) h =
      ground (arith, take-falling n xs, every-take (λ y. leb y.1 x.1) n xs)

  -- The first `n` entries are shown in their order.
  pub top-falling : (n : ℕ) (c : List (K × ℕ)) → is_falling (top n c) ≡ true
  top-falling n c = take-falling n (most_common c) (most_common-falling c)

  length-take_le : (n : ℕ) (xs : List (K × ℕ)) → length (take n xs) ≤ n
  length-take_le zero xs = omega arith
  length-take_le (suc n) [] = omega arith
  length-take_le (suc n) (x ∷ xs) = omega (arith, length-take_le n xs)

  pub length-top : (n : ℕ) (c : List (K × ℕ)) → length (top n c) ≤ n
  length-top n c = length-take_le n (most_common c)

module _ {ℓ} {K : Type ℓ} ⦃e : Eq K⦄ where
  lookup-rank :
      (k : K) (x : K × ℕ) (xs : List (K × ℕ))
      → contains (keys xs) x.0 ≡ false
      → lookup k (rank x xs) ≡ (if x.0 == k then some x.1 else lookup k xs)
  unfolding rank lookup contains
  lookup-rank k x [] h = refl
  lookup-rank k x (y ∷ ys) h =
      ground (arith, lookup-rank k x ys, e.beq_iff x.0 k, e.beq_iff y.0 k, e.beq_iff y.0 x.0)

  -- The entries are those of the counter.
  pub lookup-most_common :
      (k : K) (c : List (K × ℕ)) → distinct (keys c) ≡ true → lookup k (most_common c) ≡ lookup k c
  unfolding most_common lookup distinct
  lookup-most_common k [] d = refl
  lookup-most_common k (x ∷ c) d = ground (
    arith,
    lookup-rank k x (most_common c),
    lookup-most_common k c,
    lookup-most_common x.0 c,
    contains-keys x.0 c,
    contains-keys x.0 (most_common c),
  )

  le-of_every :
      (n : ℕ) (j : K) (xs : List (K × ℕ)) → every (λ y. leb y.1 n) xs ≡ true → count_of j xs ≤ n
  unfolding every lookup
  le-of_every n j [] h = omega arith
  le-of_every n j (x ∷ xs) h = ground (arith, le-of_every n j xs)

  take_falling :
      (n : ℕ) (k j : K) (xs : List (K × ℕ))
      → is_falling xs ≡ true
      → contains (keys (take n xs)) k ≡ true
      → contains (keys (take n xs)) j ≡ false
      → count_of j xs ≤ count_of k xs
  unfolding is_falling lookup contains
  take_falling zero k j xs f hk hj = cc
  take_falling (suc n) k j [] f hk hj = cc
  take_falling (suc n) k j (x ∷ xs) f hk hj =
      ground (arith, take_falling n k j xs, le-of_every x.1 j xs)

  -- A key among the first `n` counts at least as much as one that is not.
  pub top_lem :
      (n : ℕ) (k j : K) (c : List (K × ℕ))
      → distinct (keys c) ≡ true
      → contains (keys (top n c)) k ≡ true
      → contains (keys (top n c)) j ≡ false
      → count_of j c ≤ count_of k c
  top_lem n k j c d hk hj = ground (
    arith,
    take_falling n k j (most_common c) (most_common-falling c),
    lookup-most_common k c,
    lookup-most_common j c,
  )

  lookup-take :
      (n : ℕ) (k : K) (v : ℕ) (xs : List (K × ℕ))
      → lookup k (take n xs) ≡ some v
      → lookup k xs ≡ some v
  unfolding lookup
  lookup-take zero k v xs h = cc
  lookup-take (suc n) k v [] h = cc
  lookup-take (suc n) k v (x ∷ xs) h = ground (arith, lookup-take n k v xs)

  -- What is shown of a key is its count.
  pub top_sound :
      (n : ℕ) (k : K) (v : ℕ) (c : List (K × ℕ))
      → distinct (keys c) ≡ true
      → lookup k (top n c) ≡ some v
      → lookup k c ≡ some v
  top_sound n k v c d h = ground (arith, lookup-take n k v (most_common c), lookup-most_common k c)

  take_absent :
      (n : ℕ) (k : K) (xs : List (K × ℕ))
      → contains (keys xs) k ≡ false
      → contains (keys (take n xs)) k ≡ false
  unfolding contains
  take_absent zero k xs h = refl
  take_absent (suc n) k [] h = refl
  take_absent (suc n) k (x ∷ xs) h = ground (arith, take_absent n k xs)

  take-distinct :
      (n : ℕ) (xs : List (K × ℕ)) → distinct (keys xs) ≡ true → distinct (keys (take n xs)) ≡ true
  unfolding distinct
  take-distinct zero xs h = refl
  take-distinct (suc n) [] h = refl
  take-distinct (suc n) (x ∷ xs) h = ground (arith, take-distinct n xs, take_absent n x.0 xs)

  keys-rank :
      (k : K) (x : K × ℕ) (xs : List (K × ℕ))
      → contains (keys (rank x xs)) k ≡ contains (keys (x ∷ xs)) k
  unfolding rank contains
  keys-rank k x [] = refl
  keys-rank k x (y ∷ ys) = ground (arith, keys-rank k x ys)

  rank-distinct :
      (x : K × ℕ) (xs : List (K × ℕ))
      → distinct (keys (x ∷ xs)) ≡ true
      → distinct (keys (rank x xs)) ≡ true
  unfolding rank distinct contains
  rank-distinct x [] h = refl
  rank-distinct x (y ∷ ys) h =
      ground (arith, rank-distinct x ys, keys-rank y.0 x ys, e.beq_iff x.0 y.0, e.beq_iff y.0 x.0)

  keys-most_common :
      (k : K) (c : List (K × ℕ)) → contains (keys (most_common c)) k ≡ contains (keys c) k
  unfolding most_common contains
  keys-most_common k [] = refl
  keys-most_common k (x ∷ c) = ground (arith, keys-rank k x (most_common c), keys-most_common k c)

  most_common-distinct :
      (c : List (K × ℕ)) → distinct (keys c) ≡ true → distinct (keys (most_common c)) ≡ true
  unfolding most_common distinct
  most_common-distinct [] h = refl
  most_common-distinct (x ∷ c) h =
      ground
        (arith, rank-distinct x (most_common c), most_common-distinct c, keys-most_common x.0 c)

  -- No key is shown twice.
  pub top-distinct :
      (n : ℕ) (c : List (K × ℕ)) → distinct (keys c) ≡ true → distinct (keys (top n c)) ≡ true
  top-distinct n c d = take-distinct n (most_common c) (most_common-distinct c d)

  take_full :
      (n : ℕ) (k : K) (xs : List (K × ℕ))
      → 0 < count_of k xs
      → contains (keys (take n xs)) k ≡ false
      → length (take n xs) ≡ n
  unfolding lookup contains
  take_full zero k xs some_left out = refl
  take_full (suc n) k [] some_left out = absurd (omega arith)
  take_full (suc n) k (x ∷ xs) some_left out = ground (arith, take_full n k xs)

  -- Where a key that counts is not shown, `n` others are.
  pub top_full :
      (n : ℕ) (k : K) (c : List (K × ℕ))
      → distinct (keys c) ≡ true
      → 0 < count_of k c
      → contains (keys (top n c)) k ≡ false
      → length (top n c) ≡ n
  top_full n k c d some_left out =
      take_full n k (most_common c) (ground (arith, lookup-most_common k c)) out
