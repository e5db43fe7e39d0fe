-- ===== src/LogParser/Counter.antt =====
-- Python's `Counter`: a dictionary of counts, a missing key counting 0, and its `most_common`, the entries by
-- falling count, those of equal count in the order of insertion.
pub mod Laws
pub mod Ranking
use tlsocket.Prelude.{ℕ, ◌+◌, List, [], ◌∷◌, if◌then◌else◌, Eq, leb, get_or, take}
use tlsocket.Dict.{lookup, insert}

module _ {ℓ} {K : Type ℓ} ⦃e : Eq K⦄ where
  -- c[k]
  abbrev pub count_of : K → List (K × ℕ) → ℕ
  count_of k c = get_or (lookup k c) 0

  -- c[k] += 1
  unfoldable pub increment : K → List (K × ℕ) → List (K × ℕ)
  increment k c = insert k (count_of k c + 1) c

module _ {ℓ} {K : Type ℓ} where
  -- an entry goes before those that count no more than it does
  unfoldable pub rank : K × ℕ → List (K × ℕ) → List (K × ℕ)
  rank x [] = x ∷ []
  rank x (y ∷ ys) = let rest = rank x ys in if leb y.1 x.1 then x ∷ y ∷ ys else y ∷ rest

  unfoldable pub most_common : List (K × ℕ) → List (K × ℕ)
  most_common [] = []
  most_common (x ∷ c) = rank x (most_common c)

  -- c.most_common(n)
  abbrev pub top : ℕ → List (K × ℕ) → List (K × ℕ)
  top n c = take n (most_common c)
