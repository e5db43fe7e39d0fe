-- ===== src/Dict/Keys.antt =====
-- The keys of a dictionary, each of them once.
use tlsocket.Prelude.{
  ◌≡◌, refl, true, List, [], ◌∷◌, arith, Eq, ◌==◌, ◌||◌, is_some, not, ◌&&◌, contains, distinct,
}
use tlsocket.Dict.{lookup, insert, remove, keys}

module _ {ℓ κ} {K : Type ℓ} {V : Type κ} ⦃e : Eq K⦄ where
  pub contains-keys : (k : K) (d : List (K × V)) → contains (keys d) k ≡ is_some (lookup k d)
  unfolding lookup contains
  contains-keys k [] = refl
  contains-keys k ((i, w) ∷ d) = ground (arith, contains-keys k d)

  contains-keys-insert :
      (k j : K) (v : V) (d : List (K × V))
      → contains (keys (insert k v d)) j ≡ (k == j || contains (keys d) j)
  unfolding insert contains
  contains-keys-insert k j v [] = refl
  contains-keys-insert k j v ((i, w) ∷ d) =
      ground (arith, e.beq_iff i k, e.beq_iff i j, e.beq_iff k j, contains-keys-insert k j v d)

  contains-keys-remove :
      (k j : K) (d : List (K × V))
      → contains (keys (remove k d)) j ≡ (not (k == j) && contains (keys d) j)
  unfolding remove contains
  contains-keys-remove k j [] = ground arith
  contains-keys-remove k j ((i, w) ∷ d) =
      ground (arith, e.beq_iff i k, e.beq_iff i j, e.beq_iff k j, contains-keys-remove k j d)

  pub insert-distinct :
      (k : K) (v : V) (d : List (K × V))
      → distinct (keys d) ≡ true
      → distinct (keys (insert k v d)) ≡ true
  unfolding insert contains distinct
  insert-distinct k v [] h = refl
  insert-distinct k v ((i, w) ∷ d) h =
      ground
        (arith, e.beq_iff i k, e.beq_iff k i, contains-keys-insert k i v d, insert-distinct k v d)

  pub remove-distinct :
      (k : K) (d : List (K × V)) → distinct (keys d) ≡ true → distinct (keys (remove k d)) ≡ true
  unfolding remove contains distinct
  remove-distinct k [] h = refl
  remove-distinct k ((i, w) ∷ d) h = ground (arith, contains-keys-remove k i d, remove-distinct k d)
