-- ===== src/LogParser/Counter/Laws.antt =====
-- A counter and the things that were counted.
use tlsocket.Prelude.{ℕ, ◌+◌, ◌≡◌, true, List, arith, if◌then◌else◌, Eq, ◌==◌, distinct}
use tlsocket.Dict.{keys}
use tlsocket.Dict.Laws.{lookup-insert}
use tlsocket.Dict.Keys.{insert-distinct}
use tlsocket.LogParser.Counter.{count_of, increment}

module _ {ℓ} {K : Type ℓ} ⦃e : Eq K⦄ where
  pub count_of-increment :
      (k j : K) (c : List (K × ℕ))
      → count_of j (increment k c) ≡ (if k == j then count_of j c + 1 else count_of j c)
  unfolding increment
  count_of-increment k j c = ground (arith, lookup-insert k j (count_of k c + 1) c, e.beq_iff k j)

  pub increment-distinct :
      (k : K) (c : List (K × ℕ)) → distinct (keys c) ≡ true → distinct (keys (increment k c)) ≡ true
  unfolding increment
  increment-distinct k c h = insert-distinct k _ c h
