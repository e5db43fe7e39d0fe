-- ===== src/Dict/Laws.antt =====
-- What a dictionary holds after a write or a deletion, and how many entries.
use tlsocket.Prelude.{
  ◌≤◌, ◌<◌, ◌≡◌, refl, none, some, List, [], ◌∷◌, arith, if◌then◌else◌, Eq, ◌==◌, length, ==_refl,
}
use tlsocket.Dict.{lookup, insert, remove}

module _ {ℓ κ} {K : Type ℓ} {V : Type κ} ⦃e : Eq K⦄ where
  pub lookup-insert :
      (k j : K) (v : V) (d : List (K × V))
      → lookup j (insert k v d) ≡ (if k == j then some v else lookup j d)
  unfolding lookup insert
  lookup-insert k j v [] = refl
  lookup-insert k j v ((i, w) ∷ d) =
      ground (arith, e.beq_iff k j, e.beq_iff i k, e.beq_iff i j, lookup-insert k j v d)

  pub lookup-remove :
      (k j : K) (d : List (K × V)) → lookup j (remove k d) ≡ (if k == j then none else lookup j d)
  unfolding lookup remove
  lookup-remove k j [] = ground arith
  lookup-remove k j ((i, w) ∷ d) =
      ground (arith, e.beq_iff k j, e.beq_iff i k, e.beq_iff i j, lookup-remove k j d)

  pub lookup-insert_self : (k : K) (v : V) (d : List (K × V)) → lookup k (insert k v d) ≡ some v
  lookup-insert_self k v d = simp (lookup-insert, ==_refl)

  pub length-remove-le : (k : K) (d : List (K × V)) → length (remove k d) ≤ length d
  unfolding remove
  length-remove-le k [] = omega arith
  length-remove-le k ((i, w) ∷ d) = ground (arith, length-remove-le k d)

  pub length-remove-lt :
      (k : K) (d : List (K × V)) {v : V} → lookup k d ≡ some v → length (remove k d) < length d
  unfolding remove lookup
  length-remove-lt k [] h = cc
  length-remove-lt k ((i, w) ∷ d) {v} h =
      ground (arith, length-remove-le k d, length-remove-lt k d {v = v})

  pub remove_absent : (k : K) (d : List (K × V)) → lookup k d ≡ none → remove k d ≡ d
  unfolding remove lookup
  remove_absent k [] h = refl
  remove_absent k ((i, w) ∷ d) h = ground (arith, remove_absent k d)

pub ruleset dict_laws = (lookup-insert, lookup-remove)
