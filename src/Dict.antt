-- ===== src/Dict.antt =====
-- Python's `dict`: an association list in the order of insertion. An assignment to a key that is
-- there keeps its place; `pop` and `del` drop it. The laws are in the children.
pub mod Laws
pub mod Keys
use tlsocket.Prelude.{
  ℕ, Bool, Option, none, some, List, [], ◌∷◌, map, if◌then◌else◌, Eq, ◌==◌, is_some, get_or, length,
}

module _ {ℓ κ} {K : Type ℓ} {V : Type κ} where
  abbrev pub keys : List (K × V) → List K
  keys = map (λ e. e.0)

module _ {ℓ κ} {K : Type ℓ} {V : Type κ} ⦃e : Eq K⦄ where
  -- d.get(k)
  unfoldable pub lookup : K → List (K × V) → Option V
  lookup k [] = none
  lookup k ((j, v) ∷ d) = if j == k then some v else lookup k d

  -- k in d
  abbrev pub has : K → List (K × V) → Bool
  has k d = is_some (lookup k d)

  -- d[k] = v
  unfoldable pub insert : K → V → List (K × V) → List (K × V)
  insert k v [] = (k, v) ∷ []
  insert k v ((j, w) ∷ d) = if j == k then (j, v) ∷ d else (j, w) ∷ insert k v d

  -- d.pop(k, None), del d[k]
  unfoldable pub remove : K → List (K × V) → List (K × V)
  remove k [] = []
  remove k ((j, w) ∷ d) = let rest = remove k d in if j == k then rest else (j, w) ∷ rest
