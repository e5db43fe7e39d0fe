-- ===== src/Prelude/Lists.antt =====
-- Lists measured by native numbers, membership as a test, and filtering by a test.
use Prim.Native.Nat.{ℕ, zero, suc, ◌+◌, ◌≤◌}
use mathlib.Core.Path.{◌≡◌, refl}
use mathlib.Core.List.{List, [], ◌∷◌, ◌++◌}
use mathlib.Core.Bool.{Bool, true, false, not, ◌&&◌, ◌||◌}
use native.Mathlib.Omega.{arith}
use tlsocket.Prelude.Tests.{if◌then◌else◌, Eq, ◌==◌}

module _ {ℓ} {A : Type ℓ} where
  abbrev pub length : List A → ℕ
  length [] = 0
  length (x ∷ xs) = suc (length xs)

  pub length-append : (xs ys : List A) → length (xs ++ ys) ≡ length xs + length ys
  length-append [] ys = omega arith
  length-append (x ∷ xs) ys = omega (arith, length-append xs ys)

  abbrev pub take : ℕ → List A → List A
  take zero xs = []
  take (suc n) [] = []
  take (suc n) (x ∷ xs) = x ∷ take n xs

  -- xs[n:]
  abbrev pub skip : ℕ → List A → List A
  skip zero xs = xs
  skip (suc n) [] = []
  skip (suc n) (x ∷ xs) = skip n xs

  pub skip-append : (xs ys : List A) → skip (length xs) (xs ++ ys) ≡ ys
  skip-append [] ys = refl
  skip-append (x ∷ xs) ys = skip-append xs ys

  -- [x for x in xs if p x]
  unfoldable pub keep : (A → Bool) → List A → List A
  keep p [] = []
  keep p (x ∷ xs) = let rest = keep p xs in if p x then x ∷ rest else rest

  pub length-keep-le : (p : A → Bool) (xs : List A) → length (keep p xs) ≤ length xs
  unfolding keep
  length-keep-le p [] = omega arith
  length-keep-le p (x ∷ xs) = ground (arith, length-keep-le p xs)

  -- all(p x for x in xs)
  unfoldable pub every : (A → Bool) → List A → Bool
  every p [] = true
  every p (x ∷ xs) = p x && every p xs

  pub every-keep : (p : A → Bool) (xs : List A) → every p (keep p xs) ≡ true
  unfolding keep every
  every-keep p [] = refl
  every-keep p (x ∷ xs) = ground (arith, every-keep p xs)

  pub every-append :
      (p : A → Bool) (xs ys : List A) → every p (xs ++ ys) ≡ (every p xs && every p ys)
  unfolding every
  every-append p [] ys = refl
  every-append p (x ∷ xs) ys = ground (arith, every-append p xs ys)

module _ {ℓ} {A : Type ℓ} ⦃e : Eq A⦄ where
  -- a in xs
  unfoldable pub contains : List A → A → Bool
  contains [] a = false
  contains (x ∷ xs) a = x == a || contains xs a

  pub contains-append :
      (xs ys : List A) (a : A) → contains (xs ++ ys) a ≡ (contains xs a || contains ys a)
  unfolding contains
  contains-append [] ys a = refl
  contains-append (x ∷ xs) ys a = ground (arith, contains-append xs ys a)

  pub contains-keep :
      (p : A → Bool) (xs : List A) (a : A) → contains (keep p xs) a ≡ (p a && contains xs a)
  unfolding contains keep
  contains-keep p [] a = ground arith
  contains-keep p (x ∷ xs) a = ground (arith, e.beq_iff x a, contains-keep p xs a)

  -- xs.remove(a): the first occurrence goes
  unfoldable pub remove_first : A → List A → List A
  remove_first a [] = []
  remove_first a (x ∷ xs) = let rest = remove_first a xs in if x == a then xs else x ∷ rest

  -- no element twice
  unfoldable pub distinct : List A → Bool
  distinct [] = true
  distinct (x ∷ xs) = elim (contains xs x) [ true ↦ false | false ↦ distinct xs ]

  pub contains-remove_first :
      (a : A) (xs : List A) (b : A)
      → distinct xs ≡ true
      → contains (remove_first a xs) b ≡ (if a == b then false else contains xs b)
  unfolding contains remove_first distinct
  contains-remove_first a [] b d = ground arith
  contains-remove_first a (x ∷ xs) b d =
      ground (arith, e.beq_iff x a, e.beq_iff x b, e.beq_iff a b, contains-remove_first a xs b)

  pub distinct-append :
      (xs : List A) (a : A)
      → distinct xs ≡ true
      → contains xs a ≡ false
      → distinct (xs ++ a ∷ []) ≡ true
  unfolding distinct contains
  distinct-append [] a d h = refl
  distinct-append (x ∷ xs) a d h =
      ground
        (arith, e.beq_iff x a, e.beq_iff a x, contains-append xs (a ∷ []) x, distinct-append xs a)

  pub distinct-remove_first :
      (a : A) (xs : List A) → distinct xs ≡ true → distinct (remove_first a xs) ≡ true
  unfolding distinct contains remove_first
  distinct-remove_first a [] d = refl
  distinct-remove_first a (x ∷ xs) d =
      ground (arith, contains-remove_first a xs x, distinct-remove_first a xs)

  -- no element of `xs` is in `ys`
  abbrev pub disjoint : List A → List A → Bool
  disjoint xs ys = every (λ x. not (contains ys x)) xs

  pub contains-disjoint :
      (xs ys : List A) (a : A)
      → disjoint xs ys ≡ true
      → contains xs a ≡ true
      → contains ys a ≡ false
  unfolding contains every
  contains-disjoint [] ys a d h = cc
  contains-disjoint (x ∷ xs) ys a d h = ground (arith, e.beq_iff x a, contains-disjoint xs ys a)
