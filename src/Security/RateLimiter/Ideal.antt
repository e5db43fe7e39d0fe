-- ===== src/Security/RateLimiter/Ideal.antt =====
-- The limiter against one that forgets nothing: a call is allowed when fewer than `max_events` of the
-- calls allowed before it, for its key, lie within the window.
use tlsocket.Prelude.{
  ℕ, ◌≤◌, Bool, true, false, ◌≡◌, refl, List, [], ◌∷◌, ◌++◌, arith, if◌then◌else◌, Eq, leb, keep,
  length, ◌==◌, Bool-cases, inl, inr, ltb, append-nil,
}
use tlsocket.Dict.{lookup}
use tlsocket.Dict.Laws.{lookup-insert}
use tlsocket.Security.RateLimiter.{Limiter, is_recent, init, past, allow}

module _ {ℓ} {A : Type ℓ} where
  pub keep-append : (p : A → Bool) (xs ys : List A) → keep p (xs ++ ys) ≡ keep p xs ++ keep p ys
  unfolding keep
  keep-append p [] ys = refl
  keep-append p (x ∷ xs) ys = ground (arith, keep-append p xs ys)

-- what a later window keeps, an earlier one has kept
keep-keep_recent :
    (w now later : ℕ) (ts : List ℕ)
    → now ≤ later
    → keep (is_recent w later) (keep (is_recent w now) ts) ≡ keep (is_recent w later) ts
unfolding keep
keep-keep_recent w now later [] h = refl
keep-keep_recent w now later (t ∷ ts) h = ground (arith, keep-keep_recent w now later ts)

module _ {ℓ} {K : Type ℓ} ⦃e : Eq K⦄ where
  -- The times of the allowed calls of a key.
  unfoldable pub times : K → List (K × ℕ) → List ℕ
  times k [] = []
  times k ((j, t) ∷ log) = let rest = times k log in if j == k then t ∷ rest else rest

  unfoldable pub ideal_allow : ℕ → ℕ → List (K × ℕ) → K → ℕ → Bool
  ideal_allow max_events window log key now =
      ltb (length (keep (is_recent window now) (times key log))) max_events

  -- The verdicts of the limiter on a sequence of calls, and those of the ideal.
  unfoldable pub run : Limiter K → List (K × ℕ) → List Bool
  run l [] = []
  run l ((k, now) ∷ calls) = (allow l k now).1 ∷ run (allow l k now).0 calls

  unfoldable pub ideal_run : ℕ → ℕ → List (K × ℕ) → List (K × ℕ) → List Bool
  ideal_run m w log [] = []
  ideal_run m w log ((k, now) ∷ calls) =
      ideal_allow m w log k now
      ∷ ideal_run m w (if ideal_allow m w log k now then log ++ (k, now) ∷ [] else log) calls

  -- The clock does not go back.
  abbrev pub InOrder : ℕ → List (K × ℕ) → Type 0
  InOrder from [] = Unit
  InOrder from ((k, now) ∷ calls) = (from ≤ now) × InOrder now calls

  abbrev pub Tracks : Limiter K → List (K × ℕ) → ℕ → Type ℓ
  Tracks l log from =
      (k : K) (now : ℕ)
      → from ≤ now
      → keep (is_recent l.window now) (past l k) ≡ keep (is_recent l.window now) (times k log)

  times-append :
      (k j : K) (t : ℕ) (log : List (K × ℕ))
      → times k (log ++ (j, t) ∷ []) ≡ times k log ++ (if j == k then t ∷ [] else [])
  unfolding times
  times-append k j t [] = refl
  times-append k j t ((i, s) ∷ log) = ground (arith, times-append k j t log)

  verdict-eq :
      (l : Limiter K) (log : List (K × ℕ)) (k : K) (now : ℕ)
      → Tracks l log now
      → (allow l k now).1 ≡ ideal_allow l.max_events l.window log k now
  unfolding allow ideal_allow
  verdict-eq l log k now h = ground (arith, h k now (omega arith))

  pub settings-allow :
      (l : Limiter K) (k : K) (now : ℕ)
      → ((allow l k now).0.window ≡ l.window) × ((allow l k now).0.max_events ≡ l.max_events)
  unfolding allow
  settings-allow l k now = ground arith

  pub past-allow :
      (l : Limiter K) (k j : K) (now : ℕ)
      → past (allow l k now).0 j ≡ (
          if k == j
          then keep (is_recent l.window now) (past l k)
            ++ (if (allow l k now).1 then now ∷ [] else [])
          else past l j)
  unfolding allow
  past-allow l k j now =
      elim (Bool-cases (leb l.max_events (length (keep (is_recent l.window now) (past l k))))) [
        | inl full ↦ rw full (simp (lookup-insert, append-nil) (ground arith))
        | inr room ↦ rw room (simp lookup-insert (ground arith))
      ]

  -- what the log becomes, by the verdict
  abbrev pub note : Bool → List (K × ℕ) → K → ℕ → List (K × ℕ)
  note allowed log k now = if allowed then log ++ (k, now) ∷ [] else log

  times-note :
      (b : Bool) (log : List (K × ℕ)) (k j : K) (now : ℕ)
      → times j (note b log k now)
        ≡ times j log ++ (if k == j then (if b then now ∷ [] else []) else [])
  times-note true log k j now = times-append j k now log
  times-note false log k j now = ground (arith, append-nil (times j log))

  pub allow-Tracks :
      (l : Limiter K) (log : List (K × ℕ)) (k : K) (now : ℕ)
      → Tracks l log now
      → Tracks (allow l k now).0 (note (allow l k now).1 log k now) now
  allow-Tracks l log k now h j later le =
      rw
        ((settings-allow l k now).0, past-allow l k j now, times-note (allow l k now).1 log k j now)
        (elim (Bool-cases (k == j)) [
          | inl same ↦ rw (
            same,
            keep-append,
            keep-append,
            keep-keep_recent l.window now later (past l k) le,
            h k later le,
            (e.beq_iff k j).0 same,
          )
          | inr other ↦ rw (other, append-nil) (h j later le)
        ])

  -- The verdicts are those of the limiter that forgets nothing.
  run-ideal :
      (l : Limiter K) (log : List (K × ℕ)) (from : ℕ) (calls : List (K × ℕ))
      → InOrder from calls
      → Tracks l log from
      → run l calls ≡ ideal_run l.max_events l.window log calls
  unfolding run ideal_run
  run-ideal l log from [] o h = refl
  run-ideal l log from ((k, now) ∷ calls) o h =
      let here : Tracks l log now = λ j later le. h j later (omega arith) in
      rw (
        ← verdict-eq l log k now here,
        run-ideal (allow l k now).0 (note (allow l k now).1 log k now) now calls o.1
            (allow-Tracks l log k now here),
        (settings-allow l k now).0,
        (settings-allow l k now).1,
      )

  pub init-Tracks : (m w : ℕ) → Tracks (init m w) [] 0
  unfolding lookup times
  init-Tracks m w k now le = refl

  -- On calls whose times do not go back, a fresh limiter gives call by call the verdict of the limiter
  -- that forgets nothing: allowed exactly when fewer than `m` allowed calls of the key lie within the
  -- window.
  pub run-eq-ideal_run :
      (m w : ℕ) (calls : List (K × ℕ))
      → InOrder 0 calls
      → run (init m w) calls ≡ ideal_run m w [] calls
  run-eq-ideal_run m w calls o = run-ideal (init m w) [] 0 calls o (init-Tracks m w)
