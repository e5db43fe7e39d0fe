-- ===== src/Security/RateLimiter/Bound.antt =====
-- How many calls of a key get through in one window.
use tlsocket.Prelude.{
  ℕ, ◌+◌, ◌≤◌, List, [], ◌∷◌, arith, if◌then◌else◌, Eq, keep, length, length-append, length-keep-le,
  ◌==◌, Bool-cases, inl, inr,
}
use tlsocket.Dict.{lookup}
use tlsocket.Security.RateLimiter.{Limiter, is_recent, init, past, allow}
use tlsocket.Security.RateLimiter.Ideal.{
  times, InOrder, Tracks, note, settings-allow, past-allow, allow-Tracks, init-Tracks,
}

module _ {ℓ} {K : Type ℓ} ⦃e : Eq K⦄ where
  abbrev IsBounded : Limiter K → Type ℓ
  IsBounded l = (k : K) → length (past l k) ≤ l.max_events

  recent_room :
      (l : Limiter K) (k : K) (now : ℕ)
      → length (past l k) ≤ l.max_events
      → length (keep (is_recent l.window now) (past l k))
          + length (if (allow l k now).1 then now ∷ [] else [])
        ≤ l.max_events
  unfolding allow
  recent_room l k now h = ground (arith, length-keep-le (is_recent l.window now) (past l k))

  allow-IsBounded : (l : Limiter K) (k : K) (now : ℕ) → IsBounded l → IsBounded (allow l k now).0
  allow-IsBounded l k now h j =
      rw (past-allow l k j now, (settings-allow l k now).1)
        (elim (Bool-cases (k == j)) [
          | inl same ↦ rw (same, length-append) (recent_room l k now (h k))
          | inr other ↦ rw other (h j)
        ])

  -- The calls that were allowed, with their times, after those of `log`.
  unfoldable pub granted : Limiter K → List (K × ℕ) → List (K × ℕ) → List (K × ℕ)
  granted l log [] = log
  granted l log ((k, now) ∷ calls) =
      granted (allow l k now).0 (note (allow l k now).1 log k now) calls

  -- The time of the last call.
  abbrev pub last_time : ℕ → List (K × ℕ) → ℕ
  last_time from [] = from
  last_time from ((k, now) ∷ calls) = last_time now calls

  granted_bound :
      (l : Limiter K) (log : List (K × ℕ)) (from : ℕ) (calls : List (K × ℕ)) (k : K) (now : ℕ)
      → InOrder from calls
      → last_time from calls ≤ now
      → Tracks l log from
      → IsBounded l
      → length (keep (is_recent l.window now) (times k (granted l log calls))) ≤ l.max_events
  unfolding granted
  granted_bound l log from [] k now o le t b =
      rw (← t k now le) (omega (arith, length-keep-le (is_recent l.window now) (past l k), b k))
  granted_bound l log from ((j, s) ∷ calls) k now o le t b =
      let rest =
        granted_bound (allow l j s).0 (note (allow l j s).1 log j s) s calls k now o.1 le
          (allow-Tracks l log j s (λ i later le'. t i later (omega arith)))
          (allow-IsBounded l j s b) in
      rw ((settings-allow l j s).0, (settings-allow l j s).1) at rest

  -- Whatever the calls, if their times do not go back, at any time from the last call on at most `m` of
  -- the calls that were allowed for a key lie within the window.
  pub granted-le-max :
      (m w : ℕ) (calls : List (K × ℕ)) (k : K) (now : ℕ)
      → InOrder 0 calls
      → last_time 0 calls ≤ now
      → length (keep (is_recent w now) (times k (granted (init m w) [] calls))) ≤ m
  unfolding lookup
  granted-le-max m w calls k now o le =
      granted_bound (init m w) [] 0 calls k now o le (init-Tracks m w) (λ j. omega arith)
