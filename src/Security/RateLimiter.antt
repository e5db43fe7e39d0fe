-- ===== src/Security/RateLimiter.antt =====
-- src/tlsocket/security/rate_limiter.py. The monotonic clock is an argument, in ticks of the width that
-- the window is counted in; `t >= now - window` is the test `now ≤ t + window`.
pub mod Ideal
pub mod Bound
use tlsocket.Prelude.{
  ℕ, ◌+◌, Bool, true, false, List, [], ◌∷◌, ◌++◌, if◌then◌else◌, Eq, leb, keep, length, get_or,
}
use tlsocket.Dict.{lookup, insert, remove}

pub record Limiter {ℓ} (K : Type ℓ) : Type ℓ where
  pub max_events : ℕ
  pub window : ℕ
  pub history : List (K × List ℕ)

abbrev pub is_recent : ℕ → ℕ → ℕ → Bool
is_recent window now t = leb now (t + window)

abbrev pub init {ℓ} : {K : Type ℓ} → ℕ → ℕ → Limiter K
init max_events window = record { max_events = max_events; window = window; history = [] }

module _ {ℓ} {K : Type ℓ} ⦃e : Eq K⦄ where
  abbrev pub past : Limiter K → K → List ℕ
  past l key = get_or (lookup key l.history) []

  unfoldable pub allow : Limiter K → K → ℕ → Limiter K × Bool
  allow l key now =
      let recent = keep (is_recent l.window now) (past l key) in
      if leb l.max_events (length recent)
      then (record l { history = insert key recent l.history }, false)
      else (record l { history = insert key (recent ++ now ∷ []) l.history }, true)

  unfoldable pub forget : Limiter K → K → Limiter K
  forget l key = record l { history = remove key l.history }

  unfoldable pub reset : Limiter K → Limiter K
  reset l = record l { history = [] }
