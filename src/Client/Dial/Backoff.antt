-- ===== src/Client/Dial/Backoff.antt =====
-- How the retries go.
use tlsocket.Prelude.{
  ℕ, zero, suc, ◌+◌, ◌-◌, ◌*◌, ◌^◌, ◌≤◌, ◌<◌, ◌≡◌, ◌⊎◌, inl, inr, refl, ap, ◌∙◌, none, some, List,
  [], ◌∷◌, if◌then◌else◌, leb, map, arith,
}
use Prim.Native.Nat.pow
use tlsocket.Text.{Text}
use tlsocket.Client.Dial.{
  Answer, failed, opened, connected, raised, rejected, connect, Retry, double, attempts,
  connect_with_backoff,
}

abbrev pub delays_of : List Retry → List ℕ
delays_of retries = map (λ (r : Retry). r.delay) retries

-- twice as long each time, up to half a minute
unfoldable pub capped : ℕ → ℕ → ℕ
capped base k = if leb (base * 2 ^ k) 30 then base * 2 ^ k else 30

-- the first k of them, from number i on
unfoldable pub delays_from : ℕ → ℕ → ℕ → List ℕ
delays_from base i zero = []
delays_from base i (suc k) = capped base i ∷ delays_from base (suc i) k

abbrev pub IsRejected : Answer → Type 0
IsRejected a = (detail : Text) × (connect a ≡ rejected detail)

scaled : (base k : ℕ) → base * 2 ^ suc k ≡ base * 2 ^ k * 2
scaled base k = rw (pow.suc 2 k) (omega arith)

double-capped : (base k : ℕ) → double (capped base k) ≡ capped base (suc k)
unfolding double capped
double-capped base k = ground (arith, scaled base k)

connect-cases : (a : Answer) → (connect a ≡ connected) ⊎ ((connect a ≡ raised) ⊎ IsRejected a)
unfolding connect
connect-cases failed = inr (inl refl)
connect-cases (opened none) = inl refl
connect-cases (opened (some line)) = inr (inr (_, refl))

-- the attempt that decides
last_attempt :
    (answers : ℕ → Answer) (m left delay : ℕ)
    → (m - left ≡ m)
      ⊎ ((connect (answers (m - left)) ≡ connected) ⊎ (connect (answers (m - left)) ≡ raised))
    → (delays_of (attempts answers m (suc left) delay).0 ≡ [])
      × ((attempts answers m (suc left) delay).1 ≡ connect (answers (m - left)))
unfolding attempts
last_attempt answers m left delay (inr (inl e)) = rw (e, attempts) (refl, refl)
last_attempt answers m left delay (inr (inr e)) = rw (e, attempts) (refl, refl)
last_attempt answers m left delay (inl top) = elim (connect-cases (answers (m - left))) [
  | inl e ↦ rw (e, attempts) (refl, refl)
  | inr (inl e) ↦ rw (e, attempts) (refl, refl)
  | inr (inr (detail, e)) ↦ rw (e, attempts) (ground (arith, top), ground (arith, top))
]

last_case :
    (answers : ℕ → Answer) (m more n : ℕ)
    → n ≡ m - more
    → (n ≡ m) ⊎ ((connect (answers n) ≡ connected) ⊎ (connect (answers n) ≡ raised))
    → (m - more ≡ m)
      ⊎ ((connect (answers (m - more)) ≡ connected) ⊎ (connect (answers (m - more)) ≡ raised))
last_case answers m more n e h = rw (← e) h

-- a rejected one before it
rejected_attempt :
    (answers : ℕ → Answer) (m left delay : ℕ)
    → IsRejected (answers (m - left))
    → m - left < m
    → (delays_of (attempts answers m (suc left) delay).0
        ≡ delay ∷ delays_of (attempts answers m left (double delay)).0)
      × ((attempts answers m (suc left) delay).1 ≡ (attempts answers m left (double delay)).1)
unfolding attempts
rejected_attempt answers m left delay (detail, e) lt = rw (e, attempts) (ground arith, ground arith)

-- the loop, k attempts before the one that decides
attempts_lem :
    (answers : ℕ → Answer) (m base done k left more delay : ℕ)
    → more ≡ k + left
    → m ≡ done + suc more
    → delay ≡ capped base done
    → ((i : ℕ) → done < i → i ≤ done + k → IsRejected (answers i))
    → (left ≡ 0)
      ⊎ ((connect (answers (suc (done + k))) ≡ connected)
          ⊎ (connect (answers (suc (done + k))) ≡ raised))
    → (delays_of (attempts answers m (suc more) delay).0 ≡ delays_from base done k)
      × ((attempts answers m (suc more) delay).1 ≡ connect (answers (suc (done + k))))
unfolding delays_from
attempts_lem answers m base done zero left more delay em e ed rej last =
    let now : suc (done + 0) ≡ m - more = omega (arith, e) in
    rw now (
      last_attempt answers m more delay (
        last_case answers m more (suc (done + 0)) now (elim last [
          | inl none_left ↦ inl (omega (arith, e, em, none_left))
          | inr ends ↦ inr ends
        ])))
attempts_lem answers m base done (suc k) left zero delay em e ed rej last =
    absurd (omega (arith, em))
attempts_lem answers m base done (suc k) left (suc more) delay em e ed rej last =
    let now : m - suc more ≡ suc done = omega (arith, e) in
    let step =
      rejected_attempt answers m (suc more) delay
        (rw now (rej (suc done) (omega arith) (omega arith))) (omega (arith, e)) in
    let same : suc done + k ≡ done + suc k = omega arith in
    let rest =
      attempts_lem answers m base (suc done) k left more (double delay) (omega (arith, em))
        (omega (arith, e)) (rw ed (double-capped base done))
        (λ i lo hi. rej i (omega (arith, lo)) (omega (arith, hi))) (rw same last) in
    (rw (step.0, rest.0, ed) refl, rw (step.1, rest.1, same) refl)

-- With at least one attempt, from a delay of at most half a minute: if the server rejects k attempts and accepts the
-- next one, and k is below the limit, the client gets its socket at that attempt. It has slept k times, each time twice as
-- long as before and half a minute at the most. If every attempt is rejected, the last one's rejection is raised, and
-- no sleep follows it.
pub connect_with_backoff_lem :
    (answers : ℕ → Answer) (max_retries base k : ℕ)
    → base ≤ 30
    → k < max_retries
    → ((i : ℕ) → 0 < i → i ≤ k → IsRejected (answers i))
    → (suc k ≡ max_retries)
      ⊎ ((connect (answers (suc k)) ≡ connected) ⊎ (connect (answers (suc k)) ≡ raised))
    → (delays_of (connect_with_backoff answers max_retries base).0 ≡ delays_from base 0 k)
      × ((connect_with_backoff answers max_retries base).1 ≡ connect (answers (suc k)))
unfolding connect_with_backoff
connect_with_backoff_lem answers (suc more) base k small lt rej last =
    let none_before : 0 + k ≡ k = omega arith in
    let (delays, ending) =
      attempts_lem answers (suc more) base 0 k (more - k) more base (omega (arith, lt))
        (omega arith) (unfold capped in ground (arith, small, pow.zero 2))
        (λ i lo hi. rej i lo (omega (arith, hi)))
        (rw none_before (elim last [ inl top ↦ inl (omega (arith, top)) | inr ends ↦ inr ends ])) in
    (delays, ending ∙ ap (λ j. connect (answers (suc j))) none_before)
connect_with_backoff_lem answers zero base k small lt rej last = absurd (omega (arith, lt))
