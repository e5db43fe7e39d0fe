-- ===== src/LogParser/Attacks/Leading.antt =====
-- The hours and the users that lead the two rankings.
use tlsocket.Prelude.{
  ℕ, ◌+◌, ◌≤◌, ◌<◌, ◌≡◌, refl, true, false, ◌&&◌, List, [], ◌∷◌, arith, if◌then◌else◌, ◌==◌,
  text_eq, contains, length, keep, distinct, some,
}
use tlsocket.Dict.{lookup, keys}
use tlsocket.Text.{Text}
use tlsocket.Security.BruteForce.{LogRecord}
use tlsocket.LogParser.Counter.{count_of, increment, top}
use tlsocket.LogParser.Counter.Laws.{count_of-increment, increment-distinct}
use tlsocket.LogParser.Counter.Ranking.{
  is_falling, top_lem, top_sound, top_full, top-distinct, top-falling, length-top,
}
use tlsocket.LogParser.Attacks.{
  attack_events, hour_label, count_hours, peak_attack_hours, is_targeted, count_users,
  top_targeted_users,
}

-- An attack in the hour of that label, and a failed log-in that counts against the user.
abbrev pub attacks_in : Text → List LogRecord → ℕ
attacks_in hour rs =
    length (keep (λ r. contains attack_events r.event_type && hour_label r.timestamp == hour) rs)

abbrev pub failures_of : Text → List LogRecord → ℕ
failures_of user rs = length (keep (λ r. is_targeted r && r.username == user) rs)

count_hours_lem :
    (rs : List LogRecord) (c : List (Text × ℕ)) (hour : Text)
    → (count_of hour (count_hours rs c) ≡ count_of hour c + attacks_in hour rs)
unfolding count_hours keep
count_hours_lem [] c hour = omega arith
count_hours_lem (r ∷ rs) c hour = ground (
  arith,
  count_hours_lem rs
      (if contains attack_events r.event_type then increment (hour_label r.timestamp) c else c)
      hour,
  count_of-increment (hour_label r.timestamp) hour c,
)

count_users_lem :
    (rs : List LogRecord) (c : List (Text × ℕ)) (user : Text)
    → (count_of user (count_users rs c) ≡ count_of user c + failures_of user rs)
unfolding count_users keep
count_users_lem [] c user = omega arith
count_users_lem (r ∷ rs) c user = ground (
  arith,
  count_users_lem rs (if is_targeted r then increment r.username c else c) user,
  count_of-increment r.username user c,
)

count_hours-distinct :
    (rs : List LogRecord) (c : List (Text × ℕ))
    → distinct (keys c) ≡ true
    → distinct (keys (count_hours rs c)) ≡ true
unfolding count_hours
count_hours-distinct [] c h = h
count_hours-distinct (r ∷ rs) c h =
    count_hours-distinct rs _ (ground (arith, increment-distinct (hour_label r.timestamp) c))

count_users-distinct :
    (rs : List LogRecord) (c : List (Text × ℕ))
    → distinct (keys c) ≡ true
    → distinct (keys (count_users rs c)) ≡ true
unfolding count_users
count_users-distinct [] c h = h
count_users-distinct (r ∷ rs) c h =
    count_users-distinct rs _ (ground (arith, increment-distinct r.username c))

-- A ranking of at most `n` keys, each once and by falling number: what is shown of a key is its number, a key that is not
-- shown has no greater number than one that is, and where a key that has a number is not shown, `n` others are.
abbrev pub Leads : ℕ → (Text → ℕ) → List (Text × ℕ) → Type 0
Leads n number shown =
    (length shown ≤ n)
    × (distinct (keys shown) ≡ true)
    × (is_falling shown ≡ true)
    × ((k : Text) → 0 < number k → contains (keys shown) k ≡ false → length shown ≡ n)
    × ((k : Text) (v : ℕ) → lookup k shown ≡ some v → v ≡ number k)
    × ((k j : Text)
        → contains (keys shown) k ≡ true
        → contains (keys shown) j ≡ false
        → number j ≤ number k)

leads :
    (n : ℕ) (c : List (Text × ℕ)) (number : Text → ℕ)
    → distinct (keys c) ≡ true
    → ((k : Text) → count_of k c ≡ number k)
    → Leads n number (top n c)
leads n c number d same = (
  length-top n c,
  top-distinct n c d,
  top-falling n c,
  λ k some_left out. top_full n k c d (omega (arith, same k)) out,
  λ k v e. ground (arith, top_sound n k v c d e, same k),
  λ k j hk hj. omega (arith, top_lem n k j c d hk hj, same k, same j),
)

-- The peak hours are at most `n`, each shown once with the number of the attacks in it, by falling number. No hour that is
-- left out had more attacks than one that is shown, and where an hour with an attack is left out, `n` hours are shown.
pub peak_attack_hours-Leads :
    (rs : List LogRecord) (n : ℕ) → Leads n (λ hour. attacks_in hour rs) (peak_attack_hours rs n)
unfolding peak_attack_hours lookup
peak_attack_hours-Leads rs n =
    leads n (count_hours rs []) (λ hour. attacks_in hour rs)
      (count_hours-distinct rs [] (unfold distinct in refl))
      (λ k. omega (arith, count_hours_lem rs [] k))

-- So are the targeted users, with the numbers of the failed log-ins against them.
pub top_targeted_users-Leads :
    (rs : List LogRecord) (n : ℕ) → Leads n (λ user. failures_of user rs) (top_targeted_users rs n)
unfolding top_targeted_users lookup
top_targeted_users-Leads rs n =
    leads n (count_users rs []) (λ user. failures_of user rs)
      (count_users-distinct rs [] (unfold distinct in refl))
      (λ k. omega (arith, count_users_lem rs [] k))
