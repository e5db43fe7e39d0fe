-- ===== src/Tests/Fixtures.antt =====
-- Concrete interpreter tables, hashes, accounts and servers for the tests.
use tlsocket.Prelude.{
  none, ℕ, ◌≡◌, true, false, refl, [], ◌∷◌, ◌++◌, map, arith, ap, ◌∙◌, if◌then◌else◌, every,
  text_eq, ◌==◌, ==_refl,
}
use tlsocket.Text.{
  Text, Unicode, codes, ascii_lower, ascii_upper, is_space, is_empty, lstrip, rstrip, strip,
  starts_with, not_break,
}
use tlsocket.Security.RateLimiter
use tlsocket.Security.BruteForce.{Detector}
use tlsocket.Server.Registry.{ClientRegistry}
use tlsocket.Server.State.{Server}
use tlsocket.Auth.Accounts.{Hasher, Verdict, verified, mismatch, argon2_prefix}

ascii_lower-twice : (c : ℕ) → ascii_lower (ascii_lower c) ≡ ascii_lower c
unfolding ascii_lower
ascii_lower-twice c = ground arith

is_space-ascii_lower : (c : ℕ) → is_space (ascii_lower c) ≡ is_space c
unfolding ascii_lower is_space
is_space-ascii_lower c = ground arith

not_break-ascii_lower : (c : ℕ) → not_break (ascii_lower c) ≡ not_break c
unfolding ascii_lower
not_break-ascii_lower c = ground arith

pub map_twice : (s : Text) → map ascii_lower (map ascii_lower s) ≡ map ascii_lower s
map_twice [] = refl
map_twice (c ∷ s) = ground (arith, map_twice s, ascii_lower-twice c)

pub is_empty-map : (s : Text) → is_empty (map ascii_lower s) ≡ is_empty s
unfolding is_empty
is_empty-map [] = refl
is_empty-map (c ∷ s) = refl

lstrip-map : (s : Text) → lstrip (map ascii_lower s) ≡ map ascii_lower (lstrip s)
unfolding lstrip
lstrip-map [] = refl
lstrip-map (c ∷ s) = ground (arith, lstrip-map s, is_space-ascii_lower c)

rstrip-map : (s : Text) → rstrip (map ascii_lower s) ≡ map ascii_lower (rstrip s)
unfolding rstrip
rstrip-map [] = refl
rstrip-map (c ∷ s) = ground (arith, rstrip-map s, is_space-ascii_lower c, is_empty-map (rstrip s))

pub strip-map : (s : Text) → strip (map ascii_lower s) ≡ map ascii_lower (strip s)
unfolding strip
strip-map s = rw (lstrip-map s, rstrip-map (lstrip s)) refl

pub line-map : (s : Text) → every not_break s ≡ true → every not_break (map ascii_lower s) ≡ true
unfolding every
line-map [] h = refl
line-map (c ∷ s) h = ground (arith, line-map s, not_break-ascii_lower c)

-- The case of ASCII letters alone.
abbrev pub ascii_unicode : Unicode
ascii_unicode = record {
  lower = map ascii_lower;
  upper = map ascii_upper;
  decode = λ s. s;
  lower_ascii = λ s h. refl;
  upper_ascii = λ s h. refl;
  lower_lower = map_twice;
  strip_lower = λ s h. strip-map s ∙ ap (map ascii_lower) h;
  empty_lower = is_empty-map;
  lower_line = line-map;
  decode_ascii = λ s h. refl;
}

pub prefix_append : (p s : Text) → starts_with p (p ++ s) ≡ true
unfolding starts_with
prefix_append [] s = refl
prefix_append (c ∷ p) s = ground (arith, prefix_append p s)

-- A hash that is the password behind the prefix.
abbrev pub plain_hash : ℕ → Text → Text
plain_hash salt p = argon2_prefix ++ p

unfoldable pub plain_verify : Text → Text → Verdict
plain_verify h p = if h == argon2_prefix ++ p then verified else mismatch

pub plain_verify-hash : (salt : ℕ) (p : Text) → plain_verify (plain_hash salt p) p ≡ verified
unfolding plain_verify
plain_verify-hash salt p = rw (==_refl (argon2_prefix ++ p)) refl

abbrev pub plain_hasher : Hasher
plain_hasher = record {
  hash = plain_hash;
  verify = plain_verify;
  check_needs_rehash = λ h. false;
  sha256_hex = λ s. codes "x";
  hash_prefix = λ salt p. prefix_append argon2_prefix p;
  verify_hash = plain_verify-hash;
  fresh_hash = λ salt p. refl;
}

abbrev pub bob : Text
bob = codes "bob"

abbrev pub alice : Text
alice = codes "alice"

-- A server that has just started, with a registry and a detector.
abbrev pub server_of : ClientRegistry → Detector → Server
server_of registry detector = record {
  registry = registry;
  message_limiter = RateLimiter.init 10 10;
  register_limiter = RateLimiter.init 5 60;
  detector = detector;
  users = none;
  bans = none;
  metrics = record {
    connections_total = 0;
    logins_success = 0;
    logins_failed = 0;
    registrations_success = 0;
    registrations_failed = 0;
    messages_total = 0;
  };
  log = [];
  written = [];
  closed = [];
  clock = 0;
  ticks = 0;
}
