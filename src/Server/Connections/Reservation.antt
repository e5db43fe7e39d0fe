-- ===== src/Server/Connections/Reservation.antt =====
-- The reservation of a name through the lines of an authentication.
use tlsocket.Prelude.{
  ℕ, Bool, true, false, ◌||◌, ◌≡◌, refl, ◌∙◌, Option, none, some, [], arith, ◌==◌, text_eq, nat_eq,
  text_beq_iff, contains, Bool-cases, Option-cases, inl, inr, if_both,
}
use tlsocket.Text.{Text, Unicode, codes, normalise, is_empty, starts_with}
use tlsocket.Text.Strip.{normalise_idem}
use tlsocket.Protocol.{ErrorCode, wrong_auth, already_logged_in, error}
use tlsocket.Protocol
use tlsocket.Security.RateLimiter.{allow}
use tlsocket.Security.BruteForce.{is_ip_blocked}
use tlsocket.Auth.Bans.{get_banned_users}
use tlsocket.Auth.Accounts.Login.{session_sound}
use tlsocket.Auth.Accounts.{
  register, default_role, Hasher, LoginResult, LoginSession, refused, banned, raised, accepted,
  login,
}
use tlsocket.Server.Registry.{ClientRegistry, reserve_username, release_reservation}
use tlsocket.Server.Registry.Names.{contains-discard}
use tlsocket.Server.Cleanup.Terminates.{registry-log_event}
use tlsocket.Server.Connections.{
  Connection, Input, Next, again, leave, enter, raises, log, say, release, refuse_login,
  after_login, clear_reserved, login_reserved, handle_login, handle_register, login_line,
  register_parts, register_line, arguments, refuse_blocked, admitted_line, credential_line,
  authenticate_line, one_line,
}

-- The names pending beside the one that the connection holds are those of `before`, and it is not among them.
abbrev pub is_held : Option Text → Text → Bool
is_held none n = false
is_held (some m) n = m == n

module _ (before : Text → Bool) where
  abbrev pub PendingAre : ClientRegistry → Type 0
  PendingAre r = (n : Text) → contains r.pending_logins n ≡ before n

  pub record IsHolding (o : Option Text) (r : ClientRegistry) : Type 0 where
    pub pending : (n : Text) → contains r.pending_logins n ≡ (is_held o n || before n)
    pub apart : (n : Text) → is_held o n ≡ true → before n ≡ false

  -- what each verdict on a line goes with
  abbrev pub Agrees : Next → Option Text → Type 0
  Agrees again o = o ≡ none
  Agrees leave o = o ≡ none
  Agrees (enter session) o = o ≡ some session.username
  Agrees (raises trouble) o = Unit

  abbrev pub IsStep : Connection × Next → Type 0
  IsStep (c, next) = IsHolding c.reserved c.server.registry × Agrees next c.reserved

  abbrev pub Idle : Connection → Type 0
  Idle c = IsHolding none c.server.registry

  holds_none : (r : ClientRegistry) → PendingAre r → IsHolding none r
  holds_none r h = record { pending = h; apart = λ n e. cc }

  none_held : (r : ClientRegistry) → IsHolding none r → PendingAre r
  none_held r h = h.pending

  registry-log :
      (event username info : Text) (c : Connection)
      → (log event username info c).server.registry ≡ c.server.registry
  unfolding log
  registry-log event username info c = registry-log_event _ c.server

  -- an answer after which nothing is held and the loop goes on
  say-IsStep :
      (client : ℕ) (i : Input) (text event username info : Text) (next : Next) (c : Connection)
      → c.reserved ≡ none
      → Agrees next none
      → IsHolding none c.server.registry
      → IsStep (say client i text (log event username info) next c)
  unfolding say log
  say-IsStep client i text event username info next c e ok h = elim (Bool-cases i.sends) [
    | inl well ↦ rw (well, e, registry-log_event) (h, ok)
    | inr badly ↦ rw (badly, e) (h, tt)
  ]

  release-IsHolding :
      (name : Text) (c : Connection)
      → IsHolding (some name) c.server.registry
      → IsHolding none (release name c).server.registry
  unfolding release release_reservation
  release-IsHolding name c h = record {
    pending = λ n. ground (
      arith,
      contains-discard name n c.server.registry.pending_logins,
      h.pending n,
      h.apart n,
      text_beq_iff name n,
      text_beq_iff n name,
    );
    apart = λ n e. cc;
  }

  refuse_login-IsStep :
      (client : ℕ) (i : Input) (name : Text) (code : ErrorCode) (info : Text) (c : Connection)
      → IsHolding (some name) c.server.registry
      → IsStep (refuse_login client i name code info c)
  unfolding refuse_login
  refuse_login-IsStep client i name code info c h =
      say-IsStep client i _ (codes "LOGIN_FAILED") name info again (release name c)
        (unfold release in refl) refl (release-IsHolding name c h)

  after_login-IsStep :
      (u : Unicode) (client : ℕ) (i : Input) (name : Text) (result : LoginResult) (c : Connection)
      → ((session : LoginSession) → result ≡ accepted session → session.username ≡ name)
      → c.reserved ≡ some name
      → IsHolding (some name) c.server.registry
      → IsStep (after_login u client i name result c)
  unfolding after_login log
  after_login-IsStep u client i name (accepted session) c own e h =
      if_both IsStep (contains (get_banned_users u c.server.bans) name)
        (refuse_login-IsStep client i name Protocol.banned (codes "reason=BANNED") c h)
        (rw (registry-log_event, e, own session refl) (h, refl))
  after_login-IsStep u client i name banned c own e h =
      refuse_login-IsStep client i name Protocol.banned (codes "reason=BANNED") c h
  after_login-IsStep u client i name refused c own e h =
      refuse_login-IsStep client i name wrong_auth [] c h
  after_login-IsStep u client i name raised c own e h = rw e (h, tt)

  reserved-IsHolding :
      (name : Text) (r : ClientRegistry)
      → (reserve_username r name).1 ≡ true
      → IsHolding none r
      → IsHolding (some name) (reserve_username r name).0
  unfolding reserve_username contains
  reserved-IsHolding name r free h = record {
    pending = λ n. ground (arith, h.pending n);
    apart = λ n e. ground (arith, h.pending n, text_beq_iff name n);
  }

  taken-IsStep :
      (client : ℕ) (i : Input) (text event name info : Text) (c : Connection)
      → c.reserved ≡ none
      → Idle c
      → IsStep (say client i text (λ d. clear_reserved (log event name info d)) again c)
  unfolding say log clear_reserved
  taken-IsStep client i text event name info c e h = elim (Bool-cases i.sends) [
    | inl well ↦ rw (well, registry-log_event) (h, refl)
    | inr badly ↦ rw (badly, e) (h, tt)
  ]

  handle_login-IsStep :
      (u : Unicode) (h : Hasher) (client : ℕ) (i : Input) (username password : Text)
      (c : Connection)
      → c.reserved ≡ none
      → Idle c
      → IsStep (handle_login u h client i username password c)
  unfolding handle_login login_reserved
  handle_login-IsStep u h client i username password c e idle =
      let name = normalise u username in
      elim (Bool-cases (reserve_username c.server.registry name).1) [
        | inl free ↦ rw free (
            after_login-IsStep u client i name
              (login u h i.salt name password c.server.users c.server.bans).1 _
              (λ session s.
                (session_sound u h i.salt name password c.server.users c.server.bans session s).4
                ∙ normalise_idem u username)
              refl (reserved-IsHolding name c.server.registry free idle))
        | inr taken ↦ rw taken (
            taken-IsStep client i (error already_logged_in []) (codes "LOGIN_FAILED") name
              (codes "reason=ALREADY_LOGGED_IN") c e idle)
      ]

  -- an answer alone
  answer-IsStep :
      (client : ℕ) (i : Input) (text : Text) (c : Connection)
      → c.reserved ≡ none
      → Idle c
      → IsStep (say client i text (λ d. d) again c)
  unfolding say
  answer-IsStep client i text c e h = elim (Bool-cases i.sends) [
    | inl well ↦ rw (well, e) (h, refl)
    | inr badly ↦ rw (badly, e) (h, tt)
  ]

  login_line-IsStep :
      (u : Unicode) (h : Hasher) (client : ℕ) (i : Input) (line : Text) (c : Connection)
      → c.reserved ≡ none
      → Idle c
      → IsStep (login_line u h client i line c)
  unfolding login_line
  login_line-IsStep u h client i line c e idle = elim (Option-cases (arguments line)) [
    | inl short ↦ rw (short, login_line) (answer-IsStep client i _ c e idle)
    | inr ((username, password), found) ↦
        rw (found, login_line) (handle_login-IsStep u h client i username password c e idle)
  ]

  handle_register-IsStep :
      (u : Unicode) (h : Hasher) (client : ℕ) (i : Input) (username password : Text)
      (c : Connection)
      → c.reserved ≡ none
      → Idle c
      → IsStep (handle_register u h client i username password c)
  unfolding handle_register
  handle_register-IsStep u h client i username password c e idle =
      if_both IsStep (register u h i.salt username password default_role c.server.users).1
        (say-IsStep client i _ _ _ _ again _ e refl idle)
        (say-IsStep client i _ _ _ _ again _ e refl idle)

  register_line-IsStep :
      (u : Unicode) (h : Hasher) (client : ℕ) (i : Input) (line : Text) (c : Connection)
      → c.reserved ≡ none
      → Idle c
      → IsStep (register_line u h client i line c)
  unfolding register_line register_parts
  register_line-IsStep u h client i line c e idle = elim (Option-cases (arguments line)) [
    | inl short ↦
        rw (short, register_line, register_parts)
          (if_both IsStep (allow c.server.register_limiter c.ip c.server.ticks).1
            (say-IsStep client i _ _ _ _ again _ e refl idle)
            (say-IsStep client i _ _ _ _ again _ e refl idle))
    | inr ((username, password), found) ↦
        rw (found, register_line, register_parts)
          (if_both IsStep (allow c.server.register_limiter c.ip c.server.ticks).1
            (handle_register-IsStep u h client i username password _ e idle)
            (say-IsStep client i _ _ _ _ again _ e refl idle))
  ]

  refuse_blocked-IsStep :
      (client : ℕ) (i : Input) (c : Connection)
      → c.reserved ≡ none
      → Idle c
      → IsStep (refuse_blocked client i c)
  unfolding refuse_blocked
  refuse_blocked-IsStep client i c e h = say-IsStep client i _ _ _ _ leave _ e refl h

  credential_line-IsStep :
      (u : Unicode) (h : Hasher) (client : ℕ) (i : Input) (line : Text) (c : Connection)
      → c.reserved ≡ none
      → Idle c
      → IsStep (credential_line u h client i line c)
  unfolding credential_line admitted_line
  credential_line-IsStep u h client i line c e idle =
      if_both IsStep (is_ip_blocked c.server.detector c.ip c.server.clock).1
        (refuse_blocked-IsStep client i _ e idle)
        (if_both IsStep (starts_with (codes "LOGIN ") line)
          (login_line-IsStep u h client i line _ e idle)
          (if_both IsStep (starts_with (codes "REGISTER ") line)
            (register_line-IsStep u h client i line _ e idle)
            (say-IsStep client i _ _ _ _ again _ e refl idle)))

  -- One line, from a connection that holds no name.
  pub one_line-IsStep :
      (u : Unicode) (h : Hasher) (client : ℕ) (i : Input) (c : Connection)
      → c.reserved ≡ none
      → Idle c
      → IsStep (one_line u h client i c)
  unfolding one_line authenticate_line
  one_line-IsStep u h client i c e idle = elim (Option-cases i.line) [
    | inl ended ↦ rw (ended, e, one_line) (idle, refl)
    | inr (line, got) ↦
        rw (got, one_line)
          (if_both IsStep (is_empty line) (rw e (idle, refl)) (
            if_both IsStep (line == codes "PING") (answer-IsStep client i _ c e idle) (
              if_both IsStep (starts_with (codes "CLIENT_IP ") line)
                (answer-IsStep client i _ c e idle)
                (credential_line-IsStep u h client i line c e idle))))
  ]
