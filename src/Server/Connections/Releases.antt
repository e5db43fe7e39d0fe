-- ===== src/Server/Connections/Releases.antt =====
-- The ends of the handler, and the reservations that they leave.
use tlsocket.Prelude.{
  ℕ, Bool, true, false, ◌&&◌, not, ◌≡◌, refl, Option, none, some, List, [], ◌∷◌, arith, text_eq,
  nat_eq, text_beq_iff, contains, Bool-cases, inl, inr, if_both, subst,
}
use tlsocket.Text.{Text, Unicode}
use tlsocket.Auth.Accounts.{Hasher, LoginSession}
use tlsocket.Server.Registry.{
  ClientRegistry, Session, add, send, remove_client, release_ip_slot, release_reservation,
  try_reserve_ip_slot,
}
use tlsocket.Server.Registry.Names.{contains-discard}
use tlsocket.Server.State.{Server}
use tlsocket.Server.Events.{log_event, Event}
use tlsocket.Server.Cleanup.{close}
use tlsocket.Server.Cleanup.Terminates.{registry-log_event}
use tlsocket.Server.Cleanup.Keeps.{IsKept, broadcast-keeps, clean_up_client-keeps}
use tlsocket.Server.Connections.{
  Connection, Input, Next, again, leave, enter, raises, one_line, authenticate, goes_on,
  finally_release, connection_error, enter_chat, finish, turn_away, handle_new_connection, at_time,
  welcome, opened,
}
use tlsocket.Server.Connections.Reservation.{
  is_held, PendingAre, IsHolding, IsStep, Idle, one_line-IsStep,
}

module _ (before : Text → Bool) where
  -- Releasing what is held leaves the names of `before`.
  abbrev Releases : Option Text → ClientRegistry → Type 0
  Releases o r = (n : Text) → (not (is_held o n) && contains r.pending_logins n) ≡ before n

  IsHolding-Releases : (o : Option Text) (r : ClientRegistry) → IsHolding before o r → Releases o r
  IsHolding-Releases o r h n = ground (arith, h.pending n, h.apart n)

  Releases-IsKept : (o : Option Text) → IsKept (Releases o)
  unfolding remove_client release_ip_slot send
  Releases-IsKept o = record {
    on_remove = λ r c h. h;
    on_release = λ r c h n. ground (arith, h n);
    on_send = λ r c m h n. ground (arith, h n);
  }

  finally-PendingAre :
      (o : Option Text) (s : Server)
      → Releases o s.registry
      → PendingAre before (finally_release o s).registry
  unfolding finally_release release_reservation
  finally-PendingAre none s h n = h n
  finally-PendingAre (some name) s h n = ground (
    arith,
    h n,
    contains-discard name n s.registry.pending_logins,
    text_beq_iff n name,
    text_beq_iff name n,
  )

  logged-Releases :
      (o : Option Text) (e : Event) (s : Server)
      → Releases o s.registry
      → Releases o (log_event e s).registry
  logged-Releases o e s h = rw (registry-log_event e s) h

  error-PendingAre :
      (client : ℕ) (trouble : Text) (c : Connection)
      → Releases c.reserved c.server.registry
      → PendingAre before (connection_error client trouble c).registry
  unfolding connection_error
  error-PendingAre client trouble c h = finally-PendingAre c.reserved _ (
      clean_up_client-keeps (Releases c.reserved) (Releases-IsKept c.reserved) client _
        (logged-Releases c.reserved _ c.server h))

  -- `add` gives back the name that is held
  added-PendingAre :
      (client : ℕ) (session : Session) (r : ClientRegistry)
      → IsHolding before (some session.username) r
      → PendingAre before (add r client session)
  unfolding add
  added-PendingAre client session r h n = ground (
    arith,
    contains-discard session.username n r.pending_logins,
    h.pending n,
    h.apart n,
    text_beq_iff n session.username,
    text_beq_iff session.username n,
  )

  PendingAre-Releases :
      (o : Option Text) (r : ClientRegistry)
      → ((n : Text) → is_held o n ≡ true → before n ≡ false)
      → PendingAre before r
      → Releases o r
  PendingAre-Releases o r apart h n = ground (arith, h n, apart n)

  enter_chat-PendingAre :
      (client : ℕ) (session : LoginSession) (c : Connection)
      → IsHolding before (some session.username) c.server.registry
      → c.reserved ≡ some session.username
      → PendingAre before (enter_chat client session c).0.registry
  unfolding enter_chat
  enter_chat-PendingAre client session c h e =
      let r =
        add c.server.registry client
          (record { username = session.username; role = session.role }) in
      let entered =
        added-PendingAre client (record { username = session.username; role = session.role })
          c.server.registry h in
      let kept = Releases-IsKept none in
      let sent : Releases none (send r client (welcome session)).0 =
        kept.on_send r client (welcome session) entered in
      let removed = (remove_client (send r client (welcome session)).0 client).0 in
      let gone : Releases none removed =
        kept.on_remove (send r client (welcome session)).0 client sent in
      if_both (λ (o : Server × Bool). PendingAre before o.0.registry)
        (send r client (welcome session)).1
        (broadcast-keeps (Releases none) kept _ (some client) _ sent)
        (error-PendingAre client _ _ (PendingAre-Releases c.reserved removed (rw e h.apart) gone))

  finish-PendingAre :
      (client : ℕ) (c : Connection) (next : Next)
      → IsStep before (c, next)
      → PendingAre before (finish client (c, next)).0.registry
  unfolding finish
  finish-PendingAre client c (enter session) (h, e) =
      enter_chat-PendingAre client session c
        (subst (λ (o : Option Text). IsHolding before o c.server.registry) e h) e
  finish-PendingAre client c (raises trouble) (h, e) =
      error-PendingAre client trouble c (IsHolding-Releases c.reserved c.server.registry h)
  finish-PendingAre client c leave (h, e) = finally-PendingAre c.reserved _ (
      clean_up_client-keeps (Releases c.reserved) (Releases-IsKept c.reserved) client c.server
        (IsHolding-Releases c.reserved c.server.registry h))
  finish-PendingAre client c again (h, e) = finally-PendingAre c.reserved _ (
      clean_up_client-keeps (Releases c.reserved) (Releases-IsKept c.reserved) client c.server
        (IsHolding-Releases c.reserved c.server.registry h))

  goes_on_idle :
      (c : Connection) (next : Next)
      → goes_on next ≡ true
      → IsStep before (c, next)
      → c.reserved ≡ none
  goes_on_idle c again g (h, e) = e
  goes_on_idle c leave g (h, e) = cc
  goes_on_idle c (enter session) g (h, e) = cc
  goes_on_idle c (raises trouble) g (h, e) = cc

  authenticate-IsStep :
      (u : Unicode) (h : Hasher) (client : ℕ) (inputs : List Input) (c : Connection)
      → c.reserved ≡ none
      → Idle before c
      → IsStep before (authenticate u h client inputs c)
  unfolding authenticate
  authenticate-IsStep u h client [] c e idle = rw e (idle, refl)
  authenticate-IsStep u h client (i ∷ inputs) c e idle =
      let step = one_line u h client i (at_time i c) in
      let ok : IsStep before step = one_line-IsStep before u h client i (at_time i c) e idle in
      elim (Bool-cases (goes_on step.1)) [
        | inl on ↦
            let free = goes_on_idle step.0 step.1 on ok in
            rw on (
              authenticate-IsStep u h client inputs step.0 free
                (subst (λ (o : Option Text). IsHolding before o step.0.server.registry) free ok.0))
        | inr off ↦ rw off ok
      ]

pending-slot :
    (r : ClientRegistry) (client : ℕ) (ip : Text)
    → (try_reserve_ip_slot r client ip).0.pending_logins ≡ r.pending_logins
unfolding try_reserve_ip_slot
pending-slot r client ip = ground arith

-- The registry as it is behind the events that are logged.
opened-Idle :
    (before : Text → Bool) (real_ip : Text) (s : Server)
    → PendingAre before s.registry
    → Idle before (opened real_ip s)
opened-Idle before real_ip s h =
    rw (registry-log_event _ s) (record { pending = h; apart = λ n e. cc })

turn_away-PendingAre :
    (before : Text → Bool) (client : ℕ) (real_ip : Text) (sends : Bool) (s : Server)
    → PendingAre before s.registry
    → PendingAre before (turn_away client real_ip sends s).registry
unfolding turn_away close
turn_away-PendingAre before client real_ip true s h = rw (registry-log_event _ _) h
turn_away-PendingAre before client real_ip false s h = rw (registry-log_event _ _) h

-- However the handler of a connection ends, by an entry into the chat, a refusal, the end of the stream or an
-- exception, the names that are reserved are those of before, if no other connection interferes.
pub handle_new_connection_releases :
    (u : Unicode) (h : Hasher) (client : ℕ) (real_ip : Text) (sends : Bool) (inputs : List Input)
    (s : Server) (n : Text)
    → contains (handle_new_connection u h client real_ip sends inputs s).0.registry.pending_logins n
      ≡ contains s.registry.pending_logins n
unfolding handle_new_connection
handle_new_connection_releases u h client real_ip sends inputs s n =
    let before : Text → Bool = λ m. contains s.registry.pending_logins m in
    let s' = record s { registry = (try_reserve_ip_slot s.registry client real_ip).0 } in
    let same : PendingAre before s'.registry =
      λ m. rw (pending-slot s.registry client real_ip) refl in
    let (c, next) = authenticate u h client inputs (opened real_ip s') in
    if_both (λ (o : Server × Bool). PendingAre before o.0.registry)
      (try_reserve_ip_slot s.registry client real_ip).1
      (finish-PendingAre before client c next (
        authenticate-IsStep before u h client inputs (opened real_ip s') refl
          (opened-Idle before real_ip s' same)))
      (turn_away-PendingAre before client real_ip sends s' same) n
