-- ===== src/Server/Connections/Blocked.antt =====
-- The lines of a blocked address.
use tlsocket.Prelude.{
  ℕ, true, false, ◌≡◌, refl, arith, if◌then◌else◌, ◌==◌, text_eq, nat_eq, Bool-cases, inl, inr,
}
use tlsocket.Text.{Text, Unicode, codes, starts_with}
use tlsocket.Security.BruteForce.{is_ip_blocked}
use tlsocket.Auth.Accounts.{Hasher}
use tlsocket.Server.State.{Server}
use tlsocket.Server.Events.{Event, log_event, feed_detector, route, emit, count}
use tlsocket.Server.Connections.{
  Connection, Input, leave, raises, log, say, refuse_blocked, credential_line, authenticate_line,
}

-- Logging leaves the registry, the accounts and the bans alone.
abbrev SameData : Server → Server → Type 0
SameData s t = (t.registry ≡ s.registry) × (t.users ≡ s.users) × (t.bans ≡ s.bans)

log_event-SameData : (e : Event) (s : Server) → SameData s (log_event e s)
unfolding log_event feed_detector route emit count
log_event-SameData e s = (ground arith, ground arith, ground arith)

refuse_blocked-SameData :
    (client : ℕ) (i : Input) (c : Connection)
    → ((refuse_blocked client i c).1 ≡ (if i.sends then leave else raises i.trouble))
      × SameData c.server (refuse_blocked client i c).0.server
unfolding refuse_blocked say log
refuse_blocked-SameData client i c = elim (Bool-cases i.sends) [
  | inl well ↦ rw (well, refuse_blocked, say) (refl, log_event-SameData _ _)
  | inr badly ↦ rw (badly, refuse_blocked, say) (refl, (refl, refl, refl))
]

-- A line from an address that is blocked at the time, unless it is PING or begins with CLIENT_IP, ends
-- the authentication, by an exception if the answer cannot be sent; the registry, the accounts and the
-- ban list stay as they were.
pub blocked_line :
    (u : Unicode) (h : Hasher) (client : ℕ) (i : Input) (line : Text) (c : Connection)
    → (is_ip_blocked c.server.detector c.ip c.server.clock).1 ≡ true
    → (line == codes "PING") ≡ false
    → starts_with (codes "CLIENT_IP ") line ≡ false
    → ((authenticate_line u h client i line c).1 ≡ (if i.sends then leave else raises i.trouble))
      × ((authenticate_line u h client i line c).0.server.registry ≡ c.server.registry)
      × ((authenticate_line u h client i line c).0.server.users ≡ c.server.users)
      × ((authenticate_line u h client i line c).0.server.bans ≡ c.server.bans)
unfolding authenticate_line credential_line
blocked_line u h client i line c blocked no_ping no_ip =
    let detector = (is_ip_blocked c.server.detector c.ip c.server.clock).0 in
    let looked = record c { server = record c.server { detector = detector } } in
    let (ends, same) = refuse_blocked-SameData client i looked in
    rw (no_ping, no_ip, blocked) (ends, same.0, same.1, same.2)
