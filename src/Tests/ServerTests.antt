-- ===== src/Tests/ServerTests.antt =====
-- The events, the broadcasts and the handling of messages.
use tlsocket.Prelude.{
  ◌≤◌, ◌≡◌, true, refl, none, some, List, [], ◌∷◌, ◌++◌, contains, text_eq, nat_eq, text_beq,
  is_some,
}
use tlsocket.Dict.{lookup}
use tlsocket.Text.{codes}
use tlsocket.Security.BruteForce
use tlsocket.Server.Registry.{ClientRegistry, init, add}
use tlsocket.Server.Registry.Names.{IsConsistent, init-IsConsistent, add-IsConsistent}
use tlsocket.Server.Registry.Slots.{IsCounted, init-IsCounted}
use tlsocket.Server.State.{Server}
use tlsocket.Server.Events.{Event, event_of, log_event, alert_lines}
use tlsocket.Server.Events.Routing.{unrouted, lines_for, alerts_for, log-log_event, unrouted_events}
use tlsocket.Server.Cleanup.{broadcast_fuel, broadcast, enough, disconnect}
use tlsocket.Server.Cleanup.Terminates.{online, broadcast_ends}
use tlsocket.Server.Cleanup.Effects.{disconnect_frees}
use tlsocket.Auth.Rbac
use tlsocket.Auth.Rbac.{has_permission, user_permissions, moderator_permissions}
use tlsocket.Prelude.{text_beq, false}
use tlsocket.Dict.{insert}
use tlsocket.Server.Registry.{Session, get_session}
use tlsocket.Server.Messages.{handle_messages, handle_line, Heard}
use tlsocket.Server.Messages.Rights.{bans_need_permission, roles_need_permission}
use tlsocket.Server.Messages.Invariants.{handle_messages_invariants}
use tlsocket.Server.Messages.{handle_kick, handle_ban, handle_unban}
use tlsocket.Server.Messages.Ranks.{IsSpared, rank_protects}
use tlsocket.Server.Cleanup.{target_role, session_role}
use tlsocket.Server.Registry.{find_by_name}
use tlsocket.Text.{normalise, strip, rstrip, lstrip, is_space, ascii_lower}
use tlsocket.Auth.Rbac.{can_act_on, role_rank}
use tlsocket.Prelude.{◌++◌}
use tlsocket.Tests.Fixtures.{ascii_unicode, bob, server_of}

-- bob is online on socket 1
abbrev with_bob : ClientRegistry
with_bob = add (init 5 100) 1 (record { username = bob; role = codes "user" })

with_bob-IsConsistent : IsConsistent with_bob
with_bob-IsConsistent =
    add-IsConsistent (init 5 100) 1 (record { username = bob; role = codes "user" })
      (unfold lookup in refl) (unfold lookup in refl) (init-IsConsistent 5 100)

with_bob-IsCounted : IsCounted with_bob
unfolding add
with_bob-IsCounted =
    let h = init-IsCounted 5 100 in
    record { counted = h.counted; bounded = h.bounded; once = h.once; named = h.named }

abbrev running : Server
running = server_of with_bob (BruteForce.init 5 60 10 none)

-- the first failed log-in is one too many
abbrev strict : Server
strict = server_of with_bob (BruteForce.init 1 60 10 none)

abbrev failed : Event
failed = record (event_of (codes "LOGIN_FAILED")) { ip = codes "10.0.0.1" }

log-log_event_example :
    (log_event failed strict).log
    ≡ strict.log ++ (lines_for failed ++ alert_lines (alerts_for failed strict))
log-log_event_example = log-log_event failed strict

set_role_unrouted : contains unrouted (codes "SET_ROLE") ≡ true
unfolding contains codes text_beq
set_role_unrouted = refl

unrouted_events_example : (log_event (event_of (codes "SET_ROLE")) running).log ≡ running.log
unrouted_events_example = unrouted_events (event_of (codes "SET_ROLE")) running set_role_unrouted

broadcast_ends_example :
    (broadcast_fuel (enough running) bob none running ≡ some (broadcast bob none running))
    × (online (broadcast bob none running) ≤ online running)
broadcast_ends_example = broadcast_ends bob none running

disconnect_frees_example :
    ((disconnect (codes "out") bob running).1 ≡ is_some (lookup bob running.registry.by_name))
    × (lookup bob (disconnect (codes "out") bob running).0.registry.by_name ≡ none)
    × IsConsistent (disconnect (codes "out") bob running).0.registry
disconnect_frees_example = disconnect_frees (codes "out") bob running with_bob-IsConsistent

abbrev lines : List Heard
lines = ((5, 1), some (codes "MSG hi")) ∷ ((9, 2), some (codes "KICK bob")) ∷ ((9, 3), none) ∷ []

handle_messages_invariants_example :
    IsConsistent (handle_messages ascii_unicode 1 lines running).registry
    × IsCounted (handle_messages ascii_unicode 1 lines running).registry
    × (lookup 1 (handle_messages ascii_unicode 1 lines running).registry.sessions ≡ none)
    × (lookup 1 (handle_messages ascii_unicode 1 lines running).registry.client_ips ≡ none)
handle_messages_invariants_example =
    handle_messages_invariants ascii_unicode 1 lines running with_bob-IsConsistent
      with_bob-IsCounted

abbrev bob_session : Session
bob_session = record { username = bob; role = codes "user" }

bob_there : get_session running.registry 1 ≡ some bob_session
unfolding get_session add insert lookup
bob_there = refl

no_ban : has_permission bob_session.role Rbac.ban ≡ false
unfolding has_permission user_permissions moderator_permissions codes text_beq
no_ban = refl

no_unban : has_permission bob_session.role Rbac.unban ≡ false
unfolding has_permission user_permissions moderator_permissions codes text_beq
no_unban = refl

no_set : has_permission bob_session.role Rbac.set ≡ false
unfolding has_permission user_permissions moderator_permissions codes text_beq
no_set = refl

bans_need_permission_example :
    (handle_line ascii_unicode 1 (codes "BAN alice") running).0.bans ≡ none
bans_need_permission_example =
    bans_need_permission ascii_unicode 1 (codes "BAN alice") running bob_session bob_there no_ban
      no_unban

roles_need_permission_example :
    (handle_line ascii_unicode 1 (codes "SET bob admin") running).0.users ≡ none
roles_need_permission_example =
    roles_need_permission ascii_unicode 1 (codes "SET bob admin") running bob_session bob_there
      no_set

-- alice has the role that bob has
abbrev alices : Session
alices = record { username = codes "alice"; role = codes "user" }

abbrev bob_alone : Server
bob_alone = server_of with_bob (BruteForce.init 5 60 300 none)

bobs_role :
    target_role ascii_unicode (normalise ascii_unicode bob) bob_alone ≡ some (some (codes "user"))
unfolding target_role session_role find_by_name get_session normalise codes lookup add insert
    text_beq strip rstrip lstrip is_space ascii_lower
bobs_role = refl

not_above : can_act_on (codes "user") (codes "user") ≡ false
unfolding can_act_on role_rank codes text_beq
not_above = refl

rank_protects_example :
    IsSpared bob_alone (handle_kick ascii_unicode 2 alices (codes "KICK " ++ bob) bob_alone).0
    × IsSpared bob_alone (handle_ban ascii_unicode 2 alices (codes "BAN " ++ bob) bob_alone).0
    × IsSpared bob_alone (handle_unban ascii_unicode 2 alices (codes "UNBAN " ++ bob) bob_alone).0
rank_protects_example =
    rank_protects ascii_unicode 2 alices bob (codes "user") bob_alone bobs_role not_above
