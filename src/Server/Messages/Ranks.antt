-- ===== src/Server/Messages/Ranks.antt =====
-- The order of the roles in the commands on a name.
use tlsocket.Prelude.{
  ℕ, false, ◌≡◌, refl, ◌∙◌, not, Option, some, ◌++◌, text_eq, nat_eq, arith, if_both,
}
use tlsocket.Dict.{lookup}
use tlsocket.Text.{Text, Unicode, codes, drop, is_empty, normalise}
use tlsocket.Auth.Rbac
use tlsocket.Auth.Rbac.{has_permission, can_act_on}
use tlsocket.Server.Registry.{Session, send}
use tlsocket.Server.State.{Server}
use tlsocket.Server.Events.{Event, log_event}
use tlsocket.Server.Cleanup.{send_to, target_role}
use tlsocket.Server.Cleanup.Terminates.{registry-log_event}
use tlsocket.Server.Messages.{
  Outcome, deny_permission, deny_rank, outranked, ranked, kick_allowed, ban_allowed, unban_allowed,
  handle_kick, handle_ban, handle_unban,
}
use tlsocket.Server.Messages.Files.{log_event-HasFiles}

-- Everybody who was online still is, and the files are as they were.
abbrev pub IsSpared : Server → Server → Type 0
IsSpared s t =
    ((n : Text) → lookup n t.registry.by_name ≡ lookup n s.registry.by_name)
    × (t.bans ≡ s.bans)
    × (t.users ≡ s.users)

by_name-log_event : (e : Event) (s t : Server) → IsSpared s t → IsSpared s (log_event e t)
by_name-log_event e s t (names, bans, users) =
    let (bans', users') = log_event-HasFiles t.bans t.users e t (refl, refl) in
    (λ n. rw (registry-log_event e t) (names n), bans' ∙ bans, users' ∙ users)

sent-IsSpared : (c : ℕ) (m : Text) (s : Server) → IsSpared s (send_to c m s)
unfolding send_to send
sent-IsSpared c m s = (λ n. ground arith, refl, refl)

deny_rank-IsSpared :
    (c : ℕ) (session : Session) (command target : Text) (s : Server)
    → IsSpared s (deny_rank c session command target s)
unfolding deny_rank
deny_rank-IsSpared c session command target s = by_name-log_event _ s _ (sent-IsSpared c _ s)

deny_permission-IsSpared :
    (c : ℕ) (session : Session) (command : Text) (s : Server)
    → IsSpared s (deny_permission c session command s)
unfolding deny_permission
deny_permission-IsSpared c session command s = by_name-log_event _ s _ (sent-IsSpared c _ s)

ranked-IsSpared :
    (c : ℕ) (session : Session) (command name role : Text) (action : Server → Server)
    (o : Option (Option Text)) (s : Server)
    → o ≡ some (some role)
    → can_act_on session.role role ≡ false
    → IsSpared s (ranked c session command name o action s).0
unfolding ranked outranked
ranked-IsSpared c session command name role action o s e low =
    rw (e, low) (deny_rank-IsSpared c session command name s)

after_word :
    (name : Text)
    → (drop 5 (codes "KICK " ++ name) ≡ name)
      × (drop 4 (codes "BAN " ++ name) ≡ name)
      × (drop 6 (codes "UNBAN " ++ name) ≡ name)
unfolding drop codes
after_word name = (refl, refl, refl)

-- A user may not kick, ban or unban a name whose role is not below the user's own: whatever permissions the user has, nobody goes
-- offline, and the ban list and the accounts stay as they are.
pub rank_protects :
    (u : Unicode) (c : ℕ) (session : Session) (name role : Text) (s : Server)
    → target_role u (normalise u name) s ≡ some (some role)
    → can_act_on session.role role ≡ false
    → IsSpared s (handle_kick u c session (codes "KICK " ++ name) s).0
      × IsSpared s (handle_ban u c session (codes "BAN " ++ name) s).0
      × IsSpared s (handle_unban u c session (codes "UNBAN " ++ name) s).0
unfolding handle_kick handle_ban handle_unban
rank_protects u c session name role s target low =
    let (k, b, v) = after_word name in
    let n = normalise u name in
    let spared : (o : Outcome) → Type 0 = λ o. IsSpared s o.0 in
    let same : IsSpared s s = (λ m. refl, refl, refl) in
    (
      rw k (
          if_both spared (not (has_permission session.role Rbac.kick))
            (deny_permission-IsSpared c session (codes "KICK") s)
            (if_both spared (is_empty n) same (
              ranked-IsSpared c session (codes "KICK") n role (kick_allowed session n)
                (target_role u n s) s target low))),
      rw b (
          if_both spared (not (has_permission session.role Rbac.ban))
            (deny_permission-IsSpared c session (codes "BAN") s)
            (if_both spared (is_empty n) same (
              ranked-IsSpared c session (codes "BAN") n role (ban_allowed u session n)
                (target_role u n s) s target low))),
      rw v (
          if_both spared (not (has_permission session.role Rbac.unban))
            (deny_permission-IsSpared c session (codes "UNBAN") s)
            (ranked-IsSpared c session (codes "UNBAN") n role (unban_allowed u session n)
              (target_role u n s) s target low)),
    )
