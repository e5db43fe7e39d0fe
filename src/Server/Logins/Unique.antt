-- ===== src/Server/Logins/Unique.antt =====
-- The names of the sessions under interleaved log-ins.
use tlsocket.Prelude.{ℕ, ◌≡◌, ◌∙◌, some, arith, text_eq, nat_eq}
use tlsocket.Dict.{lookup}
use tlsocket.Text.{Text}
use tlsocket.Server.Registry.{send, remove_client}
use tlsocket.Server.Registry.Names.{name_at, remove_client-IsConsistent, send-IsConsistent}
use tlsocket.Server.Logins.{
  online, failing, System, update, start, Step, reserve, give_up, enter, confirm, fail, drop,
  deliver, change_role, Reach, here, next,
}
use tlsocket.Server.Logins.Safe.{
  IsSafe, start-IsSafe, pending_of_send, reserve-IsSafe, give_up-IsSafe, enter-IsSafe, quiet-IsSafe,
  sent, removed, pending_of_remove, role_changed, set_role-IsConsistent,
}

Step-IsSafe : {s t : System} → Step s t → IsSafe s → IsSafe t
Step-IsSafe {s} (reserve c n p ok) h = reserve-IsSafe s c n p ok h
Step-IsSafe {s} (give_up c n p) h = give_up-IsSafe s c n p h
Step-IsSafe {s} (enter c n role p) h = enter-IsSafe s c n role p h
Step-IsSafe {s} (confirm c n m p ok) h =
    quiet-IsSafe s (send s.registry c m).0 (update s.phase c online)
      (send-IsConsistent s.registry c m h.consistent) (pending_of_send s.registry c m).0
      (sent s.registry c m) (λ d n' k. ground arith) (λ d k. ground arith) h
Step-IsSafe {s} (fail c n m p no_room) h =
    quiet-IsSafe s (remove_client (send s.registry c m).0 c).0 (update s.phase c (failing n))
      (remove_client-IsConsistent (send s.registry c m).0 c
        (send-IsConsistent s.registry c m h.consistent))
      (pending_of_remove (send s.registry c m).0 c ∙ (pending_of_send s.registry c m).0)
      (λ d k. removed (send s.registry c m).0 c d (sent s.registry c m d k))
      (λ d n' k. ground arith) (λ d k. ground arith) h
Step-IsSafe {s} (drop c) h =
    quiet-IsSafe s (remove_client s.registry c).0 s.phase
      (remove_client-IsConsistent s.registry c h.consistent) (pending_of_remove s.registry c)
      (removed s.registry c) (λ d n k. k) (λ d k. k) h
Step-IsSafe {s} (deliver c m) h =
    quiet-IsSafe s (send s.registry c m).0 s.phase (send-IsConsistent s.registry c m h.consistent)
      (pending_of_send s.registry c m).0 (sent s.registry c m) (λ d n k. k) (λ d k. k) h
Step-IsSafe {s} (change_role n role r o e) h =
    quiet-IsSafe s r s.phase (set_role-IsConsistent s.registry r n role o h.consistent e)
      (role_changed s.registry r n role o e).0 (role_changed s.registry r n role o e).1
      (λ d n' k. k) (λ d k. k) h

pub Reach-IsSafe : {s t : System} → IsSafe s → Reach s t → IsSafe t
Reach-IsSafe h here = h
Reach-IsSafe h (next r st) = Step-IsSafe st (Reach-IsSafe h r)

-- In every state that the interleaved threads reach from a new registry, as long as no failed log-in
-- releases its name a second time, two sockets with a session of the same name are the same socket,
-- and the index finds it.
pub unique_names :
    (m q : ℕ) (s : System) (c d : ℕ) (n : Text)
    → Reach (start m q) s
    → name_at s.registry c ≡ some n
    → name_at s.registry d ≡ some n
    → (c ≡ d) × (lookup n s.registry.by_name ≡ some c)
unique_names m q s c d n r hc hd =
    let ok = (Reach-IsSafe (start-IsSafe m q) r).consistent in
    let fc = ok.from_session n c hc in let fd = ok.from_session n d hd in (cc (fc, fd), fc)
