-- ===== src/Client/Login/Welcome.antt =====
-- The server's welcome, as the client reads it.
use tlsocket.Prelude.{
  true, false, ◌≡◌, refl, ◌∙◌, ap, sym, some, [], ◌∷◌, ◌++◌, nat_eq, arith, contains, append_assoc,
  contains-append, Bool-cases, inl, inr,
}
use tlsocket.Text.{Text, codes, starts_with, is_empty, is_space, drop, lstrip, rstrip, strip}
use tlsocket.Text.Strip.{strip-line, rstrip-append, rstrip-strip, is_empty-append}
use tlsocket.Protocol.{newline}
use tlsocket.Auth.Accounts.{LoginSession}
use tlsocket.Server.Connections.{welcome}
use tlsocket.Client.Login.{before, after, split_second, user_role, login_answer, entered}

-- A part that ends in a colon and holds no comma stands in no text without colons, even one that a comma follows.
starts-colon :
    (q w s : Text)
    → contains q b',' ≡ false
    → starts_with (q ++ b':' ∷ []) (w ++ b',' ∷ s) ≡ true
    → contains w b':' ≡ true
unfolding starts_with contains
starts-colon [] [] s n h = absurd (ground arith)
starts-colon [] (c ∷ w) s n h = ground arith
starts-colon (a ∷ q) [] s n h = absurd (ground arith)
starts-colon (a ∷ q) (c ∷ w) s n h = ground (arith, starts-colon q w s)

starts_contains : (q t : Text) → starts_with (q ++ b':' ∷ []) t ≡ true → contains t b':' ≡ true
unfolding starts_with contains
starts_contains [] [] h = absurd (ground arith)
starts_contains [] (c ∷ t) h = ground arith
starts_contains (a ∷ q) [] h = absurd (ground arith)
starts_contains (a ∷ q) (c ∷ t) h = ground (arith, starts_contains q t)

abbrev part : Text
part = codes "role:"

no_comma : contains (codes "role") b',' ≡ false
unfolding contains codes
no_comma = refl

part_eq : codes "role" ++ b':' ∷ [] ≡ part
unfolding codes
part_eq = refl

no_start : (w s : Text) → contains w b':' ≡ false → starts_with part (w ++ b',' ∷ s) ≡ false
no_start w s n = elim (Bool-cases (starts_with part (w ++ b',' ∷ s))) [
  | inl e ↦ absurd (ground (arith, starts-colon (codes "role") w s no_comma (rw part_eq e)))
  | inr e ↦ e
]

after_comma : (w s : Text) → contains w b':' ≡ false → after part (w ++ b',' ∷ s) ≡ after part s
unfolding after contains
after_comma [] s n = rw (no_start [] s (unfold contains in refl)) refl
after_comma (c ∷ w) s n = rw (no_start (c ∷ w) s n) (after_comma w s (ground arith))

before_none : (t : Text) → contains t b':' ≡ false → before part t ≡ t
unfolding before contains
before_none [] n = refl
before_none (c ∷ t) n = elim (Bool-cases (starts_with part (c ∷ t))) [
  | inl e ↦ absurd (ground (arith, starts_contains (codes "role") (c ∷ t) (rw part_eq e)))
  | inr e ↦ rw (e, before_none t (ground arith)) refl
]

after_role : (t : Text) → after part (codes " role: " ++ t) ≡ some (b' ' ∷ t)
unfolding after codes starts_with drop
after_role t = refl

module _ (session : LoginSession) (trimmed : rstrip session.role ≡ session.role)
    (full : is_empty session.role ≡ false) where
  abbrev tail : Text
  tail = session.username ++ (codes ", role: " ++ session.role)

  tail_full : is_empty tail ≡ false
  unfolding codes
  tail_full =
      is_empty-append session.username (codes ", role: " ++ session.role) (unfold is_empty in refl)

  tail_trimmed : rstrip tail ≡ tail
  unfolding codes
  tail_trimmed =
      let role : rstrip (codes ", role: " ++ session.role) ≡ codes ", role: " ++ session.role =
        rstrip-append (codes ", role: ") session.role (rw trimmed full)
        ∙ ap (λ x. codes ", role: " ++ x) trimmed in
      rstrip-append session.username (codes ", role: " ++ session.role)
        (rw role (unfold is_empty in refl))
      ∙ ap (λ x. session.username ++ x) role

  strip-welcome : strip (welcome session) ≡ codes "OK Connected as " ++ tail
  unfolding codes is_space
  strip-welcome =
      ap (λ x. strip (codes "OK Connected as " ++ x))
        (sym (append_assoc session.username (codes ", role: " ++ session.role) newline))
      ∙ strip-line b'O' (codes "K Connected as ") tail refl tail_trimmed tail_full

lstrip-space : (t : Text) → strip (b' ' ∷ t) ≡ strip t
unfolding strip lstrip is_space
lstrip-space t = refl

comma : (role : Text) → codes ", role: " ++ role ≡ b',' ∷ (codes " role: " ++ role)
unfolding codes
comma role = refl

no_colon : contains (codes "OK Connected as ") b':' ≡ false
unfolding codes contains
no_colon = refl

starts_ok : (t : Text) → starts_with (codes "OK") (codes "OK Connected as " ++ t) ≡ true
unfolding codes starts_with
starts_ok t = refl

found_role :
    (name role : Text)
    → contains name b':' ≡ false
    → after part (codes "OK Connected as " ++ (name ++ (codes ", role: " ++ role)))
      ≡ some (b' ' ∷ role)
found_role name role n =
    ap (after part) (
      ap (λ x. codes "OK Connected as " ++ (name ++ x)) (comma role)
      ∙ sym (append_assoc (codes "OK Connected as ") name (b',' ∷ (codes " role: " ++ role))))
    ∙ after_comma (codes "OK Connected as " ++ name) (codes " role: " ++ role)
        (ground (arith, contains-append (codes "OK Connected as ") name b':', no_colon, n))
    ∙ after_role role

role-read :
    (name role : Text)
    → contains name b':' ≡ false
    → contains role b':' ≡ false
    → strip role ≡ role
    → user_role (codes "OK Connected as " ++ (name ++ (codes ", role: " ++ role))) ≡ role
unfolding user_role split_second
role-read name role n colon trimmed =
    let cut_off : before part (b' ' ∷ role) ≡ b' ' ∷ role =
      before_none (b' ' ∷ role) (unfold contains in ground (arith, colon)) in
    rw (user_role, split_second, found_role name role n, cut_off, lstrip-space role) trimmed

-- The welcome that the server sends after a log-in, read as a line, takes the client into the chat under the name that was
-- typed and with the role of the session, if neither the name nor the role of the session holds a colon and the role
-- is not empty and has no space at an end.
pub login_answer-welcome :
    (session : LoginSession) (username : Text)
    → contains session.username b':' ≡ false
    → contains session.role b':' ≡ false
    → strip session.role ≡ session.role
    → is_empty session.role ≡ false
    → (login_answer username (strip (welcome session))).0 ≡ entered username session.role
unfolding login_answer
login_answer-welcome session username name role trimmed full =
    rw
      (
        strip-welcome session (rw (← trimmed) (rstrip-strip session.role)) full,
        starts_ok (session.username ++ (codes ", role: " ++ session.role)),
        role-read session.username session.role name role trimmed,
      )
      refl
