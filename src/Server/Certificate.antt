-- ===== src/Server/Certificate.antt =====
-- src/tlsocket/server_side/ensure_cert.py. The environment, the address of the machine and what openssl prints are arguments:
-- `none` for the certificate is a missing file or a call that fails.
use tlsocket.Prelude.{
  Bool, true, false, ◌||◌, ◌≡◌, refl, ◌∙◌, ap, sym, Option, none, some, [], ◌∷◌, ◌++◌, arith,
  if◌then◌else◌, append_assoc,
}
use tlsocket.Text.{Text, codes, is_empty, starts_with}
use tlsocket.LogParser.Attacks.{has_part}

unfoldable pub cert_covers_ip : Text → Option Text → Bool
cert_covers_ip ip none = false
cert_covers_ip ip (some out) = has_part (codes "IP Address:" ++ ip) out

-- the address that the certificate is signed for again, if it is
unfoldable pub ensure_lan_cert : Bool → Option Text → Option Text → Option Text
ensure_lan_cert enabled none cert = none
ensure_lan_cert enabled (some ip) cert =
    if enabled then (if is_empty ip || cert_covers_ip ip cert then none else some ip) else none

starts-append : (p s : Text) → starts_with p (p ++ s) ≡ true
unfolding starts_with
starts-append [] s = refl
starts-append (c ∷ p) s = ground (arith, starts-append p s)

has_part_start : (p t : Text) → starts_with p t ≡ true → has_part p t ≡ true
unfolding has_part starts_with is_empty
has_part_start [] [] h = refl
has_part_start (a ∷ p) [] h = absurd (ground arith)
has_part_start p (c ∷ t) h = ground (arith, h)

has_part-inside : (front p s : Text) → has_part p (front ++ (p ++ s)) ≡ true
unfolding has_part
has_part-inside [] p s = has_part_start p (p ++ s) (starts-append p s)
has_part-inside (c ∷ front) p s = ground (arith, has_part-inside front p s)

-- The certificate is taken to cover every address that one of its addresses only starts with: for such an address nothing is
-- signed again.
pub prefix_covered :
    (enabled : Bool) (front ip rest : Text)
    → ensure_lan_cert enabled (some ip) (some (front ++ (codes "IP Address:" ++ (ip ++ rest))))
      ≡ none
unfolding ensure_lan_cert cert_covers_ip
prefix_covered enabled front ip rest =
    let inside : has_part (codes "IP Address:" ++ ip)
          (front ++ (codes "IP Address:" ++ (ip ++ rest)))
        ≡ true =
      ap (λ x. has_part (codes "IP Address:" ++ ip) (front ++ x))
        (sym (append_assoc (codes "IP Address:") ip rest))
      ∙ has_part-inside front (codes "IP Address:" ++ ip) rest in
    ground (arith, inside)
