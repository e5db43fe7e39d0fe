-- ===== src/Client/Screen/Relay.antt =====
-- A message from the server to the screen.
use tlsocket.Prelude.{false, ◌≡◌, refl, ◌∷◌, ◌++◌}
use tlsocket.Text.{Text, codes, starts_with, is_empty, is_space, drop, strip, rstrip}
use tlsocket.Text.Strip.{strip-line}
use tlsocket.Protocol.{chat_message}
use tlsocket.Server.Cleanup.{chat}
use tlsocket.Client.Screen.{clear, prompt, show_line}

-- A text that the server sends as a chat message, with no space at its end, is shown on a line of its own as it is,
-- with a new prompt under it; the client takes nothing away from it and adds nothing to it.
pub show_line-chat :
    (nickname text : Text)
    → rstrip text ≡ text
    → is_empty text ≡ false
    → show_line nickname (strip (chat text)) ≡ clear ++ (text ++ (b'\n' ∷ prompt nickname))
unfolding chat chat_message show_line starts_with codes is_space drop
show_line-chat nickname text h full =
    let line : strip (chat text) ≡ codes "MSG " ++ text =
      rw (chat, full) (strip-line b'M' (codes "SG ") text refl h full) in
    rw line refl
