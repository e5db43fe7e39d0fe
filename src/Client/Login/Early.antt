-- ===== src/Client/Login/Early.antt =====
-- A broadcast between the two calls of `handle_new_connection` of src/tlsocket/server_side/server.py that add the session and
-- queue the welcome.
use tlsocket.Prelude.{
  ℕ, ◌<◌, true, false, ◌≡◌, refl, ap, ◌∙◌, Option, some, List, [], ◌∷◌, ◌++◌, nat_eq, text_eq,
  ==_refl, arith, distinct, if_both, if◌then◌else◌,
}
use tlsocket.Dict.{lookup, keys}
use tlsocket.Dict.Keys.{insert-distinct}
use tlsocket.Dict.Laws.{lookup-insert_self}
use tlsocket.Text.{Text, codes, starts_with, is_empty, is_space, strip, rstrip}
use tlsocket.Text.Strip.{strip-line}
use tlsocket.Protocol.{chat_message}
use tlsocket.Auth.Accounts.{LoginSession}
use tlsocket.Server.Registry.{
  ClientRegistry, ClientWriter, Session, add, send, send_each, snapshot, broadcast, is_sender,
  enqueue, put_nowait, new_writer,
}
use tlsocket.Server.Registry.Delivery.{queued, send_writers, send_rest, broadcast_reaches}
use tlsocket.Server.Cleanup.{chat}
use tlsocket.Server.Cleanup.Terminates.{sessions-send, sessions-broadcast}
use tlsocket.Server.Connections.{welcome}
use tlsocket.Client.Login.{asking, login_answer}

abbrev pub with_queue : ClientWriter → List (Option Text) → ClientWriter
with_queue w queue = record w { queue = queue }

-- the registry after the three calls
abbrev pub raced : ClientRegistry → ℕ → LoginSession → Text → Option ℕ → ClientRegistry
raced r client session message sender =
    (send
      (broadcast (add r client (record { username = session.username; role = session.role }))
        message sender).0
      client (welcome session)).0

enqueue_twice :
    (q c : ℕ) (a b : Text)
    → 1 < q
    → queued q b (queued q a (some (new_writer c)))
      ≡ some (with_queue (new_writer c) (some a ∷ some b ∷ []))
unfolding enqueue put_nowait
enqueue_twice q c a b h = ground (arith, h)

maxsize-send_each :
    (r : ClientRegistry) (m : Text) (sender : Option ℕ) (socks : List ℕ)
    → (send_each r m sender socks).0.send_queue_maxsize ≡ r.send_queue_maxsize
unfolding send_each
maxsize-send_each r m sender [] = refl
maxsize-send_each r m sender (c ∷ socks) =
    maxsize-send_each (if is_sender sender c then r else (send r c m).0) m sender socks
    ∙ if_both (λ (x : ClientRegistry). x.send_queue_maxsize ≡ r.send_queue_maxsize)
        (is_sender sender c) refl (send_rest r c m).0

queues :
    (r : ClientRegistry) (client : ℕ) (session : LoginSession) (message : Text) (sender : Option ℕ)
    → distinct (keys r.sessions) ≡ true
    → is_sender sender client ≡ false
    → 1 < r.send_queue_maxsize
    → lookup client (raced r client session message sender).writers
      ≡ some (with_queue (new_writer client) (some message ∷ some (welcome session) ∷ []))
unfolding add
queues r client session message sender d other room =
    let entry : Session = record { username = session.username; role = session.role } in
    let r₁ = add r client entry in
    let r₂ = (broadcast r₁ message sender).0 in
    let size : r₂.send_queue_maxsize ≡ r.send_queue_maxsize =
      unfold broadcast in maxsize-send_each r₁ message sender (snapshot r₁) in
    let told =
      (broadcast_reaches r₁ message sender client (insert-distinct client entry r.sessions d)).0 in
    let online : lookup client r₁.sessions ≡ some entry =
      lookup-insert_self client entry r.sessions in
    let writer : lookup client r₁.writers ≡ some (new_writer client) =
      lookup-insert_self client (new_writer client) r.writers in
    let first : lookup client r₂.writers
        ≡ queued r.send_queue_maxsize message (some (new_writer client)) =
      told ∙ rw (online, other, writer) refl in
    let second : lookup client (raced r client session message sender).writers
        ≡ queued r₂.send_queue_maxsize (welcome session) (lookup client r₂.writers) =
      send_writers r₂ client client (welcome session) ∙ rw (==_refl client) refl in
    second
    ∙ rw (size, first) (enqueue_twice r.send_queue_maxsize client message (welcome session) room)

session_there :
    (r : ClientRegistry) (client : ℕ) (session : LoginSession) (message : Text) (sender : Option ℕ)
    → lookup client (raced r client session message sender).sessions
      ≡ some (record { username = session.username; role = session.role })
unfolding add
session_there r client session message sender =
    let entry : Session = record { username = session.username; role = session.role } in
    let r₁ = add r client entry in
    let kept : (raced r client session message sender).sessions ≡ r₁.sessions =
      sessions-send (broadcast r₁ message sender).0 client (welcome session)
      ∙ sessions-broadcast r₁ message sender in
    ap (lookup client) kept ∙ lookup-insert_self client entry r.sessions

-- Another thread broadcasts a chat message of another sender after the session of a log-in was added and before its welcome
-- is queued; the sessions are on different sockets, a queue has room for two lines, and the text is not empty and has
-- no white space at its end. Then the message stands before the welcome in the client's queue, and the session is
-- there. The client takes the message for the answer to its log-in: it reports it as an error, and asks for a name and
-- a password again.
pub early_message :
    (r : ClientRegistry) (client : ℕ) (session : LoginSession) (text username : Text)
    (sender : Option ℕ)
    → distinct (keys r.sessions) ≡ true
    → is_sender sender client ≡ false
    → 1 < r.send_queue_maxsize
    → rstrip text ≡ text
    → is_empty text ≡ false
    → (lookup client (raced r client session (chat text) sender).writers
        ≡ some (with_queue (new_writer client) (some (chat text) ∷ some (welcome session) ∷ [])))
      × (lookup client (raced r client session (chat text) sender).sessions
          ≡ some (record { username = session.username; role = session.role }))
      × (login_answer username (strip (chat text))
          ≡ (asking, (codes ">> Login error: " ++ (codes "MSG " ++ text)) ∷ []))
unfolding login_answer chat chat_message codes is_space starts_with
early_message r client session text username sender d other room trimmed full =
    let line : strip (chat text) ≡ codes "MSG " ++ text =
      rw (chat, full) (strip-line b'M' (codes "SG ") text refl trimmed full) in
    (
      queues r client session (chat text) sender d other room,
      session_there r client session (chat text) sender,
      rw line refl,
    )
