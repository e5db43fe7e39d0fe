-- ===== src/Server/Reader.antt =====
-- `read_line` of src/tlsocket/server_side/handlers/client_handler.py (and of src/tlsocket/client_side/client_management/connection.py, which
-- is the same). The socket is the list of what its calls of `recv` give: `none` an exception, `some []` the end
-- of the stream, else a chunk; after the list the socket is silent until it times out.
pub mod Stream
use tlsocket.Prelude.{
  ℕ, Bool, true, false, Option, none, some, List, [], ◌∷◌, ◌++◌, if◌then◌else◌, ltb, contains,
  nat_eq, length, get_or,
}
use tlsocket.Text.{Text, Unicode, strip, cut}
use tlsocket.Config.{max_line_length}

abbrev pub Bytes : Type 0
Bytes = List ℕ

-- the line (`none` for None), the buffer and what is left of the stream
pub record ReadResult : Type 0 where
  pub line : Option Text
  pub buffer : Bytes
  pub rest : List (Option Bytes)

-- behind the loop
unfoldable pub take_line : Unicode → Bytes → List (Option Bytes) → ReadResult
take_line u buffer rest =
    let (raw, after) = cut b'\n' buffer in
    if ltb max_line_length (length raw)
    then record { line = none; buffer = get_or after []; rest = rest }
    else record { line = some (strip (u.decode raw)); buffer = get_or after []; rest = rest }

abbrev failed : Bytes → List (Option Bytes) → ReadResult
failed buffer rest = record { line = none; buffer = buffer; rest = rest }

unfoldable pub read_line : Unicode → List (Option Bytes) → Bytes → ReadResult
read_line u [] buffer = if contains buffer b'\n' then take_line u buffer [] else failed buffer []
read_line u (none ∷ rest) buffer =
    if contains buffer b'\n'
    then take_line u buffer (none ∷ rest)
    else if ltb max_line_length (length buffer)
    then failed buffer (none ∷ rest)
    else failed buffer rest
read_line u (some [] ∷ rest) buffer =
    if contains buffer b'\n'
    then take_line u buffer (some [] ∷ rest)
    else if ltb max_line_length (length buffer)
    then failed buffer (some [] ∷ rest)
    else failed buffer rest
read_line u (some (b ∷ chunk) ∷ rest) buffer =
    let more = read_line u rest (buffer ++ (b ∷ chunk)) in
    if contains buffer b'\n'
    then take_line u buffer (some (b ∷ chunk) ∷ rest)
    else if ltb max_line_length (length buffer)
    then failed buffer (some (b ∷ chunk) ∷ rest)
    else more
