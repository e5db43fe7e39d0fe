-- ===== src/Server/Reader/Stream.antt =====
-- Reading the first line of a stream that arrives in chunks.
use tlsocket.Prelude.{
  ℕ, ◌≤◌, true, false, ◌≡◌, refl, ap, Option, some, List, [], ◌∷◌, ◌++◌, arith, contains, nat_eq,
  length, get_or, append_assoc, append-nil, Bool-cases, inl, inr,
}
use tlsocket.Text.{Unicode, strip, cut}
use tlsocket.Server.Reader.{Bytes, ReadResult, take_line, read_line}

-- The chunks, none of them empty, as the socket gives them.
abbrev pub Chunks : Type 0
Chunks = List (ℕ × Bytes)

abbrev pub received : Chunks → List (Option Bytes)
received [] = []
received ((b, chunk) ∷ chunks) = some (b ∷ chunk) ∷ received chunks

abbrev pub stream : Chunks → Bytes
stream [] = []
stream ((b, chunk) ∷ chunks) = (b ∷ chunk) ++ stream chunks

-- behind a newline more bytes change only what is left
cut-append :
    (s t : Bytes)
    → contains s b'\n' ≡ true
    → cut b'\n' (s ++ t) ≡ ((cut b'\n' s).0, some (get_or (cut b'\n' s).1 [] ++ t))
unfolding cut contains
cut-append [] t h = cc
cut-append (c ∷ s) t h = ground (arith, cut-append s t)

cut-le : (s t : Bytes) → contains s b'\n' ≡ false → length s ≤ length (cut b'\n' (s ++ t)).0
unfolding cut contains
cut-le [] t h = omega arith
cut-le (c ∷ s) t h = ground (arith, cut-le s t)

ready :
    (u : Unicode) (chunks : Chunks) (buffer : Bytes)
    → contains buffer b'\n' ≡ true
    → read_line u (received chunks) buffer ≡ take_line u buffer (received chunks)
unfolding read_line
ready u [] buffer h = rw h refl
ready u ((b, chunk) ∷ chunks) buffer h = rw h refl

waits :
    (u : Unicode) (b : ℕ) (chunk : Bytes) (chunks : Chunks) (buffer : Bytes)
    → contains buffer b'\n' ≡ false
    → length buffer ≤ 4096
    → read_line u (received ((b, chunk) ∷ chunks)) buffer
      ≡ read_line u (received chunks) (buffer ++ (b ∷ chunk))
unfolding read_line
waits u b chunk chunks buffer h fits = ground arith

-- What reading the first line of a stream gives: the line, decoded and stripped, with the rest of the stream
-- in the buffer and in the socket.
pub record ReadsFirst (u : Unicode) (whole : Bytes) (r : ReadResult) : Type 0 where
  pub left : Chunks
  pub on_socket : r.rest ≡ received left
  pub first_line : r.line ≡ some (strip (u.decode (cut b'\n' whole).0))
  pub rest_of_stream : some (r.buffer ++ stream left) ≡ (cut b'\n' whole).1

take_line-ReadsFirst :
    (u : Unicode) (chunks : Chunks) (buffer : Bytes)
    → contains buffer b'\n' ≡ true
    → length (cut b'\n' buffer).0 ≤ 4096
    → ReadsFirst u (buffer ++ stream chunks) (take_line u buffer (received chunks))
unfolding take_line
take_line-ReadsFirst u chunks buffer h fits = record {
  left = chunks;
  on_socket = ground arith;
  first_line = ground (arith, cut-append buffer (stream chunks));
  rest_of_stream = ground (arith, cut-append buffer (stream chunks));
}

read_ready :
    (u : Unicode) (chunks : Chunks) (buffer : Bytes)
    → length (cut b'\n' (buffer ++ stream chunks)).0 ≤ 4096
    → contains buffer b'\n' ≡ true
    → ReadsFirst u (buffer ++ stream chunks) (read_line u (received chunks) buffer)
read_ready u chunks buffer fits ok =
    let e = ap (λ (c : Bytes × Option Bytes). c.0) (cut-append buffer (stream chunks) ok) in
    rw (ready u chunks buffer ok) (take_line-ReadsFirst u chunks buffer ok (rw e at fits))

-- If the stream, whole, has a newline and its first line has at most 4096 bytes, then that line is read, decoded
-- and stripped, whatever the chunks, and what is left of the buffer and of the socket is the rest of the
-- stream.
pub read_line-stream :
    (u : Unicode) (chunks : Chunks) (buffer : Bytes)
    → contains (buffer ++ stream chunks) b'\n' ≡ true
    → length (cut b'\n' (buffer ++ stream chunks)).0 ≤ 4096
    → ReadsFirst u (buffer ++ stream chunks) (read_line u (received chunks) buffer)
read_line-stream u [] buffer h fits = read_ready u [] buffer fits (rw append-nil at h)
read_line-stream u ((b, chunk) ∷ chunks) buffer h fits =
    let whole = append_assoc buffer (b ∷ chunk) (stream chunks) in
    let rest = read_line-stream u chunks (buffer ++ (b ∷ chunk)) (rw whole h) (rw whole fits) in
    elim (Bool-cases (contains buffer b'\n')) [
      | inl ok ↦ read_ready u ((b, chunk) ∷ chunks) buffer fits ok
      | inr more ↦
          let short = cut-le buffer (stream ((b, chunk) ∷ chunks)) more in
          rw (waits u b chunk chunks buffer more (omega arith)) (rw whole at rest)
    ]
