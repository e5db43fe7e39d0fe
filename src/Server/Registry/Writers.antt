-- ===== src/Server/Registry/Writers.antt =====
-- The thread of a writer: what it takes, sends and loses.
use tlsocket.Prelude.{
  ℕ, ◌≤◌, ◌<◌, Bool, true, false, ◌&&◌, ◌≡◌, refl, ap, Option, none, some, List, [], ◌∷◌, ◌++◌,
  arith, if◌then◌else◌, length, length-append, append_assoc, append-nil, Bool-cases, inl, inr, ltb,
  leb,
}
use tlsocket.Text.{Text}
use tlsocket.Server.Registry.{
  ClientWriter, new_writer, put_nowait, enqueue, stop, run_item, run_round,
}

pub data WriterCall : Type 0 where
  put : Text → WriterCall
  close : WriterCall
  round : Bool → WriterCall

-- The writer after the calls, and the messages that it took.
unfoldable pub run_writer :
    ℕ → ClientWriter → List Text → List WriterCall → ClientWriter × List Text
run_writer q w taken [] = (w, taken)
run_writer q w taken (put m ∷ calls) =
    run_writer q (enqueue q w m).0 (if (enqueue q w m).1 then taken ++ m ∷ [] else taken) calls
run_writer q w taken (close ∷ calls) = run_writer q (stop q w) taken calls
run_writer q w taken (round sends ∷ calls) = run_writer q (run_round w sends) taken calls

-- The messages in a queue.
unfoldable pub messages : List (Option Text) → List Text
messages [] = []
messages (none ∷ queue) = messages queue
messages (some m ∷ queue) = m ∷ messages queue

messages-append : (xs ys : List (Option Text)) → messages (xs ++ ys) ≡ messages xs ++ messages ys
unfolding messages
messages-append [] ys = refl
messages-append (none ∷ xs) ys = messages-append xs ys
messages-append (some m ∷ xs) ys = ap (◌∷◌ m) (messages-append xs ys)

-- What was sent, then a message that could not be sent, then what waits, is what was taken; a writer that runs
-- has lost nothing, and a bounded queue is within its bound.
pub record IsInOrder (q : ℕ) (w : ClientWriter) (taken : List Text) : Type 0 where
  pub lost : List Text
  pub in_order : taken ≡ w.sent ++ (lost ++ messages w.queue)
  pub one_lost : length lost ≤ 1
  pub none_lost : w.running ≡ true → lost ≡ []
  pub within : 0 < q → length w.queue ≤ q

new_writer-IsInOrder : (q sock : ℕ) → IsInOrder q (new_writer sock) []
unfolding messages
new_writer-IsInOrder q sock = record {
  lost = [];
  in_order = refl;
  one_lost = omega arith;
  none_lost = λ h. refl;
  within = λ h. omega arith;
}

-- One more item at the end of the queue.
put-IsInOrder :
    (q : ℕ) (w : ClientWriter) (taken : List Text) (item : Option Text)
    → (0 < q → length w.queue < q)
    → IsInOrder q w taken
    → IsInOrder q (record w { queue = w.queue ++ item ∷ [] }) (taken ++ messages (item ∷ []))
put-IsInOrder q w taken item room h = record {
  lost = h.lost;
  in_order = rw (h.in_order, messages-append w.queue (item ∷ [])) (simp append_assoc);
  one_lost = h.one_lost;
  none_lost = h.none_lost;
  within = λ pos. rw length-append (omega (arith, room pos));
}

room_left :
    (q : ℕ) (w : ClientWriter)
    → (ltb 0 q && leb q (length w.queue)) ≡ false
    → 0 < q
    → length w.queue < q
room_left q w e pos = ground arith

enqueue-IsInOrder :
    (q : ℕ) (w : ClientWriter) (taken : List Text) (m : Text)
    → IsInOrder q w taken
    → IsInOrder q (enqueue q w m).0 (if (enqueue q w m).1 then taken ++ m ∷ [] else taken)
unfolding enqueue put_nowait
enqueue-IsInOrder q w taken m h = elim (Bool-cases (ltb 0 q && leb q (length w.queue))) [
  | inl full ↦ rw (full, enqueue, put_nowait) h
  | inr room ↦
      rw (room, enqueue, put_nowait)
        (unfold messages in put-IsInOrder q w taken (some m) (room_left q w room) h)
]

stop-IsInOrder :
    (q : ℕ) (w : ClientWriter) (taken : List Text)
    → IsInOrder q w taken
    → IsInOrder q (stop q w) taken
unfolding stop put_nowait
stop-IsInOrder q w taken h = elim (Bool-cases (ltb 0 q && leb q (length w.queue))) [
  | inl full ↦
      rw (full, stop, put_nowait)
        (record {
          lost = h.lost;
          in_order = h.in_order;
          one_lost = h.one_lost;
          none_lost = h.none_lost;
          within = h.within;
        })
  | inr room ↦
      let kept : IsInOrder q (record w { queue = w.queue ++ none ∷ [] }) (taken ++ []) =
        unfold messages in put-IsInOrder q w taken none (room_left q w room) h in
      rw (room, stop, put_nowait) (rw append-nil at kept)
]

item-IsInOrder :
    (q : ℕ) (w : ClientWriter) (queue : List (Option Text)) (taken : List Text) (sends : Bool)
    → w.running ≡ true
    → taken ≡ w.sent ++ messages queue
    → (0 < q → length queue ≤ q)
    → w.queue ≡ queue
    → IsInOrder q (run_item w queue sends) taken
unfolding run_item messages
item-IsInOrder q w [] taken sends on e fits same = record {
  lost = [];
  in_order = rw (same, messages) e;
  one_lost = omega arith;
  none_lost = λ h. refl;
  within = λ pos. rw same (fits pos);
}
item-IsInOrder q w (none ∷ queue) taken sends on e fits same = record {
  lost = [];
  in_order = e;
  one_lost = omega arith;
  none_lost = λ h. refl;
  within = λ pos. omega (arith, fits pos);
}
item-IsInOrder q w (some m ∷ queue) taken true on e fits same = record {
  lost = [];
  in_order = rw append_assoc e;
  one_lost = omega arith;
  none_lost = λ h. refl;
  within = λ pos. omega (arith, fits pos);
}
item-IsInOrder q w (some m ∷ queue) taken false on e fits same = record {
  lost = m ∷ [];
  in_order = e;
  one_lost = omega arith;
  none_lost = λ h. absurd (ground arith);
  within = λ pos. omega (arith, fits pos);
}

round_if :
    (q : ℕ) (w : ClientWriter) (taken : List Text) (sends on : Bool)
    → w.running ≡ on
    → IsInOrder q w taken
    → IsInOrder q (if on then run_item w w.queue sends else w) taken
round_if q w taken sends true on h =
    item-IsInOrder q w w.queue taken sends on (rw (h.none_lost on) at h.in_order) h.within refl
round_if q w taken sends false off h = h

round-IsInOrder :
    (q : ℕ) (w : ClientWriter) (taken : List Text) (sends : Bool)
    → IsInOrder q w taken
    → IsInOrder q (run_round w sends) taken
unfolding run_round
round-IsInOrder q w taken sends h = round_if q w taken sends w.running refl h

run_from-IsInOrder :
    (q : ℕ) (w : ClientWriter) (taken : List Text) (calls : List WriterCall)
    → IsInOrder q w taken
    → IsInOrder q (run_writer q w taken calls).0 (run_writer q w taken calls).1
unfolding run_writer
run_from-IsInOrder q w taken [] h = h
run_from-IsInOrder q w taken (put m ∷ calls) h =
    run_from-IsInOrder q _ _ calls (enqueue-IsInOrder q w taken m h)
run_from-IsInOrder q w taken (close ∷ calls) h =
    run_from-IsInOrder q (stop q w) taken calls (stop-IsInOrder q w taken h)
run_from-IsInOrder q w taken (round sends ∷ calls) h =
    run_from-IsInOrder q (run_round w sends) taken calls (round-IsInOrder q w taken sends h)

-- Whatever is queued, stopped and sent, a writer has sent the messages that it took, in their order and none
-- twice, up to one that failed and those that still wait; and a bounded queue is never longer than its bound.
pub run_writer-IsInOrder :
    (q sock : ℕ) (calls : List WriterCall)
    → IsInOrder q
        (run_writer q (new_writer sock) [] calls).0
        (run_writer q (new_writer sock) [] calls).1
run_writer-IsInOrder q sock calls =
    run_from-IsInOrder q (new_writer sock) [] calls (new_writer-IsInOrder q sock)
