-- ===== src/Server/Connection/Output.antt =====
-- Where the bytes of a response are: on the socket, or waiting for it.
use cs_system_lab.Prelude.{
  ℕ, zero, suc, ◌+◌, min, ltb, ◌≡◌, ◌≢◌, refl, sym, ap, ◌∙◌, Bool, true, false, inl, inr, List, [],
  ◌∷◌, ◌++◌, arith, append-nil, append_assoc, length, take, drop, take-append-drop, take-length,
  Bool-cases, ◌==◌, ltb→le,
}
use cs_system_lab.Prelude.Bytes.{Bytes}
use cs_system_lab.Server.Connection.{
  World, WriteResult, wrote, would_block, write_failed, remove_connection, after_send, send_message,
  write_round, write_loop, finish_write, finish_if, on_write,
}
use cs_system_lab.Server.Connection.Writing.{
  outstanding, stream, remove_connection-stream, Written, remaining, loop_result,
  loop_result-Written, on_write-stream,
}

-- Where each `write` takes a byte at least, the loop writes all.
pub write_loop_all :
    (f : ℕ) (answers : ℕ → WriteResult) (i remaining : ℕ) (w : World)
    → ((k : ℕ) → (n : ℕ) × (answers k ≡ wrote (suc n)))
    → (write_loop f answers i remaining w).1 ≡ true
unfolding write_loop write_round
write_loop_all zero answers i remaining w h = refl
write_loop_all (suc f) answers i remaining w h = elim (Bool-cases (remaining == 0)) [
  | inl z ↦ rw z
  | inr z ↦ let (n, e) = h i in rw (z, e, write_round) (write_loop_all f answers (i + 1) _ _ h)
]

finish_write_out : (w : World) → outstanding w ≡ [] → (finish_write w).wire ≡ w.wire
unfolding finish_write remove_connection
finish_write_out w e = ground arith

finish_if_out :
    (w : World) (p : World × Bool) → Written w p → p.1 ≡ true → (finish_if p).wire ≡ stream w
finish_if_out w (x, true) v h =
    finish_write_out x (v.all_out refl)
    ∙ sym (append-nil x.wire)
    ∙ ap (λ s. x.wire ++ s) (sym (v.all_out refl))
    ∙ v.same_stream
finish_if_out w (x, false) v h = absurd (cc)

-- Where the socket takes a byte at least at each `write`, one `onWrite` sends all that waits.
pub on_write_all :
    (answers : ℕ → WriteResult) (w : World)
    → ((k : ℕ) → (n : ℕ) × (answers k ≡ wrote (suc n)))
    → (on_write answers w).wire ≡ w.wire ++ outstanding w
unfolding on_write
on_write_all answers w h =
    finish_if_out w (loop_result answers w) (loop_result-Written answers w)
      (write_loop_all _ answers 0 _ w h)

after_send-stream :
    (w : World) (keep : Bool) (msg : Bytes) (sent : ℕ)
    → outstanding w ≡ []
    → stream (after_send w keep msg sent) ≡ w.wire ++ msg
unfolding after_send
after_send-stream w keep msg sent e = elim (Bool-cases (ltb sent (length msg))) [
  | inl l ↦ rw l (
      append_assoc w.wire (take sent msg) (drop sent msg)
      ∙ ap (λ s. w.wire ++ s) (take-append-drop sent msg))
  | inr l ↦
      let whole : (w.wire ++ take sent msg) ++ outstanding w ≡ w.wire ++ msg =
        ap (λ s. (w.wire ++ take sent msg) ++ s) e
        ∙ append-nil (w.wire ++ take sent msg)
        ∙ ap (λ s. w.wire ++ s) (take-length sent msg (ltb→le sent (length msg) l)) in
      elim (Bool-cases keep) [
        | inl k ↦ rw (l, k) whole
        | inr k ↦ rw (l, k) (remove_connection-stream _ ∙ whole)
      ]
]

send_message-stream :
    (answer : WriteResult) (keep : Bool) (msg : Bytes) (w : World)
    → outstanding w ≡ []
    → answer ≢ write_failed
    → stream (send_message answer keep msg w) ≡ w.wire ++ msg
unfolding send_message
send_message-stream (wrote n) keep msg w e h = after_send-stream w keep msg (min n (length msg)) e
send_message-stream would_block keep msg w e h = after_send-stream w keep msg 0 e
send_message-stream write_failed keep msg w e h = absurd (h refl)

-- Some calls of `onWrite`.
unfoldable pub on_writes : List (ℕ → WriteResult) → World → World
on_writes [] w = w
on_writes (answers ∷ rest) w = on_writes rest (on_write answers w)

pub on_writes-stream :
    (calls : List (ℕ → WriteResult)) (w : World) → stream (on_writes calls w) ≡ stream w
unfolding on_writes
on_writes-stream [] w = refl
on_writes-stream (answers ∷ rest) w =
    on_writes-stream rest (on_write answers w) ∙ on_write-stream answers w

-- A message that is sent when nothing else waits is neither torn nor reordered: after the first
-- `write`, unless that fails, and any number of calls of `onWrite`, what the socket got since and
-- what still waits are together the message.
pub message_whole :
    (answer : WriteResult) (keep : Bool) (msg : Bytes) (calls : List (ℕ → WriteResult)) (w : World)
    → outstanding w ≡ []
    → answer ≢ write_failed
    → stream (on_writes calls (send_message answer keep msg w)) ≡ w.wire ++ msg
message_whole answer keep msg calls w e h =
    on_writes-stream calls _ ∙ send_message-stream answer keep msg w e h
