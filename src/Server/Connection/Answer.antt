-- ===== src/Server/Connection/Answer.antt =====
-- What an answer leaves, when all of it has reached the socket.
use cs_system_lab.Prelude.{
  ℕ, zero, suc, ◌+◌, min, ltb, ◌<◌, ◌≡◌, ◌≢◌, refl, ap, ◌∙◌, Bool, true, false, not, inl, inr, [],
  ◌∷◌, ◌++◌, arith, append_assoc, length, take, drop, take-append-drop, take-length, length-drop,
  Bool-cases, ◌==◌, ltb→le,
}
use cs_system_lab.Prelude.Bytes.{Bytes}
use cs_system_lab.Http.Request.{fresh, reset, keep_alive}
use cs_system_lab.Server.Connection.{
  World, WriteResult, wrote, would_block, write_failed, remove_connection, after_send, send_message,
  write_round, write_loop, finish_write, finish_if, drained, on_write, with_request, put,
}
use cs_system_lab.Reactor.Channel.{epollout}
use cs_system_lab.Server.Connection.Preserving.{with_revents}
use cs_system_lab.Server.Connection.Writing.{outstanding, loop_result, loop_result-Written}
use cs_system_lab.Server.Connection.Output.{on_write_all, write_loop_all}

-- Open, with no request begun and nothing to send.
pub record IsIdle (w : World) : Type 0 where
  pub no_request : w.conn.request ≡ fresh
  pub nothing_waits : w.conn.write_buf ≡ []
  pub nothing_sent : w.conn.write_sent ≡ 0
  pub open_yet : w.conn.closing ≡ false

-- Each `write` takes a byte at least.
abbrev pub Takes : (ℕ → WriteResult) → Type 0
Takes answers = (k : ℕ) → (n : ℕ) × (answers k ≡ wrote (suc n))

-- Where something waits, the socket is writable before anything else happens to the connection, and
-- that event is noted in the channel.
unfoldable pub drain : Bytes → (ℕ → WriteResult) → World → World
drain [] answers w = w
drain (b ∷ bytes) answers w = on_write answers (with_revents w epollout)

abbrev pub flush : (ℕ → WriteResult) → World → World
flush answers w = drain w.conn.write_buf answers w

-- What an answer leaves.
pub record Answered (w : World) (keep : Bool) (msg : Bytes) (w' : World) : Type 0 where
  pub whole : w'.wire ≡ w.wire ++ msg
  pub decided : w'.conn.closing ≡ not keep
  pub idle : keep ≡ true → IsIdle w'

write_loop-closing :
    (f : ℕ) (answers : ℕ → WriteResult) (i remaining : ℕ) (w : World)
    → Takes answers
    → (write_loop f answers i remaining w).0.conn.closing ≡ w.conn.closing
unfolding write_loop write_round
write_loop-closing zero answers i remaining w h = refl
write_loop-closing (suc f) answers i remaining w h = elim (Bool-cases (remaining == 0)) [
  | inl z ↦ rw z
  | inr z ↦ let (n, e) = h i in rw (z, e, write_round) (write_loop-closing f answers (i + 1) _ _ h)
]

pub remove_connection-closing : (w : World) → (remove_connection w).conn.closing ≡ true
unfolding remove_connection
remove_connection-closing w = ground arith

finish_write_lem :
    (w : World) (keep : Bool)
    → keep_alive w.conn.request ≡ keep
    → w.conn.closing ≡ false
    → ((finish_write w).conn.closing ≡ not keep) × (keep ≡ true → IsIdle (finish_write w))
unfolding finish_write reset
finish_write_lem w true e o =
    rw e (
      o,
      λ _. record { no_request = refl; nothing_waits = refl; nothing_sent = refl; open_yet = o },
    )
finish_write_lem w false e o = rw e (remove_connection-closing (drained w), λ h. absurd (cc))

finish_if_lem :
    (p : World × Bool) (keep : Bool)
    → p.1 ≡ true
    → keep_alive p.0.conn.request ≡ keep
    → p.0.conn.closing ≡ false
    → ((finish_if p).conn.closing ≡ not keep) × (keep ≡ true → IsIdle (finish_if p))
finish_if_lem (w, true) keep t e o = finish_write_lem w keep e o
finish_if_lem (w, false) keep t e o = absurd (cc)

on_write_lem :
    (answers : ℕ → WriteResult) (w : World) (keep : Bool)
    → Takes answers
    → keep_alive w.conn.request ≡ keep
    → w.conn.closing ≡ false
    → ((on_write answers w).conn.closing ≡ not keep) × (keep ≡ true → IsIdle (on_write answers w))
unfolding on_write
on_write_lem answers w keep h e o =
    finish_if_lem (loop_result answers w) keep (write_loop_all _ answers 0 _ w h)
      (ap keep_alive (loop_result-Written answers w).same_request ∙ e)
      (write_loop-closing _ answers 0 _ w h ∙ o)

-- The connection holds a complete request, and nothing waits.
pub record IsAsked (w : World) (keep : Bool) : Type 0 where
  pub wanted : keep_alive w.conn.request ≡ keep
  pub nothing_waits : w.conn.write_buf ≡ []
  pub nothing_sent : w.conn.write_sent ≡ 0
  pub open_yet : w.conn.closing ≡ false

drain_lem :
    (bytes : Bytes) (answers : ℕ → WriteResult) (w : World)
    → 0 < length bytes
    → drain bytes answers w ≡ on_write answers (with_revents w epollout)
unfolding drain
drain_lem [] answers w h = absurd (omega arith)
drain_lem (b ∷ bytes) answers w h = refl

-- An answer of which a part waits.
torn_lem :
    (w : World) (keep : Bool) (msg : Bytes) (sent : ℕ) (answers : ℕ → WriteResult) (x : World)
    → IsAsked w keep
    → Takes answers
    → sent < length msg
    → x.conn.write_buf ≡ drop sent msg
    → x.conn.write_sent ≡ 0
    → x.conn.request ≡ w.conn.request
    → x.conn.closing ≡ w.conn.closing
    → x.wire ≡ w.wire ++ take sent msg
    → Answered w keep msg (flush answers x)
torn_lem w keep msg sent answers x a h lt b z r c o =
    let some_wait : 0 < length x.conn.write_buf =
      omega (arith, length-drop sent msg, ap length b) in
    let (shut, idle) =
      on_write_lem answers (with_revents x epollout) keep h (ap keep_alive r ∙ a.wanted)
        (c ∙ a.open_yet) in
    rw (drain_lem x.conn.write_buf answers x some_wait) (record {
      whole =
          on_write_all answers (with_revents x epollout) h
          ∙ ap (λ s. s ++ outstanding x) o
          ∙ ap (λ n. (w.wire ++ take sent msg) ++ drop n x.conn.write_buf) z
          ∙ ap (λ s. (w.wire ++ take sent msg) ++ s) b
          ∙ append_assoc w.wire (take sent msg) (drop sent msg)
          ∙ ap (λ s. w.wire ++ s) (take-append-drop sent msg);
      decided = shut;
      idle = idle;
    })

flush_nothing :
    (answers : ℕ → WriteResult) (w : World) → w.conn.write_buf ≡ [] → flush answers w ≡ w
unfolding drain
flush_nothing answers w e = ap (λ s. drain s answers w) e

remove_connection-write_buf : (w : World) → (remove_connection w).conn.write_buf ≡ w.conn.write_buf
unfolding remove_connection
remove_connection-write_buf w = ground arith

pub remove_connection-wire : (w : World) → (remove_connection w).wire ≡ w.wire
unfolding remove_connection
remove_connection-wire w = ground arith

-- An answer that went out at once.
kept_lem :
    (w : World) (msg : Bytes) (answers : ℕ → WriteResult) (out : Bytes)
    → IsAsked w true
    → out ≡ msg
    → Answered w true msg (flush answers (with_request (put w out) (reset w.conn.request)))
unfolding reset
kept_lem w msg answers out a e =
    rw (flush_nothing answers (with_request (put w out) (reset w.conn.request)) a.nothing_waits)
      (record {
        whole = ap (λ s. w.wire ++ s) e;
        decided = a.open_yet;
        idle = λ _. record {
          no_request = refl;
          nothing_waits = a.nothing_waits;
          nothing_sent = a.nothing_sent;
          open_yet = a.open_yet;
        };
      })

shut_lem :
    (w : World) (msg : Bytes) (answers : ℕ → WriteResult) (out : Bytes)
    → IsAsked w false
    → out ≡ msg
    → Answered w false msg (flush answers (remove_connection (put w out)))
shut_lem w msg answers out a e =
    rw
      (flush_nothing answers (remove_connection (put w out))
        (remove_connection-write_buf (put w out) ∙ a.nothing_waits))
      (record {
        whole = remove_connection-wire (put w out) ∙ ap (λ s. w.wire ++ s) e;
        decided = remove_connection-closing (put w out);
        idle = λ h. absurd (cc);
      })

after_send_lem :
    (w : World) (keep : Bool) (msg : Bytes) (sent : ℕ) (answers : ℕ → WriteResult)
    → IsAsked w keep
    → Takes answers
    → Answered w keep msg (flush answers (after_send w keep msg sent))
unfolding after_send
after_send_lem w true msg sent answers a h = elim (Bool-cases (ltb sent (length msg))) [
  | inl l ↦ rw l (torn_lem w true msg sent answers _ a h (ground arith) refl refl refl refl refl)
  | inr l ↦ rw l (kept_lem w msg answers _ a (take-length sent msg (ltb→le sent (length msg) l)))
]
after_send_lem w false msg sent answers a h = elim (Bool-cases (ltb sent (length msg))) [
  | inl l ↦ rw l (torn_lem w false msg sent answers _ a h (ground arith) refl refl refl refl refl)
  | inr l ↦ rw l (shut_lem w msg answers _ a (take-length sent msg (ltb→le sent (length msg) l)))
]

pub send_message_lem :
    (answer : WriteResult) (w : World) (keep : Bool) (msg : Bytes) (answers : ℕ → WriteResult)
    → IsAsked w keep
    → answer ≢ write_failed
    → Takes answers
    → Answered w keep msg (flush answers (send_message answer keep msg w))
unfolding send_message
send_message_lem (wrote n) w keep msg answers a h t =
    after_send_lem w keep msg (min n (length msg)) answers a t
send_message_lem would_block w keep msg answers a h t = after_send_lem w keep msg 0 answers a t
send_message_lem write_failed w keep msg answers a h t = absurd (h refl)
