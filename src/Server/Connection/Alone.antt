-- ===== src/Server/Connection/Alone.antt =====
-- What a handler makes of a connection does not depend on the loop, the epoll or the descriptors
-- that were closed.
use cs_system_lab.Prelude.{
  ℕ, zero, suc, ◌+◌, ◌-◌, min, ltb, ◌≡◌, refl, Bool, true, false, inl, inr, List, [], ◌∷◌, Option,
  none, some, arith, length, Bool-cases, ◌==◌,
}
use cs_system_lab.Prelude.Bytes.{Bytes}
use cs_system_lab.Http.Request.{HttpRequest, has_got_all, keep_alive}
use cs_system_lab.Reactor.Epoll.{Epoll}
use cs_system_lab.Reactor.Channel.{
  Channel, update_channel, enable_writing, disable_writing, disable_all,
}
use cs_system_lab.Server.Connection.{
  Callback, on_read_callback, on_write_callback, on_close_callback, World, ReadResult, WriteResult,
  wrote, would_block, write_failed, got, read_failed, remove_connection, after_send, send_message,
  write_round, write_loop, finish_write, finish_if, on_write, on_close, Setup, Event, drained,
  after_parse, on_read, run_callback, dispatch, run_events,
}

-- The same connection with the same bytes written.
pub record Same (w v : World) : Type 0 where
  pub conn : v.conn ≡ w.conn
  pub wire : v.wire ≡ w.wire

-- What a channel becomes does not depend on the epoll.
module _ {A : Type 0} (e f : Epoll) (c : Channel A) where
  enable_writing_alone : (enable_writing e c).1 ≡ (enable_writing f c).1
  unfolding enable_writing update_channel
  enable_writing_alone = ground arith

  disable_writing_alone : (disable_writing e c).1 ≡ (disable_writing f c).1
  unfolding disable_writing update_channel
  disable_writing_alone = ground arith

  disable_all_alone : (disable_all e c).1 ≡ (disable_all f c).1
  unfolding disable_all update_channel
  disable_all_alone = ground arith

remove_connection-Same : (w v : World) → Same w v → Same (remove_connection w) (remove_connection v)
unfolding remove_connection
remove_connection-Same w v s = elim (Bool-cases w.conn.closing) [
  | inl e ↦ record { conn = rw (s.conn, e) refl; wire = rw (s.conn, e) s.wire }
  | inr e ↦ record {
    conn = rw (s.conn, e, disable_all_alone v.epoll w.epoll w.conn.channel) refl;
    wire = rw (s.conn, e) s.wire;
  }
]

after_send-Same :
    (w v : World) (keep : Bool) (msg : Bytes) (sent : ℕ)
    → Same w v
    → Same (after_send w keep msg sent) (after_send v keep msg sent)
unfolding after_send
after_send-Same w v keep msg sent s = elim (Bool-cases (ltb sent (length msg))) [
  | inl e ↦ rw e (record {
    conn = rw (s.conn, enable_writing_alone v.epoll w.epoll w.conn.channel) refl;
    wire = rw (s.wire) refl;
  })
  | inr e ↦ elim (Bool-cases keep) [
    | inl k ↦ rw (e, k) (record { conn = rw (s.conn) refl; wire = rw (s.wire) refl })
    | inr k ↦
        rw (e, k)
          (remove_connection-Same _ _ (record { conn = rw (s.conn) refl; wire = rw (s.wire) refl }))
  ]
]

send_message-Same :
    (answer : WriteResult) (keep : Bool) (msg : Bytes) (w v : World)
    → Same w v
    → Same (send_message answer keep msg w) (send_message answer keep msg v)
unfolding send_message
send_message-Same (wrote n) keep msg w v s = after_send-Same w v keep msg (min n (length msg)) s
send_message-Same would_block keep msg w v s = after_send-Same w v keep msg 0 s
send_message-Same write_failed keep msg w v s = remove_connection-Same w v s

-- The same connection, and the same word on whether all was written.
record SameWritten (p q : World × Bool) : Type 0 where
  same : Same p.0 q.0
  all : q.1 ≡ p.1

write_round-Same :
    (rest : ℕ → World → World × Bool) (answer : WriteResult) (remaining : ℕ) (w v : World)
    → ((m : ℕ) (x y : World) → Same x y → SameWritten (rest m x) (rest m y))
    → Same w v
    → SameWritten (write_round rest answer remaining w) (write_round rest answer remaining v)
unfolding write_round
write_round-Same rest (wrote zero) remaining w v ih s = record {
  same = remove_connection-Same w v s;
  all = refl;
}
write_round-Same rest (wrote (suc n)) remaining w v ih s =
    ih _ _ _ (record { conn = rw (s.conn) refl; wire = rw (s.conn, s.wire) refl })
write_round-Same rest would_block remaining w v ih s = record { same = s; all = refl }
write_round-Same rest write_failed remaining w v ih s = record {
  same = remove_connection-Same w v s;
  all = refl;
}

write_loop-Same :
    (f : ℕ) (answers : ℕ → WriteResult) (i remaining : ℕ) (w v : World)
    → Same w v
    → SameWritten (write_loop f answers i remaining w) (write_loop f answers i remaining v)
unfolding write_loop
write_loop-Same zero answers i remaining w v s = record { same = s; all = refl }
write_loop-Same (suc f) answers i remaining w v s = elim (Bool-cases (remaining == 0)) [
  | inl e ↦ rw e (record { same = s; all = refl })
  | inr e ↦ rw e (
      write_round-Same (write_loop f answers (i + 1)) (answers i) remaining w v
        (λ m x y. write_loop-Same f answers (i + 1) m x y) s)
]

finish_write-Same : (w v : World) → Same w v → Same (finish_write w) (finish_write v)
unfolding finish_write
finish_write-Same w v s = elim (Bool-cases (keep_alive w.conn.request)) [
  | inl e ↦
      rw (s.conn, e)
        (record {
          conn = rw (disable_writing_alone v.epoll w.epoll w.conn.channel) refl;
          wire = s.wire;
        })
  | inr e ↦
      rw (s.conn, e)
        (remove_connection-Same (drained w) _ (record {
          conn = rw (disable_writing_alone v.epoll w.epoll w.conn.channel) refl;
          wire = s.wire;
        }))
]

finish_if-Same : (p q : World × Bool) → SameWritten p q → Same (finish_if p) (finish_if q)
finish_if-Same (w, true) (v, true) s = finish_write-Same w v s.same
finish_if-Same (w, false) (v, false) s = s.same
finish_if-Same (w, true) (v, false) s = absurd (ground (arith, s.all))
finish_if-Same (w, false) (v, true) s = absurd (ground (arith, s.all))

on_write-Same :
    (answers : ℕ → WriteResult) (w v : World)
    → Same w v
    → Same (on_write answers w) (on_write answers v)
unfolding on_write
on_write-Same answers w v s = rw (s.conn) (
    finish_if-Same _ _ (
      write_loop-Same (length w.conn.write_buf - w.conn.write_sent) answers 0
        (length w.conn.write_buf - w.conn.write_sent) w _ (record { conn = refl; wire = s.wire })))

module _ (setup : Setup) where
  after_parse-Same :
      (answer : WriteResult) (w v : World) (p : HttpRequest × Bool)
      → Same w v
      → Same (after_parse setup answer w p) (after_parse setup answer v p)
  unfolding after_parse
  after_parse-Same answer w v (r, false) s =
      send_message-Same answer _ _ _ _ (record { conn = rw (s.conn) refl; wire = s.wire })
  after_parse-Same answer w v (r, true) s = elim (Bool-cases (has_got_all r)) [
    | inl e ↦
        rw e (send_message-Same answer _ _ _ _ (record { conn = rw (s.conn) refl; wire = s.wire }))
    | inr e ↦ rw e (record { conn = rw (s.conn) refl; wire = s.wire })
  ]

  on_read-Same :
      (r : ReadResult) (answer : WriteResult) (w v : World)
      → Same w v
      → Same (on_read setup r answer w) (on_read setup r answer v)
  unfolding on_read
  on_read-Same read_failed answer w v s = s
  on_read-Same (got []) answer w v s = remove_connection-Same w v s
  on_read-Same (got (b ∷ bytes)) answer w v s =
      rw (s.conn) (after_parse-Same answer w _ _ (record { conn = refl; wire = s.wire }))

  run_callback-Same :
      (ev : Event) (cb : Option Callback) (w v : World)
      → Same w v
      → Same (run_callback setup ev cb w) (run_callback setup ev cb v)
  unfolding run_callback on_close
  run_callback-Same ev none w v s = s
  run_callback-Same ev (some on_read_callback) w v s = on_read-Same ev.read ev.write w v s
  run_callback-Same ev (some on_write_callback) w v s = on_write-Same ev.writes w v s
  run_callback-Same ev (some on_close_callback) w v s = remove_connection-Same w v s

  pub dispatch-Same :
      (ev : Event) (w v : World) → Same w v → Same (dispatch setup ev w) (dispatch setup ev v)
  unfolding dispatch
  dispatch-Same ev w v s =
      rw (s.conn) (run_callback-Same ev _ _ _ (record { conn = refl; wire = s.wire }))

  pub run_events-Same :
      (evs : List Event) (w v : World)
      → Same w v
      → Same (run_events setup evs w) (run_events setup evs v)
  unfolding run_events
  run_events-Same [] w v s = s
  run_events-Same (ev ∷ evs) w v s = run_events-Same evs _ _ (dispatch-Same ev w v s)
