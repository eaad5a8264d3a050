-- ===== src/Server/Connection/Registering.antt =====
-- What the epoll knows of a connection.
use cs_system_lab.Prelude.{
  ℕ, zero, suc, ◌+◌, ltb, ◌<◌, ◌≡◌, refl, Bool, true, false, inl, inr, [], ◌∷◌, Option, none, some,
  arith, length, drop, Bool-cases, ◌==◌,
}
use cs_system_lab.Prelude.Bytes.{Bytes}
use cs_system_lab.Prelude.Int.{ℤ}
use cs_system_lab.Http.Request.{HttpRequest, has_got_all, keep_alive}
use cs_system_lab.Reactor.Epoll.{Epoll, interest, AllGranted}
use cs_system_lab.Reactor.Channel.{Channel, make}
use cs_system_lab.Reactor.Channel.Registration.{
  read_on, write_on, write_off, nothing, apply, apply-Follows,
}
use cs_system_lab.Reactor.EventLoop.{EventLoop}
use cs_system_lab.Server.Connection.{
  Callback, on_read_callback, on_write_callback, on_close_callback, World, ReadResult, WriteResult,
  wrote, would_block, write_failed, got, read_failed, after_send, send_message, write_round,
  write_loop, finish_write, finish_if, on_write, on_close, Setup, Event, drained, after_parse,
  on_read, run_callback, dispatch, new_connection,
}
use cs_system_lab.Server.Connection.Watching.{
  is_nonempty, Live, IsRegistered, remove_connection-Dead, Live-same,
}

nonempty-drop : (sent : ℕ) (msg : Bytes) → sent < length msg → is_nonempty (drop sent msg) ≡ true
nonempty-drop zero [] h = absurd (omega arith)
nonempty-drop zero (b ∷ msg) h = refl
nonempty-drop (suc n) [] h = absurd (omega arith)
nonempty-drop (suc n) (b ∷ msg) h = nonempty-drop n msg (omega arith)

after_send-IsRegistered :
    (w : World) (keep : Bool) (msg : Bytes) (sent : ℕ)
    → Live w
    → IsRegistered (after_send w keep msg sent)
unfolding after_send apply
after_send-IsRegistered w keep msg sent v = elim (Bool-cases (ltb sent (length msg))) [
  | inl e ↦
      let (f, g) = apply-Follows write_on _ w.epoll w.conn.channel v.follows v.granted in
      let some_left : is_nonempty (drop sent msg) ≡ true = nonempty-drop sent msg (ground arith) in
      rw e (inl (record { open_yet = v.open_yet; follows = rw some_left f; granted = g }))
  | inr e ↦ elim (Bool-cases keep) [
    | inl k ↦ rw (e, k) (inl (Live-same v refl refl refl refl))
    | inr k ↦ rw (e, k) (inr (remove_connection-Dead _ (Live-same v refl refl refl refl)))
  ]
]

send_message-IsRegistered :
    (answer : WriteResult) (keep : Bool) (msg : Bytes) (w : World)
    → Live w
    → IsRegistered (send_message answer keep msg w)
unfolding send_message
send_message-IsRegistered (wrote n) keep msg w v = after_send-IsRegistered w keep msg _ v
send_message-IsRegistered would_block keep msg w v = after_send-IsRegistered w keep msg 0 v
send_message-IsRegistered write_failed keep msg w v = inr (remove_connection-Dead w v)

-- What the write loop leaves, when it wrote all and when it did not.
record Written (p : World × Bool) : Type 0 where
  all_out : p.1 ≡ true → Live p.0
  stopped : p.1 ≡ false → IsRegistered p.0

write_round-Written :
    (rest : ℕ → World → World × Bool) (answer : WriteResult) (remaining : ℕ) (w : World)
    → ((m : ℕ) (x : World) → Live x → Written (rest m x))
    → Live w
    → Written (write_round rest answer remaining w)
unfolding write_round
write_round-Written rest (wrote zero) remaining w ih v = record {
  all_out = λ h. absurd (cc);
  stopped = λ _. inr (remove_connection-Dead w v);
}
write_round-Written rest (wrote (suc n)) remaining w ih v = ih _ _ (Live-same v refl refl refl refl)
write_round-Written rest would_block remaining w ih v = record {
  all_out = λ h. absurd (cc);
  stopped = λ _. inl v;
}
write_round-Written rest write_failed remaining w ih v = record {
  all_out = λ h. absurd (cc);
  stopped = λ _. inr (remove_connection-Dead w v);
}

write_loop-Written :
    (f : ℕ) (answers : ℕ → WriteResult) (i remaining : ℕ) (w : World)
    → Live w
    → Written (write_loop f answers i remaining w)
unfolding write_loop
write_loop-Written zero answers i remaining w v = record {
  all_out = λ _. v;
  stopped = λ h. absurd (cc);
}
write_loop-Written (suc f) answers i remaining w v = elim (Bool-cases (remaining == 0)) [
  | inl e ↦ rw e (record { all_out = λ _. v; stopped = λ h. absurd (cc) })
  | inr e ↦ rw e (
      write_round-Written (write_loop f answers (i + 1)) (answers i) remaining w
        (λ m x l. write_loop-Written f answers (i + 1) m x l) v)
]

finish_write-IsRegistered : (w : World) → Live w → IsRegistered (finish_write w)
unfolding finish_write apply
finish_write-IsRegistered w v =
    let (f, g) = apply-Follows write_off _ w.epoll w.conn.channel v.follows v.granted in
    let d : Live (drained w) = record { open_yet = v.open_yet; follows = f; granted = g } in
    elim (Bool-cases (keep_alive w.conn.request)) [
      | inl e ↦ rw e (inl (Live-same d refl refl refl refl))
      | inr e ↦ rw e (inr (remove_connection-Dead _ d))
    ]

finish_if-IsRegistered : (p : World × Bool) → Written p → IsRegistered (finish_if p)
finish_if-IsRegistered (w, true) v = finish_write-IsRegistered w (v.all_out refl)
finish_if-IsRegistered (w, false) v = v.stopped refl

on_write-IsRegistered :
    (answers : ℕ → WriteResult) (w : World) → Live w → IsRegistered (on_write answers w)
unfolding on_write
on_write-IsRegistered answers w v = finish_if-IsRegistered _ (write_loop-Written _ answers 0 _ w v)

module _ (setup : Setup) where
  after_parse-IsRegistered :
      (answer : WriteResult) (w : World) (p : HttpRequest × Bool)
      → Live w
      → IsRegistered (after_parse setup answer w p)
  unfolding after_parse
  after_parse-IsRegistered answer w (r, false) v =
      send_message-IsRegistered answer _ _ _ (Live-same v refl refl refl refl)
  after_parse-IsRegistered answer w (r, true) v = elim (Bool-cases (has_got_all r)) [
    | inl e ↦ rw e (send_message-IsRegistered answer _ _ _ (Live-same v refl refl refl refl))
    | inr e ↦ rw e (inl (Live-same v refl refl refl refl))
  ]

  on_read-IsRegistered :
      (r : ReadResult) (answer : WriteResult) (w : World)
      → Live w
      → IsRegistered (on_read setup r answer w)
  unfolding on_read
  on_read-IsRegistered read_failed answer w v = inl v
  on_read-IsRegistered (got []) answer w v = inr (remove_connection-Dead w v)
  on_read-IsRegistered (got (b ∷ bytes)) answer w v = after_parse-IsRegistered answer w _ v

  run_callback-IsRegistered :
      (ev : Event) (cb : Option Callback) (w : World)
      → Live w
      → IsRegistered (run_callback setup ev cb w)
  unfolding run_callback on_close
  run_callback-IsRegistered ev none w v = inl v
  run_callback-IsRegistered ev (some on_read_callback) w v =
      on_read-IsRegistered ev.read ev.write w v
  run_callback-IsRegistered ev (some on_write_callback) w v = on_write-IsRegistered ev.writes w v
  run_callback-IsRegistered ev (some on_close_callback) w v = inr (remove_connection-Dead w v)

  -- Whatever the event and the answers of the system calls, a connection that is open and watched
  -- is so afterwards, or it is closed and the epoll has forgotten it: while it is open the epoll
  -- watches for input, and for room just while something is in the write buffer; no epoll_ctl is
  -- refused.
  pub dispatch-IsRegistered : (ev : Event) (w : World) → Live w → IsRegistered (dispatch setup ev w)
  unfolding dispatch
  dispatch-IsRegistered ev w v = run_callback-IsRegistered ev _ _ (record {
    open_yet = v.open_yet;
    follows = record { events = v.follows.events; flag = v.follows.flag; known = v.follows.known };
    granted = v.granted;
  })

-- A new connection is open and watched, where the epoll did not know its descriptor.
pub new_connection-Live :
    (self : ℕ) (fd : ℤ) (loop : EventLoop ℤ) (epoll : Epoll)
    → interest epoll.calls fd ≡ none
    → AllGranted epoll.calls
    → Live (new_connection self fd loop epoll)
unfolding new_connection apply
new_connection-Live self fd loop epoll h g =
    let c : Channel Callback = make self fd in
    let (f, g') =
      apply-Follows read_on nothing epoll
        (record c {
          read_callback = some on_read_callback;
          write_callback = some on_write_callback;
          close_callback = some on_close_callback;
        })
        (record { events = refl; flag = refl; known = h }) g in
    record { open_yet = refl; follows = f; granted = g' }
