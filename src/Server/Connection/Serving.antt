-- ===== src/Server/Connection/Serving.antt =====
-- The exchange with a client as the events that the loop sees.
use cs_system_lab.Prelude.{
  ℕ, ◌≡◌, refl, sym, ap, ◌∙◌, List, [], ◌∷◌, ◌++◌, map, append-nil, append_assoc, some, arith, All,
}
use cs_system_lab.Prelude.Bytes.{Bytes}
use cs_system_lab.Http.Request.Render.{wants_keep}
use cs_system_lab.Prelude.Int.{ℤ}
use cs_system_lab.Reactor.Epoll.{Epoll}
use cs_system_lab.Reactor.EventLoop.{EventLoop}
use cs_system_lab.Reactor.Channel.{
  enable_reading, Channel, epollin, epollout, handle_event, update_channel,
}
use cs_system_lab.Reactor.Channel.Registration.{Op, all_off, apply, apply_lem}
use cs_system_lab.Server.Connection.{
  Callback, on_read_callback, on_write_callback, World, Setup, Event, WriteResult, would_block, got,
  on_read, run_callback, remove_connection, dispatch, run_events, new_connection,
}
use cs_system_lab.Server.Connection.Preserving.{
  with_revents, switched, Preserved, on_read-keeps, run_events-keeps, run_events-append,
}
use cs_system_lab.Server.Connection.Partial.{on_reads, reply}
use cs_system_lab.Server.Connection.Answer.{IsIdle, Answered, drain, flush}
use cs_system_lab.Server.Connection.Exchange.{Turn, IsKept, take_turn, replies, take_turn_lem}

-- The callbacks that `onNewConnection` sets.
pub record HasCallbacks (w : World) : Type 0 where
  pub reads : w.conn.channel.read_callback ≡ some on_read_callback
  pub writes : w.conn.channel.write_callback ≡ some on_write_callback

pub new_connection-HasCallbacks :
    (self : ℕ) (fd : ℤ) (loop : EventLoop ℤ) (epoll : Epoll)
    → HasCallbacks (new_connection self fd loop epoll)
unfolding new_connection enable_reading
new_connection-HasCallbacks self fd loop epoll = record { reads = refl; writes = refl }

-- The events that are noted in the channel.
abbrev IsNoted : ℕ → World → Type 0
IsNoted n w = w.conn.channel.revents ≡ n

-- A channel's operations leave the callbacks and the noted events alone.
apply_callbacks :
    (op : Op) (w : World)
    → let c = (switched op w).conn.channel in
      (c.read_callback ≡ w.conn.channel.read_callback)
      × (c.write_callback ≡ w.conn.channel.write_callback)
      × (c.revents ≡ w.conn.channel.revents)
unfolding switched update_channel
apply_callbacks op w = rw (apply_lem op w.epoll w.conn.channel) (ground arith)

removed_callbacks :
    (w : World)
    → let c = (remove_connection w).conn.channel in
      (c.read_callback ≡ w.conn.channel.read_callback)
      × (c.write_callback ≡ w.conn.channel.write_callback)
      × (c.revents ≡ w.conn.channel.revents)
unfolding remove_connection switched apply
removed_callbacks w = let e = apply_callbacks all_off w in ground arith

HasCallbacks-Preserved : Preserved HasCallbacks
HasCallbacks-Preserved = record {
  same = λ w w' c g l e k h. record {
    reads = ap (λ (x : Channel Callback). x.read_callback) c ∙ h.reads;
    writes = ap (λ (x : Channel Callback). x.write_callback) c ∙ h.writes;
  };
  switches = λ op w h. record {
    reads = (apply_callbacks op w).0 ∙ h.reads;
    writes = (apply_callbacks op w).1 ∙ h.writes;
  };
  removed = λ w h. record {
    reads = (removed_callbacks w).0 ∙ h.reads;
    writes = (removed_callbacks w).1 ∙ h.writes;
  };
}

IsNoted-Preserved : (n : ℕ) → Preserved (IsNoted n)
IsNoted-Preserved n = record {
  same = λ w w' c g l e k h. ap (λ (x : Channel Callback). x.revents) c ∙ h;
  switches = λ op w h. (apply_callbacks op w).2 ∙ h;
  removed = λ w h. (removed_callbacks w).2 ∙ h;
}

-- The socket has bytes to read.
abbrev pub read_event : WriteResult → Bytes → Event
read_event answer c = record {
  revents = epollin;
  read = got c;
  write = answer;
  writes = λ k. would_block;
}

-- The socket has room where something waits for it.
abbrev pub write_events : (ℕ → WriteResult) → Bytes → List Event
write_events answers [] = []
write_events answers (b ∷ bytes) =
    record { revents = epollout; read = got []; write = would_block; writes = answers } ∷ []

module _ (setup : Setup) where
  -- The events of one request and its answer.
  abbrev pub read_events : Turn → List Event
  read_events t = map (read_event t.answer) (t.first_read ∷ t.later_reads)

  unfoldable pub turn_events : Turn → World → List Event
  turn_events t w =
      read_events t ++ write_events t.answers (run_events setup (read_events t) w).conn.write_buf

  unfoldable pub turns_events : List Turn → World → List Event
  turns_events [] w = []
  turns_events (t ∷ ts) w =
      let es = turn_events t w in es ++ turns_events ts (run_events setup es w)

  dispatch-read_event :
      (answer : WriteResult) (c : Bytes) (w : World)
      → HasCallbacks w
      → dispatch setup (read_event answer c) w
        ≡ on_read setup (got c) answer (with_revents w epollin)
  unfolding dispatch handle_event run_callback
  dispatch-read_event answer c w h = rw (h.reads, h.writes)

  run_events-write_events :
      (answers : ℕ → WriteResult) (bytes : Bytes) (w : World)
      → HasCallbacks w
      → run_events setup (write_events answers bytes) w ≡ drain bytes answers w
  unfolding run_events dispatch handle_event run_callback drain
  run_events-write_events answers [] w h = refl
  run_events-write_events answers (b ∷ bytes) w h = rw (h.writes)

  run_events-read_event :
      (answer : WriteResult) (cs : List Bytes) (w : World)
      → HasCallbacks w
      → IsNoted epollin w
      → run_events setup (map (read_event answer) cs) w ≡ on_reads setup answer cs w
  unfolding run_events on_reads
  run_events-read_event answer [] w h n = refl
  run_events-read_event answer (c ∷ cs) w h n =
      let e : dispatch setup (read_event answer c) w ≡ on_read setup (got c) answer w =
        dispatch-read_event answer c w h
        ∙ ap (λ k. on_read setup (got c) answer (with_revents w k)) (sym n) in
      ap (run_events setup (map (read_event answer) cs)) e
      ∙ run_events-read_event answer cs (on_read setup (got c) answer w)
          (on_read-keeps HasCallbacks-Preserved setup (got c) answer w h)
          (on_read-keeps (IsNoted-Preserved epollin) setup (got c) answer w n)

  first_read :
      (answer : WriteResult) (c : Bytes) (cs : List Bytes) (w : World)
      → run_events setup (map (read_event answer) (c ∷ cs)) w
        ≡ run_events setup (map (read_event answer) (c ∷ cs)) (with_revents w epollin)
  unfolding run_events dispatch
  first_read answer c cs w = refl

  run_events-HasCallbacks :
      (es : List Event) (w : World) → HasCallbacks w → HasCallbacks (run_events setup es w)
  run_events-HasCallbacks es w h =
      run_events-keeps HasCallbacks-Preserved setup
        (λ x n k. record { reads = k.reads; writes = k.writes }) es w h

  pub dispatch-HasCallbacks :
      (ev : Event) (w : World) → HasCallbacks w → HasCallbacks (dispatch setup ev w)
  unfolding run_events
  dispatch-HasCallbacks ev w h = run_events-HasCallbacks (ev ∷ []) w h

  -- What the events of a request do is what `take_turn` does.
  run_events-turn_events :
      (t : Turn) (w : World)
      → HasCallbacks w
      → run_events setup (turn_events t w) w ≡ take_turn setup t (with_revents w epollin)
  unfolding turn_events take_turn
  run_events-turn_events t w h =
      let x = run_events setup (read_events t) w in
      let cs = t.first_read ∷ t.later_reads in
      let e : x ≡ on_reads setup t.answer cs (with_revents w epollin) =
        first_read t.answer t.first_read t.later_reads w
        ∙ run_events-read_event t.answer cs (with_revents w epollin)
            (record { reads = h.reads; writes = h.writes }) refl in
      run_events-append setup (read_events t) (write_events t.answers x.conn.write_buf) w
      ∙ run_events-write_events t.answers x.conn.write_buf x (run_events-HasCallbacks _ w h)
      ∙ ap (λ y. flush t.answers y) e

  -- After the events of some requests that keep the connection their responses are written.
  pub turns_events_lem :
      (ts : List Turn) (w : World)
      → All (IsKept setup) ts
      → IsIdle w
      → HasCallbacks w
      → let w' = run_events setup (turns_events ts w) w in
        (w'.wire ≡ w.wire ++ replies setup ts) × IsIdle w'
  unfolding turns_events run_events
  turns_events_lem [] w v i h = (sym (append-nil w.wire), i)
  turns_events_lem (t ∷ ts) w ((v, k), vs) i h =
      let es = turn_events t w in
      let x = run_events setup es w in
      let idle : IsIdle (with_revents w epollin) = record {
        no_request = i.no_request;
        nothing_waits = i.nothing_waits;
        nothing_sent = i.nothing_sent;
        open_yet = i.open_yet;
      } in
      let a : Answered w (wants_keep t.message) (reply setup t.message) x =
        rw (run_events-turn_events t w h) (
          let b = take_turn_lem setup t (with_revents w epollin) v idle in
          record { whole = b.whole; decided = b.decided; idle = b.idle }) in
      let (e, j) = turns_events_lem ts x vs (a.idle k) (run_events-HasCallbacks es w h) in
      rw (run_events-append setup es (turns_events ts x) w) (
        e
            ∙ ap (λ s. s ++ replies setup ts) a.whole
            ∙ append_assoc w.wire (reply setup t.message) (replies setup ts),
        j,
      )
