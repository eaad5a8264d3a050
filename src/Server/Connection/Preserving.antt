-- ===== src/Server/Connection/Preserving.antt =====
-- What the handlers of a connection do to what they share with others: the channel, the flag, the
-- loop, the epoll and the descriptors closed. A property of these that is kept by each of the
-- changes there are is kept by every handler, whatever the system calls answer.
use cs_system_lab.Prelude.{
  ℕ, zero, suc, ◌+◌, min, ltb, ◌≡◌, refl, Bool, true, false, inl, inr, List, [], ◌∷◌, ◌++◌, Option,
  none, some, length, Bool-cases, ◌==◌,
}
use cs_system_lab.Prelude.Bytes.{Bytes}
use cs_system_lab.Http.Request.{HttpRequest, has_got_all, keep_alive}
use cs_system_lab.Reactor.Channel.Registration.{Op, write_on, write_off, apply}
use cs_system_lab.Server.Connection.{
  Callback, on_read_callback, on_write_callback, on_close_callback, World, ReadResult, WriteResult,
  wrote, would_block, write_failed, got, read_failed, remove_connection, after_send, send_message,
  write_round, write_loop, finish_write, finish_if, on_write, on_close, Setup, Event, drained,
  after_parse, on_read, run_callback, dispatch, run_events,
}

-- The events that occurred are noted in the channel.
abbrev pub with_revents : World → ℕ → World
with_revents w n = record w {
  conn = record w.conn { channel = record w.conn.channel { revents = n } };
}

-- The channel is switched.
unfoldable pub switched : Op → World → World
switched op w =
    let (epoll, channel) = apply op w.epoll w.conn.channel in
    record w { conn = record w.conn { channel = channel }; epoll = epoll }

pub record Preserved (P : World → Type 0) : Type 0 where
  -- The request, the buffer or the bytes written change.
  pub same :
      (w w' : World)
      → w'.conn.channel ≡ w.conn.channel
      → w'.conn.closing ≡ w.conn.closing
      → w'.loop ≡ w.loop
      → w'.epoll ≡ w.epoll
      → w'.closed ≡ w.closed
      → P w
      → P w'
  pub switches : (op : Op) (w : World) → P w → P (switched op w)
  pub removed : (w : World) → P w → P (remove_connection w)

module _ {P : World → Type 0} (keeps : Preserved P) where
  open keeps use {switches, removed}

  quiet :
      {w w' : World}
      → P w
      → w'.conn.channel ≡ w.conn.channel
      → w'.conn.closing ≡ w.conn.closing
      → w'.loop ≡ w.loop
      → w'.epoll ≡ w.epoll
      → w'.closed ≡ w.closed
      → P w'
  quiet v c g l e k = keeps.same _ _ c g l e k v

  after_send-keeps :
      (w : World) (keep : Bool) (msg : Bytes) (sent : ℕ) → P w → P (after_send w keep msg sent)
  unfolding after_send switched apply
  after_send-keeps w keep msg sent v = elim (Bool-cases (ltb sent (length msg))) [
    | inl e ↦ rw e (quiet (switches write_on w v) refl refl refl refl refl)
    | inr e ↦ elim (Bool-cases keep) [
      | inl k ↦ rw (e, k) (quiet v refl refl refl refl refl)
      | inr k ↦ rw (e, k) (removed _ (quiet v refl refl refl refl refl))
    ]
  ]

  send_message-keeps :
      (answer : WriteResult) (keep : Bool) (msg : Bytes) (w : World)
      → P w
      → P (send_message answer keep msg w)
  unfolding send_message
  send_message-keeps (wrote n) keep msg w v = after_send-keeps w keep msg (min n (length msg)) v
  send_message-keeps would_block keep msg w v = after_send-keeps w keep msg 0 v
  send_message-keeps write_failed keep msg w v = removed w v

  write_round-keeps :
      (rest : ℕ → World → World × Bool) (answer : WriteResult) (remaining : ℕ) (w : World)
      → ((m : ℕ) (x : World) → P x → P (rest m x).0)
      → P w
      → P (write_round rest answer remaining w).0
  unfolding write_round
  write_round-keeps rest (wrote zero) remaining w ih v = removed w v
  write_round-keeps rest (wrote (suc n)) remaining w ih v =
      ih _ _ (quiet v refl refl refl refl refl)
  write_round-keeps rest would_block remaining w ih v = v
  write_round-keeps rest write_failed remaining w ih v = removed w v

  write_loop-keeps :
      (f : ℕ) (answers : ℕ → WriteResult) (i remaining : ℕ) (w : World)
      → P w
      → P (write_loop f answers i remaining w).0
  unfolding write_loop
  write_loop-keeps zero answers i remaining w v = v
  write_loop-keeps (suc f) answers i remaining w v = elim (Bool-cases (remaining == 0)) [
    | inl e ↦ rw e v
    | inr e ↦ rw e (
        write_round-keeps (write_loop f answers (i + 1)) (answers i) remaining w
          (write_loop-keeps f answers (i + 1)) v)
  ]

  finish_write-keeps : (w : World) → P w → P (finish_write w)
  unfolding finish_write switched apply
  finish_write-keeps w v =
      let off : P (drained w) = quiet (switches write_off w v) refl refl refl refl refl in
      elim (Bool-cases (keep_alive w.conn.request)) [
        | inl e ↦ rw e (quiet off refl refl refl refl refl)
        | inr e ↦ rw e (removed _ off)
      ]

  finish_if-keeps : (p : World × Bool) → P p.0 → P (finish_if p)
  finish_if-keeps (w, true) v = finish_write-keeps w v
  finish_if-keeps (w, false) v = v

  pub on_write-keeps : (answers : ℕ → WriteResult) (w : World) → P w → P (on_write answers w)
  unfolding on_write
  on_write-keeps answers w v = finish_if-keeps _ (write_loop-keeps _ answers 0 _ w v)

  module _ (setup : Setup) where
    after_parse-keeps :
        (answer : WriteResult) (w : World) (p : HttpRequest × Bool)
        → P w
        → P (after_parse setup answer w p)
    unfolding after_parse
    after_parse-keeps answer w (r, false) v =
        send_message-keeps answer _ _ _ (quiet v refl refl refl refl refl)
    after_parse-keeps answer w (r, true) v = elim (Bool-cases (has_got_all r)) [
      | inl e ↦ rw e (send_message-keeps answer _ _ _ (quiet v refl refl refl refl refl))
      | inr e ↦ rw e (quiet v refl refl refl refl refl)
    ]

    pub on_read-keeps :
        (r : ReadResult) (answer : WriteResult) (w : World) → P w → P (on_read setup r answer w)
    unfolding on_read
    on_read-keeps read_failed answer w v = v
    on_read-keeps (got []) answer w v = removed w v
    on_read-keeps (got (b ∷ bytes)) answer w v = after_parse-keeps answer w _ v

    run_callback-keeps :
        (ev : Event) (cb : Option Callback) (w : World) → P w → P (run_callback setup ev cb w)
    unfolding run_callback on_close
    run_callback-keeps ev none w v = v
    run_callback-keeps ev (some on_read_callback) w v = on_read-keeps ev.read ev.write w v
    run_callback-keeps ev (some on_write_callback) w v = on_write-keeps ev.writes w v
    run_callback-keeps ev (some on_close_callback) w v = removed w v

    module _ (noted : (w : World) (n : ℕ) → P w → P (with_revents w n)) where
      pub dispatch-keeps : (ev : Event) (w : World) → P w → P (dispatch setup ev w)
      unfolding dispatch
      dispatch-keeps ev w v = run_callback-keeps ev _ _ (noted w ev.revents v)

      pub run_events-keeps : (evs : List Event) (w : World) → P w → P (run_events setup evs w)
      unfolding run_events
      run_events-keeps [] w v = v
      run_events-keeps (ev ∷ evs) w v =
          run_events-keeps evs (dispatch setup ev w) (dispatch-keeps ev w v)

module _ (setup : Setup) where
  pub run_events-append :
      (es fs : List Event) (w : World)
      → run_events setup (es ++ fs) w ≡ run_events setup fs (run_events setup es w)
  unfolding run_events
  run_events-append [] fs w = refl
  run_events-append (e ∷ es) fs w = run_events-append es fs (dispatch setup e w)
