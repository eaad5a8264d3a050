-- ===== src/Server/Connection/Closing.antt =====
-- How often a connection is closed.
use cs_system_lab.Prelude.{
  ℕ, ◌≡◌, refl, sym, ap, ◌∙◌, Bool, true, false, List, [], ◌∷◌, ◌++◌, arith, append-nil,
}
use cs_system_lab.Prelude.Int.{ℤ}
use cs_system_lab.Reactor.Epoll.{Epoll}
use cs_system_lab.Reactor.Channel.{Channel, enable_reading, disable_all}
use cs_system_lab.Reactor.EventLoop.{EventLoop, queue_in_loop}
use cs_system_lab.Reactor.Channel.Registration.{apply_same}
use cs_system_lab.Server.Connection.Preserving.{with_revents, switched, Preserved, run_events-keeps}
use cs_system_lab.Server.Connection.{
  Callback, Callback, World, remove_connection, Setup, Event, run_events, new_connection,
}

disable_all-fd : {A : Type 0} (e : Epoll) (c : Channel A) → (disable_all e c).1.fd ≡ c.fd
unfolding disable_all
disable_all-fd e c = ground arith

queue_in_loop-pending :
    (l : EventLoop ℤ) (fd : ℤ)
    → (queue_in_loop l fd).pending_functors ≡ l.pending_functors ++ fd ∷ []
unfolding queue_in_loop
queue_in_loop-pending l fd = ground arith

-- What is there once if the connection is closing, and not at all before.
abbrev pub once : Bool → ℤ → List ℤ
once true fd = fd ∷ []
once false fd = []

-- Since a state with the queue `before`, `close` was called and the erasure was queued once if the
-- connection is closing, and not at all otherwise.
pub record ClosedOnce (fd : ℤ) (before : List ℤ) (w : World) : Type 0 where
  pub descriptor : w.conn.channel.fd ≡ fd
  pub closes : w.closed ≡ once w.conn.closing fd
  pub erasures : w.loop.pending_functors ≡ before ++ once w.conn.closing fd

module _ (fd : ℤ) (before : List ℤ) where
  abbrev Keeps : World → Type 0
  Keeps = ClosedOnce fd before

  -- A change that leaves the descriptor, the flag and the two records of closing alone.
  Keeps-same :
      {w w' : World}
      → Keeps w
      → w'.conn.channel.fd ≡ w.conn.channel.fd
      → w'.conn.closing ≡ w.conn.closing
      → w'.closed ≡ w.closed
      → w'.loop ≡ w.loop
      → Keeps w'
  Keeps-same v d c k l = record {
    descriptor = d ∙ v.descriptor;
    closes = k ∙ v.closes ∙ ap (λ b. once b fd) (sym c);
    erasures =
        ap (λ (q : EventLoop ℤ). q.pending_functors) l
        ∙ v.erasures
        ∙ ap (λ b. before ++ once b fd) (sym c);
  }

  remove_connection-Keeps : (w : World) → Keeps w → Keeps (remove_connection w)
  unfolding remove_connection
  remove_connection-Keeps w v = record {
    descriptor = ground (arith, disable_all-fd w.epoll w.conn.channel);
    closes = ground arith;
    erasures = ground (arith, queue_in_loop-pending w.loop w.conn.channel.fd, append-nil before);
  }

  noted_lem : (w : World) (n : ℕ) → Keeps w → Keeps (with_revents w n)
  noted_lem w n v = Keeps-same v refl refl refl refl

  pub ClosedOnce-Preserved : Preserved Keeps
  unfolding switched
  ClosedOnce-Preserved = record {
    same = λ w w' c g l e k v. Keeps-same v (ap (λ (x : Channel Callback). x.fd) c) g k l;
    switches = λ op w v. Keeps-same v (apply_same op w.epoll w.conn.channel).0 refl refl refl;
    removed = remove_connection-Keeps;
  }

-- Whatever the events, and whatever the system calls answer, this holds after them if it held
-- before: once the connection is closing, `close` was called for its descriptor exactly once and
-- its erasure was queued exactly once, and before that neither.
pub run_events-ClosedOnce :
    (setup : Setup) (evs : List Event) (w : World) (fd : ℤ) (before : List ℤ)
    → ClosedOnce fd before w
    → ClosedOnce fd before (run_events setup evs w)
run_events-ClosedOnce setup evs w fd before v =
    run_events-keeps (ClosedOnce-Preserved fd before) setup (noted_lem fd before) evs w v

pub new_connection-ClosedOnce :
    (self : ℕ) (fd : ℤ) (loop : EventLoop ℤ) (epoll : Epoll)
    → ClosedOnce fd loop.pending_functors (new_connection self fd loop epoll)
unfolding new_connection enable_reading
new_connection-ClosedOnce self fd loop epoll = record {
  descriptor = ground arith;
  closes = ground arith;
  erasures = ground (arith, append-nil loop.pending_functors);
}
