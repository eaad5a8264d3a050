-- ===== src/Server/Connection/Sharing.antt =====
-- What a handler of one connection leaves alone: its own descriptor and address, the eventfd of the
-- loop, and what the epoll knows of the other descriptors.
use cs_system_lab.Prelude.{ℕ, ◌≡◌, refl, ap, ◌∙◌, true, false, inl, inr, arith, Bool-cases}
use cs_system_lab.Prelude.Int.{ℤ, eq_int}
use cs_system_lab.Reactor.Epoll.{Epoll, interest}
use cs_system_lab.Reactor.Channel.{Channel}
use cs_system_lab.Reactor.Channel.Registration.{Op, all_off, apply, apply_same, apply_other}
use cs_system_lab.Reactor.EventLoop.{EventLoop, queue_in_loop}
use cs_system_lab.Server.Connection.{Callback, World, Setup, Event, remove_connection, dispatch}
use cs_system_lab.Server.Connection.Preserving.{with_revents, switched, Preserved, dispatch-keeps}

-- The parts of a world that no handler changes.
pub record Alike (v w : World) : Type 0 where
  pub fd : w.conn.channel.fd ≡ v.conn.channel.fd
  pub self : w.conn.channel.self ≡ v.conn.channel.self
  pub wakeup_fd : w.loop.wakeup_fd ≡ v.loop.wakeup_fd
  pub elsewhere :
      (d : ℤ)
      → eq_int v.conn.channel.fd d ≡ false
      → interest w.epoll.calls d ≡ interest v.epoll.calls d

Alike-refl : (v : World) → Alike v v
Alike-refl v = record { fd = refl; self = refl; wakeup_fd = refl; elsewhere = λ d h. refl }

module _ (v : World) where
  Alike-same :
      (w w' : World)
      → w'.conn.channel ≡ w.conn.channel
      → w'.conn.closing ≡ w.conn.closing
      → w'.loop ≡ w.loop
      → w'.epoll ≡ w.epoll
      → w'.closed ≡ w.closed
      → Alike v w
      → Alike v w'
  Alike-same w w' c g l e k a = record {
    fd = ap (λ (x : Channel Callback). x.fd) c ∙ a.fd;
    self = ap (λ (x : Channel Callback). x.self) c ∙ a.self;
    wakeup_fd = ap (λ (x : EventLoop ℤ). x.wakeup_fd) l ∙ a.wakeup_fd;
    elsewhere = λ d h. ap (λ (x : Epoll). interest x.calls d) e ∙ a.elsewhere d h;
  }

  Alike-switched : (op : Op) (w : World) → Alike v w → Alike v (switched op w)
  unfolding switched
  Alike-switched op w a =
      let (fd, self) = apply_same op w.epoll w.conn.channel in
      record {
        fd = fd ∙ a.fd;
        self = self ∙ a.self;
        wakeup_fd = a.wakeup_fd;
        elsewhere = λ d h.
            apply_other op w.epoll w.conn.channel d (ap (λ x. eq_int x d) a.fd ∙ h)
            ∙ a.elsewhere d h;
      }

  queue_in_loop-wakeup_fd :
      (l : EventLoop ℤ) (fd : ℤ) → (queue_in_loop l fd).wakeup_fd ≡ l.wakeup_fd
  unfolding queue_in_loop
  queue_in_loop-wakeup_fd l fd = ground arith

  remove_connection-closing : (w : World) → w.conn.closing ≡ true → remove_connection w ≡ w
  unfolding remove_connection
  remove_connection-closing w e = ground arith

  Alike-removed : (w : World) → Alike v w → Alike v (remove_connection w)
  unfolding remove_connection switched apply
  Alike-removed w a = elim (Bool-cases w.conn.closing) [
    | inl e ↦ rw (remove_connection-closing w e) a
    | inr e ↦
        let b = Alike-switched all_off w a in
        rw e (record {
          fd = b.fd;
          self = b.self;
          wakeup_fd = queue_in_loop-wakeup_fd w.loop w.conn.channel.fd ∙ b.wakeup_fd;
          elsewhere = b.elsewhere;
        })
  ]

  Alike-noted : (w : World) (n : ℕ) → Alike v w → Alike v (with_revents w n)
  Alike-noted w n a = record {
    fd = a.fd;
    self = a.self;
    wakeup_fd = a.wakeup_fd;
    elsewhere = a.elsewhere;
  }

  Alike-Preserved : Preserved (Alike v)
  Alike-Preserved = record { same = Alike-same; switches = Alike-switched; removed = Alike-removed }

pub dispatch-Alike : (setup : Setup) (ev : Event) (w : World) → Alike w (dispatch setup ev w)
dispatch-Alike setup ev w =
    dispatch-keeps (Alike-Preserved w) setup (Alike-noted w) ev w (Alike-refl w)
