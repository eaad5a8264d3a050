-- ===== src/Server/Loop/Step.antt =====
-- One item of a turn of the server's loop.
use cs_system_lab.Prelude.{ℕ, ◌≡◌, refl, ◌∙◌, false, List, [], ◌∷◌, some, arith, ◌==◌}
use cs_system_lab.Prelude.Int.{ℤ, eq_int, eq_int_refl}
use cs_system_lab.Reactor.Epoll.{Interest, interest}
use cs_system_lab.Reactor.EventLoop.{EventLoop, handle_wakeup}
use cs_system_lab.Server.Connection.{Setup, Event, dispatch}
use cs_system_lab.Server.Registry.{find_connection}
use cs_system_lab.Server.Loop.{
  Slot, Server, Item, reported, accepted, woken, world, written_back, admit, handle,
}
use cs_system_lab.Server.Loop.Sound.{Sound, Watched-elsewhere}
use cs_system_lab.Server.Loop.Handling.{dispatch-Handled}
use cs_system_lab.Server.Loop.Batch.{Omits, IsBatch, Elsewhere, IsBatch-elsewhere, alive-Spares}
use cs_system_lab.Server.Loop.Ready.{IsReported-Ready, written_back-Handles, admit-Handles}

-- A connection that the epoll knows, with all that there is of it.
pub record Held (d : ℤ) (b : ℕ) (x : Slot) (i : Interest) (s : Server) : Type 0 where
  pub entry : find_connection d s.store.connections ≡ some b
  pub alive : s.store.heap b ≡ some x
  pub watched : interest s.epoll.calls d ≡ some i

Held-Elsewhere :
    (fd : ℤ) (a : ℕ) (s t : Server) (d : ℤ) (b : ℕ) (x : Slot) (i : Interest)
    → Elsewhere fd a s t
    → eq_int fd d ≡ false
    → (a == b) ≡ false
    → Held d b x i s
    → Held d b x i t
Held-Elsewhere fd a s t d b x i e n m h = record {
  entry = e.finds d n ∙ h.entry;
  alive = e.holds b m ∙ h.alive;
  watched = e.knows d n ∙ h.watched;
}

-- What there is after an item, in view of the items behind it.
pub record Handed (i : Item) (items : List Item) (s t : Server) : Type 0 where
  pub sound : Sound t
  pub batch : IsBatch t items
  pub held :
      (d : ℤ) (b : ℕ) (x : Slot) (k : Interest) → Omits d (i ∷ []) → Held d b x k s → Held d b x k t

handle_wakeup-same :
    (l : EventLoop ℤ)
    → ((handle_wakeup l).pending_functors ≡ l.pending_functors)
      × ((handle_wakeup l).wakeup_fd ≡ l.wakeup_fd)
unfolding handle_wakeup
handle_wakeup-same l = ground arith

-- The counter of the eventfd is nothing to a connection, nor the loop's flag.
other_loop-Sound :
    (s : Server) (l : EventLoop ℤ)
    → l.pending_functors ≡ s.loop.pending_functors
    → l.wakeup_fd ≡ s.loop.wakeup_fd
    → Sound s
    → Sound (record s { loop = l })
other_loop-Sound s l p f sound =
    let t : Server = record s { loop = l } in
    record {
      granted = sound.granted;
      owned = λ a x e.
          let o = sound.owned a x e in
          record {
            entry = o.entry;
            self = o.self;
            watched = Watched-elsewhere s t x refl (rw p refl) sound.granted o.watched;
          };
      stored = λ fd a e.
          let o = sound.stored fd a e in record { slot = o.slot; alive = o.alive; fd_of = o.fd_of };
      queued = λ fd q. sound.queued fd (rw (← p) q);
      known = λ fd i e. rw f (sound.known fd i e);
    }

other_loop-IsBatch :
    (s : Server) (l : EventLoop ℤ) (items : List Item)
    → l.wakeup_fd ≡ s.loop.wakeup_fd
    → IsBatch s items
    → IsBatch (record s { loop = l }) items
other_loop-IsBatch s l [] f b = tt
other_loop-IsBatch s l (reported d ptr ev ∷ items) f (r, o, b) = (
  record {
    events = r.events;
    registered = r.registered;
    not_listening = r.not_listening;
    not_eventfd = rw f r.not_eventfd;
  },
  o,
  other_loop-IsBatch s l items f b,
)
other_loop-IsBatch s l (accepted d a ∷ items) f (r, o, k, b) = (
  record {
    no_entry = r.no_entry;
    not_listening = r.not_listening;
    not_eventfd = rw f r.not_eventfd;
    no_object = r.no_object;
  },
  o,
  k,
  other_loop-IsBatch s l items f b,
)
other_loop-IsBatch s l (woken ∷ items) f b = other_loop-IsBatch s l items f b

woken-Handed :
    (s : Server) (items : List Item)
    → Sound s
    → IsBatch s items
    → Handed woken items s (record s { loop = handle_wakeup s.loop })
woken-Handed s items sound batch =
    let (p, f) = handle_wakeup-same s.loop in
    record {
      sound = other_loop-Sound s (handle_wakeup s.loop) p f sound;
      batch = other_loop-IsBatch s (handle_wakeup s.loop) items f batch;
      held = λ d b x k o h. record { entry = h.entry; alive = h.alive; watched = h.watched };
    }

module _ (setup : Setup) (s : Server) (items : List Item) (sound : Sound s) where
  reported-Handed :
      (fd : ℤ) (ptr : ℕ) (ev : Event)
      → IsBatch s (reported fd ptr ev ∷ items)
      → (t : Server) × (handle setup (reported fd ptr ev) s ≡ some t)
        × Handed (reported fd ptr ev) items s t
  unfolding handle
  reported-Handed fd ptr ev (r, omits, batch) =
      let o = IsReported-Ready s fd ptr sound r in
      let w = dispatch setup ev (world s o.slot) in
      let done =
        written_back-Handles s ptr o.slot w sound o.alive
          (dispatch-Handled setup ev s o.slot o.opened) o.free in
      (
        written_back ptr s w,
        rw (o.alive) refl,
        record {
          sound = done.sound;
          batch =
              IsBatch-elsewhere o.slot.conn.channel.fd ptr s (written_back ptr s w) done.elsewhere
                items (rw (o.fd_of) omits) (alive-Spares s ptr o.slot items o.alive batch) batch;
          held = λ d b x k (n, _) h.
              let there = sound.stored d b h.entry in
              let other : (ptr == b) ≡ false =
                ground (arith, o.alive, o.fd_of, there.alive, there.fd_of, eq_int_refl d) in
              Held-Elsewhere o.slot.conn.channel.fd ptr s _ d b x k done.elsewhere (rw (o.fd_of) n)
                other h;
        },
      )

  accepted-Handed :
      (fd : ℤ) (a : ℕ)
      → IsBatch s (accepted fd a ∷ items)
      → Handed (accepted fd a) items s (admit fd a s)
  accepted-Handed fd a (free, omits, spares, batch) =
      let done = admit-Handles s fd a sound free in
      record {
        sound = done.sound;
        batch = IsBatch-elsewhere fd a s (admit fd a s) done.elsewhere items omits spares batch;
        held = λ d b x k (n, _) h.
            Held-Elsewhere fd a s _ d b x k done.elsewhere n
              (ground (arith, h.alive, free.no_object)) h;
      }

  pub handle-Handed :
      (i : Item)
      → IsBatch s (i ∷ items)
      → (t : Server) × (handle setup i s ≡ some t) × Handed i items s t
  unfolding handle
  handle-Handed (reported fd ptr ev) b = reported-Handed fd ptr ev b
  handle-Handed (accepted fd a) b = (admit fd a s, refl, accepted-Handed fd a b)
  handle-Handed woken b =
      (record s { loop = handle_wakeup s.loop }, refl, woken-Handed s items sound b)
