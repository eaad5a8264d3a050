-- ===== src/Server/Loop/Handling.antt =====
-- An event on a connection, and what it leaves of the server.
use cs_system_lab.Prelude.{
  ℕ, ◌≡◌, ◌⊎◌, refl, sym, ap, ◌∙◌, true, false, ◌||◌, ◌&&◌, inl, inr, [], ◌∷◌, ◌++◌, some, arith,
  append-nil, Bool-cases, ◌==◌,
}
use cs_system_lab.Prelude.Int.{ℤ, eq_int, eq_int_refl, eq_int→eq}
use cs_system_lab.Reactor.Epoll.{Interest, interest, AllGranted}
use cs_system_lab.Server.Connection.{World, Setup, Event, dispatch, run_events}
use cs_system_lab.Server.Connection.Watching.{Live, IsRegistered}
use cs_system_lab.Server.Connection.Registering.{dispatch-IsRegistered}
use cs_system_lab.Server.Connection.Sharing.{Alike, dispatch-Alike}
use cs_system_lab.Server.Connection.Closing.{once, ClosedOnce, run_events-ClosedOnce}
use cs_system_lab.Server.Registry.{find_connection, is_queued, is_queued-append}
use cs_system_lab.Server.Loop.{Slot, Server, world, written_back}
use cs_system_lab.Server.Loop.Sound.{
  IsOwn, Watched, Owned, Stored, Sound, Live-elsewhere, Dead-elsewhere, Watched-elsewhere,
}

-- What a handler leaves of a connection that was open, and of its loop.
pub record Handled (s : Server) (slot : Slot) (w : World) : Type 0 where
  pub alike : Alike (world s slot) w
  pub registered : IsRegistered w
  pub pending :
      w.loop.pending_functors ≡ s.loop.pending_functors ++ once w.conn.closing slot.conn.channel.fd

pub dispatch-Handled :
    (setup : Setup) (ev : Event) (s : Server) (slot : Slot)
    → Live (world s slot)
    → Handled s slot (dispatch setup ev (world s slot))
unfolding run_events
dispatch-Handled setup ev s slot v = record {
  alike = dispatch-Alike setup ev (world s slot);
  registered = dispatch-IsRegistered setup ev (world s slot) v;
  pending = closed_once.erasures;
}
  where
    begun : ClosedOnce slot.conn.channel.fd s.loop.pending_functors (world s slot)
    begun = record {
      descriptor = refl;
      closes = rw v.open_yet refl;
      erasures = rw (v.open_yet, append-nil s.loop.pending_functors) refl;
    }

    closed_once :
        ClosedOnce slot.conn.channel.fd s.loop.pending_functors (dispatch setup ev (world s slot))
    closed_once =
        run_events-ClosedOnce setup (ev ∷ []) (world s slot) slot.conn.channel.fd
          s.loop.pending_functors begun

module _ (s : Server) (a : ℕ) (slot : Slot) (w : World) where
  -- The server after the handler.
  abbrev after : Server
  after = written_back a s w

  abbrev here : ℤ
  here = slot.conn.channel.fd

  module _ (sound : Sound s) (at : s.store.heap a ≡ some slot) (h : Handled s slot w)
      (free : is_queued slot.conn.channel.fd s.loop.pending_functors ≡ false) where
    open h use {alike, registered, pending}
    open alike use {fd, self, wakeup_fd, elsewhere}

    own : Owned s a slot
    own = sound.owned a slot at

    after-granted : AllGranted after.epoll.calls
    unfolding written_back
    after-granted = elim registered [ inl v ↦ v.granted | inr v ↦ v.granted ]

    -- An erasure is queued as before, or it is that of this connection, which is closing.
    after-is_queued :
        (d : ℤ)
        → is_queued d after.loop.pending_functors
          ≡ (is_queued d s.loop.pending_functors || (w.conn.closing && eq_int here d))
    unfolding written_back
    after-is_queued d = elim (Bool-cases w.conn.closing) [
      | inl e ↦ rw (pending, e) (is_queued-append d here s.loop.pending_functors)
      | inr e ↦ rw (pending, e, append-nil s.loop.pending_functors) (ground arith)
    ]

    pub after-other :
        (d : ℤ)
        → eq_int here d ≡ false
        → is_queued d after.loop.pending_functors ≡ is_queued d s.loop.pending_functors
    after-other d n = rw (after-is_queued d, n) (ground arith)

    after-IsOwn : (d : ℤ) → IsOwn s d → IsOwn after d
    unfolding written_back
    after-IsOwn d (inl e) = inl e
    after-IsOwn d (inr e) = inr (e ∙ sym wakeup_fd)

    abbrev new_slot : Slot
    new_slot = record { conn = w.conn; wire = w.wire }

    after-Watched : Watched after new_slot
    unfolding written_back
    after-Watched = elim registered [
      | inl v ↦
          let kept : is_queued w.conn.channel.fd after.loop.pending_functors ≡ false =
            rw (fd, after-is_queued here, free, v.open_yet) refl in
          inl (Live-elsewhere w (world after new_slot) refl refl v.granted v, kept)
      | inr v ↦
          let shut : is_queued w.conn.channel.fd after.loop.pending_functors ≡ true =
            rw (fd, after-is_queued here, free, v.shut, eq_int_refl here) refl in
          inr (Dead-elsewhere w (world after new_slot) refl refl v.granted v, shut)
    ]

    new-Owned : Owned after a new_slot
    unfolding written_back
    new-Owned = record {
      entry = ap (λ d. find_connection d s.store.connections) fd ∙ own.entry;
      self = self ∙ own.self;
      watched = after-Watched;
    }

    old-Owned :
        (b : ℕ) (slot' : Slot)
        → (a == b) ≡ false
        → s.store.heap b ≡ some slot'
        → Owned after b slot'
    unfolding written_back
    old-Owned b slot' n e =
        let o = sound.owned b slot' e in
        let apart : eq_int here slot'.conn.channel.fd ≡ false =
          ground (arith, own.entry, o.entry, eq_int→eq here slot'.conn.channel.fd) in
        record {
          entry = o.entry;
          self = o.self;
          watched =
              Watched-elsewhere s after slot' (elsewhere slot'.conn.channel.fd apart)
                (after-other slot'.conn.channel.fd apart) after-granted o.watched;
        }

    after-Owned : (b : ℕ) (x : Slot) → after.store.heap b ≡ some x → Owned after b x
    unfolding written_back
    after-Owned b x e = elim (Bool-cases (a == b)) [
      | inl k ↦
          let same : b ≡ a = ground arith in
          let is_new : x ≡ new_slot = ground arith in rw (same, is_new) new-Owned
      | inr k ↦ old-Owned b x k (ground arith)
    ]

    after-stored :
        (d : ℤ) (b : ℕ) → find_connection d after.store.connections ≡ some b → Stored after d b
    unfolding written_back
    after-stored d b e =
        let old = sound.stored d b e in
        elim (Bool-cases (a == b)) [
          | inl k ↦
              let same : a ≡ b = ground arith in
              let was : slot ≡ old.slot = ground (arith, old.alive, at) in
              record {
                slot = new_slot;
                alive = rw k refl;
                fd_of = fd ∙ ap (λ (x : Slot). x.conn.channel.fd) was ∙ old.fd_of;
              }
          | inr k ↦ record { slot = old.slot; alive = rw k old.alive; fd_of = old.fd_of }
        ]

    after-known :
        (d : ℤ) (i : Interest)
        → interest after.epoll.calls d ≡ some i
        → IsOwn after d ⊎ (find_connection d after.store.connections ≡ some i.ptr)
    unfolding written_back
    after-known d i e = elim (Bool-cases (eq_int here d)) [
      | inl k ↦
          let same : here ≡ d = eq_int→eq here d k in
          inr (
            rw (← same) (elim registered [
              | inl v ↦ ground (arith, v.follows.known, own.entry, own.self, self, fd)
              | inr v ↦ absurd (ground (arith, v.follows.known, fd))
            ]))
      | inr k ↦ elim (sound.known d i (sym (elsewhere d k) ∙ e)) [
        | inl o ↦ inl (after-IsOwn d o)
        | inr f ↦ inr f
      ]
    ]

    after-queued :
        (d : ℤ)
        → is_queued d after.loop.pending_functors ≡ true
        → (b : ℕ) × (find_connection d after.store.connections ≡ some b)
    unfolding written_back
    after-queued d e = elim (Bool-cases (eq_int here d)) [
      | inl k ↦ rw (← eq_int→eq here d k) (a, own.entry)
      | inr k ↦ sound.queued d (sym (after-other d k) ∙ e)
    ]

    -- The server is sound again.
    pub after-Sound : Sound after
    after-Sound = record {
      granted = after-granted;
      owned = after-Owned;
      stored = after-stored;
      queued = after-queued;
      known = after-known;
    }
