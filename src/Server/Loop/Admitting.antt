-- ===== src/Server/Loop/Admitting.antt =====
-- A new connection, and what it leaves of the server.
use cs_system_lab.Prelude.{
  ℕ, ◌≡◌, ◌≢◌, ◌⊎◌, refl, sym, ◌∙◌, true, false, inl, inr, Option, none, some, arith, Bool-cases,
  ◌==◌, if◌then◌else◌,
}
use cs_system_lab.Prelude.Int.{ℤ, eq_int, eq_int_refl, eq_int→eq}
use cs_system_lab.Reactor.Epoll.{Interest, interest, AllGranted}
use cs_system_lab.Reactor.Channel.{enable_reading}
use cs_system_lab.Server.Connection.{World, new_connection}
use cs_system_lab.Server.Connection.Watching.{Live}
use cs_system_lab.Server.Connection.Registering.{new_connection-Live}
use cs_system_lab.Server.Registry.{find_connection, is_queued, find_connection-put_connection}
use cs_system_lab.Server.Loop.{Slot, Server, world, keep_connection, admit}
use cs_system_lab.Server.Loop.Sound.{IsOwn, Owned, Stored, Sound, Live-elsewhere, Watched-elsewhere}

-- A descriptor that the kernel can give: it is open neither as a connection nor as one of the
-- server's own; and an address that `new` can give: no object that is alive stands there.
pub record IsFree (s : Server) (fd : ℤ) (a : ℕ) : Type 0 where
  pub no_entry : find_connection fd s.store.connections ≡ none
  pub not_listening : fd ≢ s.listen_fd
  pub not_eventfd : fd ≢ s.loop.wakeup_fd
  pub no_object : s.store.heap a ≡ none

missing : {A : Type 0} (o : Option A) → ((x : A) → o ≢ some x) → o ≡ none
missing none h = refl
missing (some x) h = absurd (h x refl)

module _ (s : Server) (fd : ℤ) (a : ℕ) (sound : Sound s) (free : IsFree s fd a) where
  open free use {no_entry, not_listening, not_eventfd, no_object}

  abbrev pub after : Server
  after = admit fd a s

  abbrev pub new : World
  new = new_connection a fd s.loop s.epoll

  unknown : interest s.epoll.calls fd ≡ none
  unknown = missing (interest s.epoll.calls fd) (λ i e. elim (sound.known fd i e) [
    | inl (inl o) ↦ not_listening o
    | inl (inr o) ↦ not_eventfd o
    | inr f ↦ absurd (ground (arith, f, no_entry))
  ])

  new-Live : Live new
  new-Live = new_connection-Live a fd s.loop s.epoll unknown sound.granted

  new_fields : (new.conn.channel.fd ≡ fd) × (new.conn.channel.self ≡ a) × (new.loop ≡ s.loop)
  unfolding new_connection enable_reading
  new_fields = (ground arith, ground arith, refl)

  new_elsewhere :
      (d : ℤ) → eq_int fd d ≡ false → interest new.epoll.calls d ≡ interest s.epoll.calls d
  unfolding new_connection enable_reading interest
  new_elsewhere d n = ground arith

  -- No erasure is queued of a descriptor that the map does not hold.
  not_queued : is_queued fd s.loop.pending_functors ≡ false
  not_queued = elim (Bool-cases (is_queued fd s.loop.pending_functors)) [
    | inl e ↦ let (b, f) = sound.queued fd e in absurd (ground (arith, no_entry))
    | inr e ↦ e
  ]

  abbrev pub new_slot : Slot
  new_slot = record { conn = new.conn; wire = new.wire }

  pub after-heap : (b : ℕ) → after.store.heap b ≡ (if a == b then some new_slot else s.store.heap b)
  unfolding admit keep_connection
  after-heap b = rw no_entry refl

  pub after-find :
      (d : ℤ)
      → find_connection d after.store.connections
        ≡ (if eq_int fd d then some a else find_connection d s.store.connections)
  unfolding admit keep_connection
  after-find d = find_connection-put_connection fd d a s.store.connections

  -- The rest of the server but the epoll is as before.
  pub after-loop : (after.loop ≡ s.loop) × (after.listen_fd ≡ s.listen_fd)
  unfolding admit new_connection
  after-loop = (refl, refl)

  pub after_elsewhere :
      (d : ℤ) → eq_int fd d ≡ false → interest after.epoll.calls d ≡ interest s.epoll.calls d
  unfolding admit
  after_elsewhere = new_elsewhere

  after-granted : AllGranted after.epoll.calls
  unfolding admit
  after-granted = new-Live.granted

  new-Owned : Owned after a new_slot
  unfolding admit
  new-Owned =
      let (f, same, l) = new_fields in
      record {
        entry = rw (f, after-find fd, eq_int_refl fd) refl;
        self = same;
        watched = inl (
          Live-elsewhere new (world after new_slot) refl refl after-granted new-Live,
          rw (f, l) not_queued,
        );
      }

  old-Owned : (b : ℕ) (x : Slot) → (a == b) ≡ false → s.store.heap b ≡ some x → Owned after b x
  old-Owned b x n e =
      let o = sound.owned b x e in
      let apart : eq_int fd x.conn.channel.fd ≡ false =
        ground (arith, o.entry, no_entry, eq_int→eq fd x.conn.channel.fd) in
      record {
        entry = rw (after-find x.conn.channel.fd, apart) o.entry;
        self = o.self;
        watched =
            Watched-elsewhere s after x (after_elsewhere x.conn.channel.fd apart)
              (rw (after-loop.0) refl) after-granted o.watched;
      }

  after-Owned : (b : ℕ) (x : Slot) → after.store.heap b ≡ some x → Owned after b x
  after-Owned b x e = elim (Bool-cases (a == b)) [
    | inl k ↦
        let same : b ≡ a = ground arith in
        let is_new : x ≡ new_slot = ground (arith, after-heap b) in rw (same, is_new) new-Owned
    | inr k ↦ old-Owned b x k (ground (arith, after-heap b))
  ]

  after-stored :
      (d : ℤ) (b : ℕ) → find_connection d after.store.connections ≡ some b → Stored after d b
  after-stored d b e = elim (Bool-cases (eq_int fd d)) [
    | inl k ↦
        let same : a ≡ b = ground (arith, after-find d) in
        record {
          slot = new_slot;
          alive = rw (← same, after-heap a) (ground arith);
          fd_of = new_fields.0 ∙ eq_int→eq fd d k;
        }
    | inr k ↦
        let old = sound.stored d b (ground (arith, after-find d)) in
        record {
          slot = old.slot;
          alive = ground (arith, after-heap b, old.alive, no_object);
          fd_of = old.fd_of;
        }
  ]

  after-known :
      (d : ℤ) (i : Interest)
      → interest after.epoll.calls d ≡ some i
      → IsOwn after d ⊎ (find_connection d after.store.connections ≡ some i.ptr)
  unfolding admit
  after-known d i e = elim (Bool-cases (eq_int fd d)) [
    | inl k ↦
        let same : fd ≡ d = eq_int→eq fd d k in
        inr (rw (after-find d, k) (ground (arith, new-Live.follows.known, new_fields)))
    | inr k ↦ elim (sound.known d i (sym (new_elsewhere d k) ∙ e)) [
      | inl o ↦ inl (rw (new_fields.2) o)
      | inr f ↦ inr (rw (after-find d, k) f)
    ]
  ]

  after-queued :
      (d : ℤ)
      → is_queued d after.loop.pending_functors ≡ true
      → (b : ℕ) × (find_connection d after.store.connections ≡ some b)
  after-queued d e = elim (Bool-cases (eq_int fd d)) [
    | inl k ↦ (a, rw (after-find d, k) refl)
    | inr k ↦
        let (b, f) = sound.queued d (ground (arith, after-loop.0)) in (b, rw (after-find d, k) f)
  ]

  -- The server is sound again.
  pub after-Sound : Sound after
  after-Sound = record {
    granted = after-granted;
    owned = after-Owned;
    stored = after-stored;
    queued = after-queued;
    known = after-known;
  }
