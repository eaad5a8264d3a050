-- ===== src/Server/Loop/Sound.antt =====
-- What holds of the server between the items of a turn.
use cs_system_lab.Prelude.{ℕ, ◌≡◌, ◌⊎◌, refl, ◌∙◌, true, false, inl, inr, some}
use cs_system_lab.Prelude.Int.{ℤ}
use cs_system_lab.Reactor.Epoll.{Interest, interest, AllGranted}
use cs_system_lab.Server.Connection.{World}
use cs_system_lab.Server.Connection.Watching.{Live, Dead}
use cs_system_lab.Server.Registry.{find_connection, is_queued}
use cs_system_lab.Server.Loop.{Slot, Server, world}

-- The descriptors that are not connections: the listening socket and the eventfd.
abbrev pub IsOwn : Server → ℤ → Type 0
IsOwn s fd = (fd ≡ s.listen_fd) ⊎ (fd ≡ s.loop.wakeup_fd)

-- A connection is open and watched, or closed and forgotten by the epoll, and then its erasure is
-- queued.
abbrev pub Watched : Server → Slot → Type 0
Watched s slot =
    (Live (world s slot) × (is_queued slot.conn.channel.fd s.loop.pending_functors ≡ false))
    ⊎ (Dead (world s slot) × (is_queued slot.conn.channel.fd s.loop.pending_functors ≡ true))

-- The object at `a`: the map owns it under its descriptor, and its channel stands at `a`.
pub record Owned (s : Server) (a : ℕ) (slot : Slot) : Type 0 where
  pub entry : find_connection slot.conn.channel.fd s.store.connections ≡ some a
  pub self : slot.conn.channel.self ≡ a
  pub watched : Watched s slot

-- The object that the map owns under a descriptor.
pub record Stored (s : Server) (fd : ℤ) (a : ℕ) : Type 0 where
  pub slot : Slot
  pub alive : s.store.heap a ≡ some slot
  pub fd_of : slot.conn.channel.fd ≡ fd

pub record Sound (s : Server) : Type 0 where
  pub granted : AllGranted s.epoll.calls
  -- The objects that are alive are those that the map owns.
  pub owned : (a : ℕ) (slot : Slot) → s.store.heap a ≡ some slot → Owned s a slot
  pub stored : (fd : ℤ) (a : ℕ) → find_connection fd s.store.connections ≡ some a → Stored s fd a
  -- An erasure that is queued is that of an object.
  pub queued :
      (fd : ℤ)
      → is_queued fd s.loop.pending_functors ≡ true
      → (a : ℕ) × (find_connection fd s.store.connections ≡ some a)
  -- The epoll points at no other objects.
  pub known :
      (fd : ℤ) (i : Interest)
      → interest s.epoll.calls fd ≡ some i
      → IsOwn s fd ⊎ (find_connection fd s.store.connections ≡ some i.ptr)

-- What is seen of a connection when the server changes elsewhere.
module _ (w w' : World) where
  pub Live-elsewhere :
      w'.conn ≡ w.conn
      → interest w'.epoll.calls w.conn.channel.fd ≡ interest w.epoll.calls w.conn.channel.fd
      → AllGranted w'.epoll.calls
      → Live w
      → Live w'
  Live-elsewhere c i g v = rw c (record {
    open_yet = v.open_yet;
    follows = record {
      events = v.follows.events;
      flag = v.follows.flag;
      known = i ∙ v.follows.known;
    };
    granted = g;
  })

  pub Dead-elsewhere :
      w'.conn ≡ w.conn
      → interest w'.epoll.calls w.conn.channel.fd ≡ interest w.epoll.calls w.conn.channel.fd
      → AllGranted w'.epoll.calls
      → Dead w
      → Dead w'
  Dead-elsewhere c i g v = rw c (record {
    shut = v.shut;
    follows = record {
      events = v.follows.events;
      flag = v.follows.flag;
      known = i ∙ v.follows.known;
    };
    granted = g;
  })

-- A connection whose interest and erasure are as before.
pub Watched-elsewhere :
    (s s' : Server) (slot : Slot)
    → interest s'.epoll.calls slot.conn.channel.fd ≡ interest s.epoll.calls slot.conn.channel.fd
    → is_queued slot.conn.channel.fd s'.loop.pending_functors
      ≡ is_queued slot.conn.channel.fd s.loop.pending_functors
    → AllGranted s'.epoll.calls
    → Watched s slot
    → Watched s' slot
Watched-elsewhere s s' slot i q g (inl (v, n)) =
    inl (Live-elsewhere (world s slot) (world s' slot) refl i g v, q ∙ n)
Watched-elsewhere s s' slot i q g (inr (v, n)) =
    inr (Dead-elsewhere (world s slot) (world s' slot) refl i g v, q ∙ n)
