-- ===== src/Server/Loop/Safety.antt =====
-- HttpServer with no threads, from its constructor on: what its turns can and cannot do.
use cs_system_lab.Prelude.{
  ℕ, ◌≡◌, ◌≢◌, ◌⊎◌, refl, Bool, true, false, inl, inr, List, [], none, some, arith, Bool-cases,
}
use cs_system_lab.Prelude.Int.{ℤ, pos, negsuc, eq_int, eq_int→eq}
use cs_system_lab.Reactor.Epoll.{Epoll, Interest, interest, AllGranted}
use cs_system_lab.Reactor.Channel.{enable_reading}
use cs_system_lab.Reactor.EventLoop.Lifetime.{open_loop}
use cs_system_lab.Net.Acceptor.{open_acceptor}
use cs_system_lab.Server.Connection.{Setup}
use cs_system_lab.Server.Connection.Watching.{Live}
use cs_system_lab.Server.Registry.{find_connection, is_queued}
use cs_system_lab.Server.Loop.{Slot, Server, Item, world, server_turn}
use cs_system_lab.Server.Loop.Sound.{IsOwn, Sound}
use cs_system_lab.Server.Loop.Batch.{IsBatch}
use cs_system_lab.Server.Loop.Turn.{server_turn-Turned}

-- What the constructor is given: the addresses of the two channels, the thread, and the answers of
-- `eventfd`, `socket`, `bind` and `listen`.
pub record Opening : Type 0 where
  pub wakeup_channel : ℕ
  pub accept_channel : ℕ
  pub thread : ℕ
  pub eventfd : ℤ
  pub socket : ℤ
  pub bound : Bool
  pub listening : Bool

-- The constructor: the members `mainLoop_` and `acceptor_`, on the epoll of the loop.
unfoldable pub open_server : Opening → Server
open_server o =
    let (loop, epoll, channel) =
      open_loop o.wakeup_channel o.eventfd o.thread (record { calls = [] }) in
    let (epoll', acceptor) = open_acceptor o.accept_channel o.socket o.bound o.listening epoll in
    record {
      loop = loop;
      epoll = epoll';
      store = record { heap = λ a. none; connections = [] };
      closed = [];
      listen_fd = o.socket;
    }

-- The states between turns.
pub data Runs (setup : Setup) (o : Opening) : Server → Type 0 where
  begun : Runs setup o (open_server o)
  turned :
      {s t : Server} (items : List Item)
      → Runs setup o s
      → IsBatch s items
      → server_turn setup items s ≡ some t
      → Runs setup o t

-- Every pointer that the epoll holds, but for those of the server's own two channels, is that of a
-- connection that is alive and open, under its own descriptor; every connection that is alive is
-- open and in the map, and the epoll watches it; and no erasure is queued.
pub record Settled (s : Server) : Type 0 where
  pub pointers :
      (fd : ℤ) (i : Interest)
      → interest s.epoll.calls fd ≡ some i
      → IsOwn s fd
        ⊎ ((slot : Slot) × (s.store.heap i.ptr ≡ some slot)
            × (slot.conn.channel.fd ≡ fd)
            × (slot.conn.closing ≡ false))
  pub objects :
      (a : ℕ) (slot : Slot)
      → s.store.heap a ≡ some slot
      → Live (world s slot) × (find_connection slot.conn.channel.fd s.store.connections ≡ some a)
  pub none_queued : s.loop.pending_functors ≡ []

Sound-Settled : (s : Server) → Sound s → s.loop.pending_functors ≡ [] → Settled s
unfolding is_queued
Sound-Settled s sound none_queued =
    let objects = (λ (a : ℕ) (slot : Slot) (e : s.store.heap a ≡ some slot).
      let o = sound.owned a slot e in
      elim o.watched
        as (λ _.
          Live (world s slot)
          × (find_connection slot.conn.channel.fd s.store.connections ≡ some a)) [
            | inl (v, n) ↦ (v, o.entry)
            | inr (v, q) ↦ absurd (ground (arith, none_queued))
          ]) in
    record {
      pointers = λ fd i e. elim (sound.known fd i e) [
        | inl o ↦ inl o
        | inr f ↦
            let o = sound.stored fd i.ptr f in
            inr (o.slot, o.alive, o.fd_of, (objects i.ptr o.slot o.alive).0.open_yet)
      ];
      objects = objects;
      none_queued = none_queued;
    }

-- The acceptor registers its own descriptor at most.
record Adds (fd : ℤ) (e e' : Epoll) : Type 0 where
  granted : AllGranted e'.calls
  known :
      (d : ℤ) (i : Interest)
      → interest e'.calls d ≡ some i
      → (d ≡ fd) ⊎ (interest e.calls d ≡ some i)

open_acceptor-Adds :
    (self : ℕ) (fd : ℤ) (bound listening : Bool) (epoll : Epoll)
    → AllGranted epoll.calls
    → interest epoll.calls fd ≡ none
    → Adds fd epoll (open_acceptor self fd bound listening epoll).0
unfolding open_acceptor enable_reading interest
open_acceptor-Adds self (negsuc n) bound listening epoll g h = record {
  granted = g;
  known = λ d i e. inr e;
}
open_acceptor-Adds self (pos n) false listening epoll g h = record {
  granted = g;
  known = λ d i e. inr e;
}
open_acceptor-Adds self (pos n) true false epoll g h = record {
  granted = g;
  known = λ d i e. inr e;
}
open_acceptor-Adds self (pos n) true true epoll g h = record {
  granted = (h, g);
  known = λ d i e. elim (Bool-cases (eq_int (pos n) d)) [
    | inl k ↦ inl (ground (arith, eq_int→eq (pos n) d))
    | inr k ↦ inr (ground arith)
  ];
}

open_server-Sound : (o : Opening) → o.socket ≢ o.eventfd → Sound (open_server o)
unfolding open_server open_loop interest find_connection is_queued
open_server-Sound o apart =
    let e : Epoll =
      (open_loop {F = ℤ} o.wakeup_channel o.eventfd o.thread (record { calls = [] })).1 in
    let new : interest e.calls o.socket ≡ none = ground (arith, eq_int→eq o.eventfd o.socket) in
    let adds = open_acceptor-Adds o.accept_channel o.socket o.bound o.listening e (refl, tt) new in
    record {
      granted = adds.granted;
      owned = λ a slot h. absurd (cc);
      stored = λ fd a h. absurd (cc);
      queued = λ fd q. absurd (ground arith);
      known = λ fd i h. elim (adds.known fd i h) [
        | inl same ↦ inl (inl same)
        | inr was ↦ inl (inr (ground (arith, eq_int→eq o.eventfd fd)))
      ];
    }

pub Runs-Sound :
    (setup : Setup) (o : Opening) (s : Server) → o.socket ≢ o.eventfd → Runs setup o s → Sound s
Runs-Sound setup o s apart begun = open_server-Sound o apart
Runs-Sound setup o s apart (turned {s = u} items run batch e) =
    let (t, done, r) = server_turn-Turned setup items u (Runs-Sound setup o u apart run) batch in
    let same : t ≡ s = ground arith in rw (← same) r.sound

-- Where the listening socket is not the eventfd, the following holds from the constructor on,
-- whatever the turns before and whatever the system calls answer. A turn in which a descriptor is
-- reported once at most, with the pointer registered for it, in which no descriptor is accepted
-- that is the server's own, in the map or in the turn already, and in which each new object gets an
-- address that is free, ends without the use of an object that was destroyed. Every pointer that
-- the epoll then holds, but for those of the server's own two channels, is that of a connection
-- that is alive and open; every connection that is alive is open, in the map and watched by the
-- epoll; and no erasure is queued.
pub server_turn-Settled :
    (setup : Setup) (o : Opening) (s : Server) (items : List Item)
    → o.socket ≢ o.eventfd
    → Runs setup o s
    → IsBatch s items
    → (t : Server) × (server_turn setup items s ≡ some t) × Settled t
server_turn-Settled setup o s items apart run batch =
    let (t, e, r) = server_turn-Turned setup items s (Runs-Sound setup o s apart run) batch in
    (t, e, Sound-Settled t r.sound r.none_queued)
