-- ===== src/Server/Loop.antt =====
-- The server with all on one loop (`numThreads` 0): HttpServer.cpp with one turn of the loop of
-- EventLoop.cpp. A connection is an object at an address; the channel's address, which the kernel
-- hands back with an event, stands for that of the connection, which owns it. The objects that are
-- alive are those of `heap`, and a use of another is `none`.
mod Sound
mod Handling
pub mod Admitting
mod Ending
pub mod Batch
pub mod Ready
pub mod Step
mod Turn
pub mod Safety
pub mod Destroying
pub mod Alone
mod Callbacks
pub mod Replies
pub mod Whole
use cs_system_lab.Prelude.{ℕ, List, [], ◌∷◌, ◌++◌, Option, none, some, ◌==◌, if◌then◌else◌, ◌>>=◌}
use cs_system_lab.Prelude.Bytes.{Bytes}
use cs_system_lab.Prelude.Int.{ℤ}
use cs_system_lab.Prelude.Heap.{at_address, destroyed}
use cs_system_lab.Reactor.Epoll.{Epoll}
use cs_system_lab.Reactor.EventLoop.{EventLoop, handle_wakeup, do_pending_functors}
use cs_system_lab.Server.Connection.{Connection, World, Setup, Event, new_connection, dispatch}
use cs_system_lab.Server.Registry.{find_connection, put_connection, erase_connection}

-- A connection, and the bytes that were written to its socket.
pub record Slot : Type 0 where
  pub conn : Connection
  pub wire : Bytes

-- `connections_` is the map from descriptors to the addresses of the objects that it owns.
pub record Store : Type 0 where
  pub heap : ℕ → Option Slot
  pub connections : List (ℤ × ℕ)

pub record Server : Type 0 where
  pub loop : EventLoop ℤ
  pub epoll : Epoll
  pub store : Store
  pub closed : List ℤ
  pub listen_fd : ℤ

-- `connections_[fd] = std::move(conn)`: what the entry owned before is destroyed.
unfoldable pub keep_connection : ℤ → ℕ → Slot → Store → Store
keep_connection fd a slot st = record {
  heap = at_address a (some slot) (destroyed (find_connection fd st.connections) st.heap);
  connections = put_connection fd a st.connections;
}

-- `connections_.erase(fd)`
unfoldable pub drop_connection : ℤ → Store → Store
drop_connection fd st = record {
  heap = destroyed (find_connection fd st.connections) st.heap;
  connections = erase_connection fd st.connections;
}

-- What the handlers of a connection act on.
abbrev pub world : Server → Slot → World
world s slot = record {
  conn = slot.conn;
  loop = s.loop;
  epoll = s.epoll;
  wire = slot.wire;
  closed = [];
}

-- What they leave.
unfoldable pub written_back : ℕ → Server → World → Server
written_back a s w = record s {
  loop = w.loop;
  epoll = w.epoll;
  store = record s.store {
    heap = at_address a (some (record { conn = w.conn; wire = w.wire })) s.store.heap;
  };
  closed = w.closed ++ s.closed;
}

-- `onNewConnection` for an accepted descriptor; `new` gives the object the address `a`. The pool
-- has no threads, so that the loop is that of the caller, and `runInLoop` runs the functor at once.
unfoldable pub admit : ℤ → ℕ → Server → Server
admit fd a s =
    let w = new_connection a fd s.loop s.epoll in
    record s {
      loop = w.loop;
      epoll = w.epoll;
      store = keep_connection fd a (record { conn = w.conn; wire = w.wire }) s.store;
    }

-- What the loop does between two calls of `wait`: an event that the kernel reports of a descriptor,
-- with the pointer that was registered for it; one round of the loop of `onAccept`; a wakeup.
pub data Item : Type 0 where
  reported : ℤ → ℕ → Event → Item
  accepted : ℤ → ℕ → Item
  woken : Item

-- The functors that `removeConnection` queued.
abbrev pub erase_functor : ℤ → EventLoop ℤ × Store → EventLoop ℤ × Store
erase_functor fd (l, st) = (l, drop_connection fd st)

-- `doPendingFunctors`
unfoldable pub end_turn : Server → Server
unfolding do_pending_functors
end_turn s =
    let (l, st) = do_pending_functors erase_functor (s.loop, s.store) in
    record s { loop = l; store = st }

module _ (setup : Setup) where
  -- `handleEvent` of the channel that an event points to.
  abbrev pub on_object : ℕ → Event → Server → Option Slot → Option Server
  on_object a ev s none = none
  on_object a ev s (some slot) = some (written_back a s (dispatch setup ev (world s slot)))

  unfoldable pub handle : Item → Server → Option Server
  handle (reported fd ptr ev) s = on_object ptr ev s (s.store.heap ptr)
  handle (accepted fd a) s = some (admit fd a s)
  handle woken s = some (record s { loop = handle_wakeup s.loop })

  -- The items of a turn, and the functors behind them.
  unfoldable pub server_turn : List Item → Server → Option Server
  server_turn [] s = some (end_turn s)
  server_turn (i ∷ items) s = do s' ← handle i s; server_turn items s'
