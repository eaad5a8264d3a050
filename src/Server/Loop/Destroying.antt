-- ===== src/Server/Loop/Destroying.antt =====
-- The destructor of HttpServer, where the pool has no threads: its body, and then the destructors of
-- its members, the last first.
use cs_system_lab.Prelude.{ℕ, List, [], ◌∷◌, Option, none}
use cs_system_lab.Prelude.Heap.{at_address}
use cs_system_lab.Prelude.Int.{ℤ}
use cs_system_lab.Reactor.Channel.{Channel}
use cs_system_lab.Reactor.EventLoop.Lifetime.{WakeupCallback, close_loop}
use cs_system_lab.Net.Acceptor.{Acceptor, close_acceptor}
use cs_system_lab.Server.Loop.{Slot, Store, Server}

unfoldable pub destroy_all : List (ℤ × ℕ) → (ℕ → Option Slot) → ℕ → Option Slot
destroy_all [] heap = heap
destroy_all ((fd, a) ∷ m) heap = destroy_all m (at_address a none heap)

-- `connections_.clear()`
unfoldable pub clear_connections : Store → Store
clear_connections st = record { heap = destroy_all st.connections st.heap; connections = [] }

-- The destructor, with the acceptor and the channel of the loop's eventfd.
unfoldable pub destroy_server : Server → Acceptor → Channel WakeupCallback → Server
destroy_server s acceptor wakeup_channel =
    let (epoll, closed) = close_acceptor s.epoll acceptor s.closed in
    let (epoll', closed') = close_loop s.loop epoll wakeup_channel closed in
    record s { epoll = epoll'; store = clear_connections s.store; closed = closed' }
