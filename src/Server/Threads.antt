-- ===== src/Server/Threads.antt =====
-- HttpServer.cpp with its connections on the loops of several threads, which share `connections_`.
-- What a thread does between two points where others can see it is one step; the lock of the map
-- makes each use of it such a step. What the handlers read and write is in Server/Connection; here
-- stands what happens to the objects and the descriptors.
pub mod Places
mod Moves
pub mod Safety
pub mod Objects
pub mod Replies
pub mod Ending
pub mod Closing
mod Alone
use cs_system_lab.Prelude.{
  ℕ, ◌+◌, ◌≡◌, Bool, true, false, List, [], ◌∷◌, ◌++◌, Option, none, some, if◌then◌else◌,
}
use cs_system_lab.Prelude.Heap.{at_fd, at_num, without}
use cs_system_lab.Prelude.Int.{ℤ, eq_int}

-- The functors of a loop: that of `onNewConnection`, and that of `removeConnection`.
pub data Functor : Type 0 where
  make : ℤ → Functor
  erase : ℤ → Functor

-- Where the thread of a loop stands: behind `enableReading` of a new connection, which it is about to
-- store; in `removeConnection` behind `disableAll`; or there behind `close`.
pub data Pc : Type 0 where
  idle : Pc
  storing : ℤ → ℕ → Pc
  closing : ℤ → ℕ → Pc
  queueing : ℤ → ℕ → Pc

-- The descriptors that the kernel has open; for each loop its functors, what its epoll points at and
-- where its thread stands; the map; and the connections that are alive, by their addresses.
pub record System : Type 0 where
  pub opened : ℤ → Bool
  pub functors : ℕ → List Functor
  pub registered : ℕ → ℤ → Option ℕ
  pub pc : ℕ → Pc
  pub connections : ℤ → Option ℕ
  pub alive : ℕ → Bool

abbrev pub nothing_yet : System
nothing_yet = record {
  opened = λ fd. false;
  functors = λ l. [];
  registered = λ l fd. none;
  pc = λ l. idle;
  connections = λ fd. none;
  alive = λ a. false;
}

-- `onNewConnection` in the thread of the acceptor, for the descriptor that `accept` has just given
-- and the loop that the pool gave.
unfoldable pub hand_over : ℤ → ℕ → System → System
hand_over fd l s = record s {
  opened = at_fd fd true s.opened;
  functors = at_num l (s.functors l ++ make fd ∷ []) s.functors;
}

-- Its functor up to `enableReading`; behind it in the queue stands `rest`.
unfoldable pub make_connection : ℕ → ℤ → ℕ → List Functor → System → System
make_connection l fd a rest s = record s {
  functors = at_num l rest s.functors;
  alive = at_num a true s.alive;
  registered = at_num l (at_fd fd (some a) (s.registered l)) s.registered;
  pc = at_num l (storing fd a) s.pc;
}

-- `connections_[conn_fd] = std::move(conn)`: a connection that was stored there is destroyed.
unfoldable pub store_connection : ℕ → ℤ → ℕ → System → System
store_connection l fd a s = record s {
  alive = without (s.connections fd) s.alive;
  connections = at_fd fd (some a) s.connections;
  pc = at_num l idle s.pc;
}

-- `removeConnection` up to `disableAll`
unfoldable pub begin_remove : ℕ → ℤ → ℕ → System → System
begin_remove l fd a s = record s {
  registered = at_num l (at_fd fd none (s.registered l)) s.registered;
  pc = at_num l (closing fd a) s.pc;
}

-- `::close(fd)`
unfoldable pub close_connection : ℕ → ℤ → ℕ → System → System
close_connection l fd a s = record s {
  opened = at_fd fd false s.opened;
  pc = at_num l (queueing fd a) s.pc;
}

-- `queueInLoop`
unfoldable pub queue_erasure : ℕ → ℤ → System → System
queue_erasure l fd s = record s {
  functors = at_num l (s.functors l ++ erase fd ∷ []) s.functors;
  pc = at_num l idle s.pc;
}

-- `connections_.erase(fd)`
unfoldable pub run_erasure : ℕ → ℤ → List Functor → System → System
run_erasure l fd rest s = record s {
  functors = at_num l rest s.functors;
  alive = without (s.connections fd) s.alive;
  connections = at_fd fd none s.connections;
}

-- The kernel gives a descriptor that is not open and, as far as `Allowed` says more, is allowed;
-- `new` gives an address that is free. A thread that is idle runs the next functor, or handles an
-- event of a descriptor that its epoll knows, with the pointer that it knows; a handler calls
-- `removeConnection` or it does not.
pub data Step (Allowed : System → ℤ → Type 0) (s : System) : System → Type 0 where
  accepts :
      (fd : ℤ) (l : ℕ) → s.opened fd ≡ false → Allowed s fd → Step Allowed s (hand_over fd l s)
  makes :
      (l : ℕ) (fd : ℤ) (a : ℕ) (rest : List Functor)
      → s.pc l ≡ idle
      → s.functors l ≡ make fd ∷ rest
      → s.alive a ≡ false
      → Step Allowed s (make_connection l fd a rest s)
  stores :
      (l : ℕ) (fd : ℤ) (a : ℕ) → s.pc l ≡ storing fd a → Step Allowed s (store_connection l fd a s)
  removes :
      (l : ℕ) (fd : ℤ) (a : ℕ)
      → s.pc l ≡ idle
      → s.registered l fd ≡ some a
      → Step Allowed s (begin_remove l fd a s)
  closes :
      (l : ℕ) (fd : ℤ) (a : ℕ) → s.pc l ≡ closing fd a → Step Allowed s (close_connection l fd a s)
  queues : (l : ℕ) (fd : ℤ) (a : ℕ) → s.pc l ≡ queueing fd a → Step Allowed s (queue_erasure l fd s)
  erases :
      (l : ℕ) (fd : ℤ) (rest : List Functor)
      → s.pc l ≡ idle
      → s.functors l ≡ erase fd ∷ rest
      → Step Allowed s (run_erasure l fd rest s)

pub data Reach (Allowed : System → ℤ → Type 0) : System → Type 0 where
  begins : Reach Allowed nothing_yet
  steps : {s t : System} → Reach Allowed s → Step Allowed s t → Reach Allowed t

-- The descriptor is not in the map.
abbrev pub IsUnmapped : System → ℤ → Type 0
IsUnmapped s fd = s.connections fd ≡ none

abbrev pub Anything : System → ℤ → Type 0
Anything s fd = Unit
