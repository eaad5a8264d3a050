-- ===== src/Server/Threads/Objects.antt =====
-- HttpServer on the loops of several threads with what its objects hold: the steps of Server/Threads,
-- of which those that make a connection or handle an event act on its object by the handlers of
-- Server/Connection.
use cs_system_lab.Prelude.{ℕ, ◌≡◌, true, false, List, [], ◌∷◌, Option, none, some, if◌then◌else◌}
use cs_system_lab.Prelude.Heap.{at_address}
use cs_system_lab.Prelude.Int.{ℤ, eq_int}
use cs_system_lab.Reactor.Epoll.{Epoll}
use cs_system_lab.Reactor.EventLoop.{EventLoop}
use cs_system_lab.Server.Connection.{World, Setup, Event, new_connection, dispatch}
use cs_system_lab.Server.Loop.{Slot}
use cs_system_lab.Server.Loop.Alone.{slot_of}
use cs_system_lab.Server.Threads.{
  Functor, make, erase, idle, storing, closing, queueing, System, nothing_yet, hand_over,
  make_connection, store_connection, begin_remove, close_connection, queue_erasure, run_erasure,
  IsUnmapped,
}

-- The memory at an address keeps what was there when the object is destroyed.
pub record Memory : Type 0 where
  pub system : System
  pub objects : ℕ → Option Slot

abbrev pub nothing_made : Memory
nothing_made = record { system = nothing_yet; objects = λ a. none }

-- What a loop holds beside its queue, and its epoll beside the pointers.
pub record Surroundings : Type 0 where
  pub loop : EventLoop ℤ
  pub epoll : Epoll

abbrev pub world_in : Surroundings → Slot → World
world_in e x = record { conn = x.conn; loop = e.loop; epoll = e.epoll; wire = x.wire; closed = [] }

-- What a step does that a client can see: the handlers run for an event of a descriptor.
pub data Act : Type 0 where
  handled : ℤ → Event → Act
  silent : Act

abbrev pub with_object : ℕ → World → Memory → Memory
with_object a w m = record m { objects = at_address a (some (slot_of w)) m.objects }

abbrev pub with_system : System → Memory → Memory
with_system s m = record m { system = s }

-- A loop runs the handlers with whatever it holds. When they leave the connection open, its thread
-- stands where it was; else it is in `removeConnection`.
pub data Move (setup : Setup) (m : Memory) : Act → Memory → Type 0 where
  accepts :
      (fd : ℤ) (l : ℕ)
      → m.system.opened fd ≡ false
      → IsUnmapped m.system fd
      → Move setup m silent (with_system (hand_over fd l m.system) m)
  makes :
      (l : ℕ) (fd : ℤ) (a : ℕ) (rest : List Functor) (e : Surroundings)
      → m.system.pc l ≡ idle
      → m.system.functors l ≡ make fd ∷ rest
      → m.system.alive a ≡ false
      → Move setup m silent (
          with_system
            (make_connection l fd a rest m.system)
            (with_object a (new_connection a fd e.loop e.epoll) m))
  stores :
      (l : ℕ) (fd : ℤ) (a : ℕ)
      → m.system.pc l ≡ storing fd a
      → Move setup m silent (with_system (store_connection l fd a m.system) m)
  handles :
      (l : ℕ) (fd : ℤ) (a : ℕ) (x : Slot) (ev : Event) (e : Surroundings)
      → m.system.pc l ≡ idle
      → m.system.registered l fd ≡ some a
      → m.objects a ≡ some x
      → (dispatch setup ev (world_in e x)).conn.closing ≡ false
      → Move setup m (handled fd ev) (with_object a (dispatch setup ev (world_in e x)) m)
  removes :
      (l : ℕ) (fd : ℤ) (a : ℕ) (x : Slot) (ev : Event) (e : Surroundings)
      → m.system.pc l ≡ idle
      → m.system.registered l fd ≡ some a
      → m.objects a ≡ some x
      → (dispatch setup ev (world_in e x)).conn.closing ≡ true
      → Move setup m (handled fd ev) (
          with_system
            (begin_remove l fd a m.system)
            (with_object a (dispatch setup ev (world_in e x)) m))
  closes :
      (l : ℕ) (fd : ℤ) (a : ℕ)
      → m.system.pc l ≡ closing fd a
      → Move setup m silent (with_system (close_connection l fd a m.system) m)
  queues :
      (l : ℕ) (fd : ℤ) (a : ℕ)
      → m.system.pc l ≡ queueing fd a
      → Move setup m silent (with_system (queue_erasure l fd m.system) m)
  erases :
      (l : ℕ) (fd : ℤ) (rest : List Functor)
      → m.system.pc l ≡ idle
      → m.system.functors l ≡ erase fd ∷ rest
      → Move setup m silent (with_system (run_erasure l fd rest m.system) m)

pub data Moves (setup : Setup) : List Act → Memory → Memory → Type 0 where
  rest : {m : Memory} → Moves setup [] m m
  next :
      {m n o : Memory} {acts : List Act} (act : Act)
      → Move setup m act n
      → Moves setup acts n o
      → Moves setup (act ∷ acts) m o

-- The events of one descriptor.
abbrev pub events_on : ℤ → List Act → List Event
events_on fd [] = []
events_on fd (handled d ev ∷ acts) =
    let rest = events_on fd acts in if eq_int d fd then ev ∷ rest else rest
events_on fd (silent ∷ acts) = events_on fd acts

-- The epoll of loop `l` points at the connection of the descriptor at `a`, which holds this.
pub record Serves (l : ℕ) (fd : ℤ) (a : ℕ) (x : Slot) (m : Memory) : Type 0 where
  pub watched : m.system.registered l fd ≡ some a
  pub content : m.objects a ≡ some x
