-- ===== src/Stages/SubReactors.antt =====
-- main_stage3.cpp: connections on the loops of several threads, which share the map `clients_`. What
-- a thread does between two points where others can see it is one step; the lock of the map makes
-- each use of it such a step. What is written is as in Stages/Echo and not modelled here.
pub mod Places
pub mod Ownership
pub mod Answering
pub mod Starting
use cs_system_lab.Prelude.{
  ℕ, ◌≡◌, Bool, true, false, List, [], ◌∷◌, ◌++◌, Option, none, some, ◌==◌, if◌then◌else◌,
}
use cs_system_lab.Prelude.Heap.{at_fd, at_num, without}
use cs_system_lab.Prelude.Int.{ℤ, eq_int}
use cs_system_lab.Stages.Echo.{ReadAnswer, received, no_data, broken}

-- Where the thread of a loop stands: behind `enableReading` of a new channel, which it is about to
-- store; in `removeConnection` behind `disableAll`; or there behind the erasure.
pub data Pc : Type 0 where
  idle : Pc
  storing : ℤ → ℕ → Pc
  erasing : ℤ → ℕ → Pc
  closing : ℤ → Pc

-- The descriptors that the kernel has open, and for each loop the functors that `onNewConnection`
-- queued, as their descriptors, what its epoll points at and where its thread stands. A channel is
-- known by its address.
pub record System : Type 0 where
  pub opened : ℤ → Bool
  pub handed : ℕ → List ℤ
  pub registered : ℕ → ℤ → Option ℕ
  pub pc : ℕ → Pc
  pub clients : ℤ → Option ℕ
  pub alive : ℕ → Bool

abbrev pub nothing_yet : System
nothing_yet = record {
  opened = λ fd. false;
  handed = λ l. [];
  registered = λ l fd. none;
  pc = λ l. idle;
  clients = λ fd. none;
  alive = λ a. false;
}

-- `onNewConnection`, in the thread of the acceptor, which `accept` has just given the descriptor.
unfoldable pub on_new_connection : ℤ → ℕ → System → System
on_new_connection fd l s = record s {
  opened = at_fd fd true s.opened;
  handed = at_num l (s.handed l ++ fd ∷ []) s.handed;
}

-- The functor up to `enableReading`; behind it in the queue stands `rest`.
unfoldable pub make_channel : ℕ → ℤ → ℕ → List ℤ → System → System
make_channel l fd a rest s = record s {
  handed = at_num l rest s.handed;
  alive = at_num a true s.alive;
  registered = at_num l (at_fd fd (some a) (s.registered l)) s.registered;
  pc = at_num l (storing fd a) s.pc;
}

-- `clients_[conn_fd] = std::move(channel)`
unfoldable pub store_channel : ℕ → ℤ → ℕ → System → System
store_channel l fd a s = record s {
  alive = without (s.clients fd) s.alive;
  clients = at_fd fd (some a) s.clients;
  pc = at_num l idle s.pc;
}

-- `ch->disableAll()` in `removeConnection`
unfoldable pub disable_channel : ℕ → ℤ → ℕ → System → System
disable_channel l fd a s = record s {
  registered = at_num l (at_fd fd none (s.registered l)) s.registered;
  pc = at_num l (erasing fd a) s.pc;
}

-- `clients_.erase(fd)`
unfoldable pub erase_client : ℕ → ℤ → System → System
erase_client l fd s = record s {
  alive = without (s.clients fd) s.alive;
  clients = at_fd fd none s.clients;
  pc = at_num l (closing fd) s.pc;
}

-- `::close(fd)`
unfoldable pub close_fd : ℕ → ℤ → System → System
close_fd l fd s = record s { opened = at_fd fd false s.opened; pc = at_num l idle s.pc }

-- Whether `onRead` calls `removeConnection`.
unfoldable pub removes : ReadAnswer → Bool
removes (received n) = true
removes no_data = false
removes broken = true

-- An event of a channel: `onRead` with its answer, or `onClose`.
pub data Cause : Type 0 where
  reading : ReadAnswer → Cause
  hung_up : Cause

abbrev pub ends : Cause → Bool
ends (reading r) = removes r
ends hung_up = true

-- The kernel gives a descriptor that is not open, and `new` an address that is free. A thread that
-- is idle runs the next functor, or handles an event of a descriptor that its epoll knows, with the
-- pointer that it knows.
pub data Step (s : System) : System → Type 0 where
  accepts : (fd : ℤ) (l : ℕ) → s.opened fd ≡ false → Step s (on_new_connection fd l s)
  makes :
      (l : ℕ) (fd : ℤ) (a : ℕ) (rest : List ℤ)
      → s.pc l ≡ idle
      → s.handed l ≡ fd ∷ rest
      → s.alive a ≡ false
      → Step s (make_channel l fd a rest s)
  stores : (l : ℕ) (fd : ℤ) (a : ℕ) → s.pc l ≡ storing fd a → Step s (store_channel l fd a s)
  keeps :
      (l : ℕ) (fd : ℤ) (a : ℕ) (c : Cause)
      → s.pc l ≡ idle
      → s.registered l fd ≡ some a
      → ends c ≡ false
      → Step s s
  disables :
      (l : ℕ) (fd : ℤ) (a : ℕ) (c : Cause)
      → s.pc l ≡ idle
      → s.registered l fd ≡ some a
      → ends c ≡ true
      → Step s (disable_channel l fd a s)
  erases : (l : ℕ) (fd : ℤ) (a : ℕ) → s.pc l ≡ erasing fd a → Step s (erase_client l fd s)
  closes : (l : ℕ) (fd : ℤ) → s.pc l ≡ closing fd → Step s (close_fd l fd s)

pub data Reach : System → Type 0 where
  begins : Reach nothing_yet
  steps : {s t : System} → Reach s → Step s t → Reach t
