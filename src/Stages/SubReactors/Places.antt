-- ===== src/Stages/SubReactors/Places.antt =====
-- Where a descriptor of the sub-reactors is, and what the state then holds of it.
use cs_system_lab.Prelude.{
  ℕ, ◌≤◌, ◌≡◌, ◌≢◌, refl, Bool, true, false, inl, inr, Option, none, some, arith, Bool-cases, ◌==◌,
  ==_refl, if◌then◌else◌,
}
use cs_system_lab.Prelude.Heap.{at_fd, at_num}
use cs_system_lab.Prelude.Int.{ℤ, eq_int→eq}
use cs_system_lab.Net.Socket.Ownership.{count}
use cs_system_lab.Stages.SubReactors.{Pc, idle, storing, erasing, closing, System, nothing_yet}

-- Where a descriptor is, and with which loop and channel.
pub data Place : Type 0 where
  nowhere : Place
  queued : ℕ → Place
  made : ℕ → ℕ → Place
  live : ℕ → ℕ → Place
  disabled : ℕ → ℕ → Place
  erased : ℕ → Place

-- What no interleaving breaks.
pub record Safe (s : System) : Type 0 where
  pub pointers :
      (l : ℕ) (fd : ℤ) (a : ℕ)
      → s.registered l fd ≡ some a
      → (s.alive a ≡ true) × (s.opened fd ≡ true)
  pub one_loop :
      (l k : ℕ) (fd : ℤ) (a b : ℕ) → s.registered l fd ≡ some a → s.registered k fd ≡ some b → l ≡ k
  pub entries : (fd : ℤ) (a : ℕ) → s.clients fd ≡ some a → (s.alive a ≡ true) × (s.opened fd ≡ true)
  pub stores_new : (l : ℕ) (fd : ℤ) (a : ℕ) → s.pc l ≡ storing fd a → s.clients fd ≡ none
  pub erases_own :
      (l : ℕ) (fd : ℤ) (a : ℕ)
      → s.pc l ≡ erasing fd a
      → (s.clients fd ≡ some a) × ((k : ℕ) → s.registered k fd ≡ none)
  pub closes_own :
      (l : ℕ) (fd : ℤ) → s.pc l ≡ closing fd → (s.opened fd ≡ true) × (s.clients fd ≡ none)

-- What each part of the state holds of a descriptor at a place.
abbrev pub is_open : Place → Bool
is_open nowhere = false
is_open _ = true

abbrev pub times_queued : ℕ → Place → ℕ
times_queued l (queued k) = if k == l then 1 else 0
times_queued l _ = 0

abbrev pub pointer : ℕ → Place → Option ℕ
pointer l (made k a) = if k == l then some a else none
pointer l (live k a) = if k == l then some a else none
pointer l _ = none

abbrev pub entry : Place → Option ℕ
entry (live k a) = some a
entry (disabled k a) = some a
entry _ = none

abbrev pub channel : Place → Option ℕ
channel (made k a) = some a
channel (live k a) = some a
channel (disabled k a) = some a
channel _ = none

-- The thread of a loop has the descriptor that it is about to do something with.
abbrev pub Stands : (ℤ → Place) → ℕ → Pc → Type 0
Stands place l idle = Unit
Stands place l (storing fd a) = place fd ≡ made l a
Stands place l (erasing fd a) = place fd ≡ disabled l a
Stands place l (closing fd) = place fd ≡ erased l

-- What a loop's queue and its epoll, the map and the kernel hold of one descriptor.
pub record Held (p : Place) (s : System) (l : ℕ) (fd : ℤ) : Type 0 where
  pub opened : s.opened fd ≡ is_open p
  pub handed : count fd (s.handed l) ≡ times_queued l p
  pub registered : s.registered l fd ≡ pointer l p
  pub clients : s.clients fd ≡ entry p

pub record Placed (place : ℤ → Place) (s : System) : Type 0 where
  pub held : (l : ℕ) (fd : ℤ) → Held (place fd) s l fd
  pub stands : (l : ℕ) → Stands place l (s.pc l)
  pub busy : (fd : ℤ) (l a : ℕ) → place fd ≡ made l a → s.pc l ≡ storing fd a
  pub alive : (fd : ℤ) (a : ℕ) → channel (place fd) ≡ some a → s.alive a ≡ true
  pub unique :
      (fd d : ℤ) (a : ℕ) → channel (place fd) ≡ some a → channel (place d) ≡ some a → fd ≡ d

pub begun-Placed : Placed (λ fd. nowhere) nothing_yet
begun-Placed = record {
  held = λ l fd. record { opened = refl; handed = refl; registered = refl; clients = refl };
  stands = λ l. tt;
  busy = λ fd l a e. absurd (cc);
  alive = λ fd a e. absurd (cc);
  unique = λ fd d a e f. absurd (cc);
}

-- The thread of the loop stands at the place.
abbrev attends : ℕ → Place → Bool
attends l (made k a) = k == l
attends l (disabled k a) = k == l
attends l (erased k) = k == l
attends l _ = false

Stands-elsewhere :
    (place : ℤ → Place) (fd : ℤ) (p : Place) (l : ℕ) (pc : Pc)
    → attends l (place fd) ≡ false
    → Stands place l pc
    → Stands (at_fd fd p place) l pc
Stands-elsewhere place fd p l idle n h = tt
Stands-elsewhere place fd p l (storing c a) n h = ground (arith, eq_int→eq fd c, ==_refl l)
Stands-elsewhere place fd p l (erasing c a) n h = ground (arith, eq_int→eq fd c, ==_refl l)
Stands-elsewhere place fd p l (closing c) n h = ground (arith, eq_int→eq fd c, ==_refl l)

module _ (place : ℤ → Place) (fd : ℤ) (p : Place) (pc : ℕ → Pc) where
  -- No thread has anything left to do with the descriptor: all stand as before.
  pub Stands-waiting :
      ((k : ℕ) → attends k (place fd) ≡ false)
      → ((k : ℕ) → Stands place k (pc k))
      → (k : ℕ) → Stands (at_fd fd p place) k (pc k)
  Stands-waiting n stands k = Stands-elsewhere place fd p k (pc k) (n k) (stands k)

  -- A thread steps with the descriptor: the others stand as before.
  pub Stands-moved :
      (l : ℕ) (pc' : Pc)
      → ((k : ℕ) → (l == k) ≡ false → attends k (place fd) ≡ false)
      → Stands (at_fd fd p place) l pc'
      → ((k : ℕ) → Stands place k (pc k))
      → (k : ℕ) → Stands (at_fd fd p place) k (at_num l pc' pc k)
  Stands-moved l pc' n here stands k = elim (Bool-cases (l == k)) [
    | inl e ↦ let same : l ≡ k = ground arith in rw (← same, ==_refl l) here
    | inr e ↦ rw e (Stands-elsewhere place fd p k (pc k) (n k e) (stands k))
  ]

pub is_open-nowhere : (p : Place) → is_open p ≡ false → p ≡ nowhere
is_open-nowhere p h = ground arith

pub times_queued-queued : (l : ℕ) (p : Place) → 1 ≤ times_queued l p → p ≡ queued l
times_queued-queued l p h = ground arith

pub pointer-live : (l a : ℕ) (p : Place) → pointer l p ≡ some a → p ≢ made l a → p ≡ live l a
pointer-live l a p h n = ground arith
