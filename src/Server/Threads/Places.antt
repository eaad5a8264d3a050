-- ===== src/Server/Threads/Places.antt =====
-- Where a descriptor of HttpServer is, and what the state then holds of it.
use cs_system_lab.Prelude.{
  ℕ, ◌+◌, ◌≤◌, ◌≡◌, ◌≢◌, refl, Bool, true, false, inl, inr, List, [], ◌∷◌, ◌++◌, Option, none, some,
  arith, Bool-cases, ◌==◌, ==_refl, if◌then◌else◌,
}
use cs_system_lab.Prelude.Heap.{at_fd, at_num}
use cs_system_lab.Prelude.Int.{ℤ, eq_int, eq_int→eq}
use cs_system_lab.Server.Threads.{
  Functor, make, erase, Pc, idle, storing, closing, queueing, System, nothing_yet,
}

-- Accepted and handed to a loop; made there; stored and watched; watched no longer; closed; and its
-- erasure queued.
pub data Place : Type 0 where
  nowhere : Place
  queued : ℕ → Place
  made : ℕ → ℕ → Place
  live : ℕ → ℕ → Place
  disabled : ℕ → ℕ → Place
  shut : ℕ → ℕ → Place
  pending : ℕ → ℕ → Place

abbrev pub is_open : Place → Bool
is_open nowhere = false
is_open (shut l a) = false
is_open (pending l a) = false
is_open _ = true

abbrev pub makings : ℤ → List Functor → ℕ
makings fd [] = 0
makings fd (make d ∷ fs) = (if eq_int d fd then 1 else 0) + makings fd fs
makings fd (erase d ∷ fs) = makings fd fs

abbrev pub erasures : ℤ → List Functor → ℕ
erasures fd [] = 0
erasures fd (erase d ∷ fs) = (if eq_int d fd then 1 else 0) + erasures fd fs
erasures fd (make d ∷ fs) = erasures fd fs

pub makings-append :
    (fd : ℤ) (fs gs : List Functor) → makings fd (fs ++ gs) ≡ makings fd fs + makings fd gs
makings-append fd [] gs = omega arith
makings-append fd (make d ∷ fs) gs = omega (arith, makings-append fd fs gs)
makings-append fd (erase d ∷ fs) gs = makings-append fd fs gs

pub erasures-append :
    (fd : ℤ) (fs gs : List Functor) → erasures fd (fs ++ gs) ≡ erasures fd fs + erasures fd gs
erasures-append fd [] gs = omega arith
erasures-append fd (erase d ∷ fs) gs = omega (arith, erasures-append fd fs gs)
erasures-append fd (make d ∷ fs) gs = erasures-append fd fs gs

abbrev pub makings_at : ℕ → Place → ℕ
makings_at l (queued k) = if k == l then 1 else 0
makings_at l _ = 0

abbrev pub erasures_at : ℕ → Place → ℕ
erasures_at l (pending k a) = if k == l then 1 else 0
erasures_at l _ = 0

abbrev pub pointer : ℕ → Place → Option ℕ
pointer l (made k a) = if k == l then some a else none
pointer l (live k a) = if k == l then some a else none
pointer l _ = none

abbrev pub object : Place → Option ℕ
object nowhere = none
object (queued l) = none
object (made l a) = some a
object (live l a) = some a
object (disabled l a) = some a
object (shut l a) = some a
object (pending l a) = some a

abbrev pub entry : Place → Option ℕ
entry (made l a) = none
entry p = object p

abbrev pub Stands : (ℤ → Place) → ℕ → Pc → Type 0
Stands place l idle = Unit
Stands place l (storing fd a) = place fd ≡ made l a
Stands place l (closing fd a) = place fd ≡ disabled l a
Stands place l (queueing fd a) = place fd ≡ shut l a

-- What a loop's queue and its epoll, the map and the kernel hold of one descriptor.
pub record Held (p : Place) (s : System) (l : ℕ) (fd : ℤ) : Type 0 where
  pub opened : s.opened fd ≡ is_open p
  pub making : makings fd (s.functors l) ≡ makings_at l p
  pub erasing : erasures fd (s.functors l) ≡ erasures_at l p
  pub registered : s.registered l fd ≡ pointer l p
  pub connections : s.connections fd ≡ entry p

pub record Placed (place : ℤ → Place) (s : System) : Type 0 where
  pub held : (l : ℕ) (fd : ℤ) → Held (place fd) s l fd
  pub stands : (l : ℕ) → Stands place l (s.pc l)
  pub busy : (fd : ℤ) (l a : ℕ) → place fd ≡ made l a → s.pc l ≡ storing fd a
  pub alive : (fd : ℤ) (a : ℕ) → object (place fd) ≡ some a → s.alive a ≡ true
  pub unique : (fd d : ℤ) (a : ℕ) → object (place fd) ≡ some a → object (place d) ≡ some a → fd ≡ d

pub begun-Placed : Placed (λ fd. nowhere) nothing_yet
begun-Placed = record {
  held = λ l fd. record {
    opened = refl;
    making = refl;
    erasing = refl;
    registered = refl;
    connections = refl;
  };
  stands = λ l. tt;
  busy = λ fd l a e. absurd (cc);
  alive = λ fd a e. absurd (cc);
  unique = λ fd d a e f. absurd (cc);
}

-- The thread of the loop stands at the place.
abbrev attends : ℕ → Place → Bool
attends l (made k a) = k == l
attends l (disabled k a) = k == l
attends l (shut k a) = k == l
attends l _ = false

-- A thread stands as before when a descriptor moves that it does not stand at.
Stands-elsewhere :
    (place : ℤ → Place) (fd : ℤ) (p : Place) (l : ℕ) (pc : Pc)
    → attends l (place fd) ≡ false
    → Stands place l pc
    → Stands (at_fd fd p place) l pc
Stands-elsewhere place fd p l idle n h = tt
Stands-elsewhere place fd p l (storing c a) n h = ground (arith, eq_int→eq fd c, ==_refl l)
Stands-elsewhere place fd p l (closing c a) n h = ground (arith, eq_int→eq fd c, ==_refl l)
Stands-elsewhere place fd p l (queueing c a) n h = ground (arith, eq_int→eq fd c, ==_refl l)

module _ (place : ℤ → Place) (fd : ℤ) (p : Place) (pc : ℕ → Pc) where
  -- The threads stand as before when the descriptor waits for none of them.
  pub Stands-waiting :
      ((k : ℕ) → attends k (place fd) ≡ false)
      → ((k : ℕ) → Stands place k (pc k))
      → (k : ℕ) → Stands (at_fd fd p place) k (pc k)
  Stands-waiting n stands k = Stands-elsewhere place fd p k (pc k) (n k) (stands k)

  -- The step of a thread with a descriptor, in view of where it then stands.
  pub Stands-moved :
      (l : ℕ) (pc' : Pc)
      → ((k : ℕ) → (l == k) ≡ false → attends k (place fd) ≡ false)
      → Stands (at_fd fd p place) l pc'
      → ((k : ℕ) → Stands place k (pc k))
      → (k : ℕ) → Stands (at_fd fd p place) k (at_num l pc' pc k)
  Stands-moved l pc' n here stands k = elim (Bool-cases (l == k)) [
    | inl e ↦ let same : l ≡ k = ground arith in rw (← same, ==_refl l) here
    | inr e ↦ rw e (Stands-elsewhere place fd p k (pc k) (n k e) (stands k))
  ]

pub unmapped-nowhere : (p : Place) → is_open p ≡ false → entry p ≡ none → p ≡ nowhere
unmapped-nowhere p o e = ground arith

pub makings_at-queued : (l : ℕ) (p : Place) → 1 ≤ makings_at l p → p ≡ queued l
makings_at-queued l p h = ground arith

pub erasures_at-pending : (l : ℕ) (p : Place) → 1 ≤ erasures_at l p → (a : ℕ) × (p ≡ pending l a)
erasures_at-pending l (pending k a) h = (a, ground arith)
erasures_at-pending l p h = absurd (ground arith)

pub pointer-live : (l a : ℕ) (p : Place) → pointer l p ≡ some a → p ≢ made l a → p ≡ live l a
pointer-live l a p h n = ground arith
