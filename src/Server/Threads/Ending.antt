-- ===== src/Server/Threads/Ending.antt =====
-- `removeConnection` of HttpServer comes to its end: the loop closes the descriptor, queues the
-- erasure, and runs its functors up to that one.
use cs_system_lab.Prelude.{
  ℕ, suc, ◌+◌, ◌≤◌, ◌≡◌, refl, ap, ◌∙◌, Bool, false, List, [], ◌∷◌, ◌++◌, Option, none, some, arith,
  ==_refl,
}
use cs_system_lab.Prelude.Heap.{at_fd, without}
use cs_system_lab.Prelude.Int.{ℤ, eq_int, eq_int_refl, eq_int→eq}
use cs_system_lab.Server.Threads.{
  Functor, make, erase, idle, storing, closing, queueing, System, nothing_yet, hand_over,
  make_connection, store_connection, begin_remove, close_connection, queue_erasure, run_erasure,
  Step, accepts, removes, Reach, begins, steps, IsUnmapped,
}
use cs_system_lab.Server.Threads
use cs_system_lab.Server.Threads.Places.{
  Place, is_open, nowhere, queued, made, live, shut, pending, erasures, erasures_at,
  erasures-append, entry, Placed, makings_at-queued,
}
use cs_system_lab.Server.Threads.Moves.{
  make-Placed, store-Placed, close-Placed, queue-Placed, erase-Placed,
}
use cs_system_lab.Server.Threads.Safety.{Reach-Placed}

-- Addresses from a bound on are free.
abbrev IsBounded : System → ℕ → Type 0
IsBounded s n = (b : ℕ) → n ≤ b → s.alive b ≡ false

without_less :
    (o : Option ℕ) (alive : ℕ → Bool) (b : ℕ) → alive b ≡ false → without o alive b ≡ false
without_less none alive b h = h
without_less (some a) alive b h = ground arith

-- There is room for another object at any time.
free_address : {s : System} → Reach IsUnmapped s → (n : ℕ) × IsBounded s n
unfolding hand_over make_connection store_connection begin_remove close_connection queue_erasure
    run_erasure
free_address begins = (0, λ b h. refl)
free_address (steps {s = s} r (accepts fd l h u)) = free_address r
free_address (steps {s = s} r (Threads.makes l fd a rest i q h)) =
    let (n, v) = free_address r in (n + suc a, λ b k. ground (arith, v b))
free_address (steps {s = s} r (Threads.stores l fd a i)) =
    let (n, v) = free_address r in (n, λ b k. without_less (s.connections fd) s.alive b (v b k))
free_address (steps {s = s} r (removes l fd a i w)) = free_address r
free_address (steps {s = s} r (Threads.closes l fd a i)) = free_address r
free_address (steps {s = s} r (Threads.queues l fd a i)) = free_address r
free_address (steps {s = s} r (Threads.erases l fd rest i q)) =
    let (n, v) = free_address r in (n, λ b k. without_less (s.connections fd) s.alive b (v b k))

-- What the thread of loop `l` does with no event.
pub data Own (l : ℕ) (s : System) : System → Type 0 where
  makes :
      (fd : ℤ) (a : ℕ) (rest : List Functor)
      → s.pc l ≡ idle
      → s.functors l ≡ make fd ∷ rest
      → s.alive a ≡ false
      → Own l s (make_connection l fd a rest s)
  stores : (fd : ℤ) (a : ℕ) → s.pc l ≡ storing fd a → Own l s (store_connection l fd a s)
  closes : (fd : ℤ) (a : ℕ) → s.pc l ≡ closing fd a → Own l s (close_connection l fd a s)
  queues : (fd : ℤ) (a : ℕ) → s.pc l ≡ queueing fd a → Own l s (queue_erasure l fd s)
  erases :
      (fd : ℤ) (rest : List Functor)
      → s.pc l ≡ idle
      → s.functors l ≡ erase fd ∷ rest
      → Own l s (run_erasure l fd rest s)

pub data Works (l : ℕ) : System → System → Type 0 where
  done : {s : System} → Works l s s
  works : {s t u : System} → Own l s t → Works l t u → Works l s u

Own-Step : {l : ℕ} {s t : System} → Own l s t → Step IsUnmapped s t
Own-Step {l} (makes fd a rest i q h) = Threads.makes l fd a rest i q h
Own-Step {l} (stores fd a i) = Threads.stores l fd a i
Own-Step {l} (closes fd a i) = Threads.closes l fd a i
Own-Step {l} (queues fd a i) = Threads.queues l fd a i
Own-Step {l} (erases fd rest i q) = Threads.erases l fd rest i q

-- The connection is closed, out of the map and destroyed.
pub record Ended (l : ℕ) (fd : ℤ) (a : ℕ) (s t : System) : Type 0 where
  pub worked : Works l s t
  pub closed : t.opened fd ≡ false
  pub unmapped : t.connections fd ≡ none
  pub destroyed : t.alive a ≡ false

Ended-behind :
    (l : ℕ) (fd : ℤ) (a : ℕ) {s t u : System} → Own l s t → Ended l fd a t u → Ended l fd a s u
Ended-behind l fd a step e = record {
  worked = works step e.worked;
  closed = e.closed;
  unmapped = e.unmapped;
  destroyed = e.destroyed;
}

-- The loop stands before some functors and then the erasure of a connection that is closed.
record Waits (l : ℕ) (fd : ℤ) (a : ℕ) (fs rest : List Functor) (s : System) : Type 0 where
  reach : Reach IsUnmapped s
  place : ℤ → Place
  placed : Placed place s
  stands : s.pc l ≡ idle
  queue : s.functors l ≡ fs ++ erase fd ∷ rest
  is_pending : place fd ≡ pending l a

module _ (l : ℕ) (fd : ℤ) (a : ℕ) (rest : List Functor) where
  erase_now : (s : System) → Waits l fd a [] rest s → Ended l fd a s (run_erasure l fd rest s)
  unfolding run_erasure
  erase_now s w =
      let own : s.connections fd ≡ some a =
        (w.placed.held l fd).connections ∙ ap entry w.is_pending in
      record {
        worked = works (erases fd rest w.stands w.queue) done;
        closed = (w.placed.held l fd).opened ∙ ap is_open w.is_pending;
        unmapped = rw (eq_int_refl fd) refl;
        destroyed = rw (own, ==_refl a) refl;
      }

  storing_at :
      (s : System) (d : ℤ) (b : ℕ) (fs : List Functor)
      → (make_connection l d b fs s).pc l ≡ storing d b
  unfolding make_connection
  storing_at s d b fs = rw (==_refl l) refl

  -- The next functor makes a connection of another descriptor.
  make_next :
      (s : System) (d : ℤ) (b : ℕ) (fs : List Functor)
      → Waits l fd a (make d ∷ fs) rest s
      → s.alive b ≡ false
      → Waits l fd a fs rest
          (store_connection l d b (make_connection l d b (fs ++ erase fd ∷ rest) s))
  unfolding make_connection store_connection
  make_next s d b fs w free =
      let left = fs ++ erase fd ∷ rest in
      let s' = make_connection l d b left s in
      let waits : w.place d ≡ queued l =
        makings_at-queued l (w.place d)
          (ground (arith, w.placed.held l d, w.queue, eq_int_refl d)) in
      let apart : eq_int d fd ≡ false = ground (arith, waits, w.is_pending, eq_int→eq d fd) in
      let made_there = make-Placed w.place s w.placed l d b left w.stands w.queue free in
      let at = storing_at s d b left in
      record {
        reach =
            steps (steps w.reach (Threads.makes l d b left w.stands w.queue free))
              (Threads.stores l d b at);
        place = at_fd d (live l b) (at_fd d (made l b) w.place);
        placed = store-Placed (at_fd d (made l b) w.place) s' made_there l d b at;
        stands = rw (==_refl l) refl;
        queue = rw (==_refl l) refl;
        is_pending = rw apart w.is_pending;
      }

  -- The next functor erases another descriptor: no erasure is queued twice.
  erase_next :
      (s : System) (d : ℤ) (fs : List Functor)
      → Waits l fd a (erase d ∷ fs) rest s
      → Waits l fd a fs rest (run_erasure l d (fs ++ erase fd ∷ rest) s)
  unfolding run_erasure
  erase_next s d fs w =
      let left = fs ++ erase fd ∷ rest in
      let once : erasures fd (s.functors l) ≡ 1 =
        (w.placed.held l fd).erasing ∙ ap (erasures_at l) w.is_pending ∙ rw (==_refl l) refl in
      let apart : eq_int d fd ≡ false =
        ground (arith, once, w.queue, erasures-append fd fs (erase fd ∷ rest), eq_int_refl fd) in
      record {
        reach = steps w.reach (Threads.erases l d left w.stands w.queue);
        place = at_fd d nowhere w.place;
        placed = erase-Placed w.place s w.placed l d left w.stands w.queue;
        stands = w.stands;
        queue = rw (==_refl l) refl;
        is_pending = rw apart w.is_pending;
      }

  run_functors :
      (fs : List Functor) (s : System) → Waits l fd a fs rest s → (t : System) × Ended l fd a s t
  run_functors [] s w = (run_erasure l fd rest s, erase_now s w)
  run_functors (make d ∷ fs) s w =
      let (b, free) = free_address w.reach in
      let left = fs ++ erase fd ∷ rest in
      let s' = make_connection l d b left s in
      let (t, e) = run_functors fs _ (make_next s d b fs w (free b (omega arith))) in
      (
        t,
        Ended-behind l fd a (makes d b left w.stands w.queue (free b (omega arith)))
            (Ended-behind l fd a (stores d b (storing_at s d b left)) e),
      )
  run_functors (erase d ∷ fs) s w =
      let (t, e) = run_functors fs _ (erase_next s d fs w) in
      (t, Ended-behind l fd a (erases d (fs ++ erase fd ∷ rest) w.stands w.queue) e)

-- Provided that no descriptor is accepted that is still in the map, and whatever the threads have
-- done before and in whatever order: where the thread of a loop is in `removeConnection` behind
-- `disableAll`, it comes by itself, with no event and no other thread, to a state in which the
-- descriptor of the connection is closed, the map has no entry for it, and the connection is
-- destroyed, whatever functors stand before the erasure.
pub removal-Ended :
    {s : System} (l : ℕ) (fd : ℤ) (a : ℕ)
    → Reach IsUnmapped s
    → s.pc l ≡ closing fd a
    → (t : System) × Ended l fd a s t
unfolding close_connection queue_erasure
removal-Ended {s} l fd a r i =
    let (place, v) = Reach-Placed r in
    let s1 = close_connection l fd a s in
    let v1 = close-Placed place s v l fd a i in
    let at : s1.pc l ≡ queueing fd a = rw (==_refl l) refl in
    let s2 = queue_erasure l fd s1 in
    let (t, e) = run_functors l fd a [] (s.functors l) s2 (record {
      reach = steps (steps r (Threads.closes l fd a i)) (Threads.queues l fd a at);
      place = at_fd fd (pending l a) (at_fd fd (shut l a) place);
      placed = queue-Placed (at_fd fd (shut l a) place) s1 v1 l fd a at;
      stands = rw (==_refl l) refl;
      queue = rw (==_refl l) refl;
      is_pending = rw (eq_int_refl fd) refl;
    }) in
    (t, Ended-behind l fd a (closes fd a i) (Ended-behind l fd a (queues fd a at) e))
