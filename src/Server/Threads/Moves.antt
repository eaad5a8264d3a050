-- ===== src/Server/Threads/Moves.antt =====
-- Each step of the threads of HttpServer keeps every descriptor in one place.
use cs_system_lab.Prelude.{
  ℕ, ◌≡◌, refl, sym, ap, ◌∙◌, subst, false, List, [], ◌∷◌, none, some, arith, ==_refl,
}
use cs_system_lab.Prelude.Heap.{at_fd}
use cs_system_lab.Prelude.Int.{ℤ, eq_int_refl, eq_int→eq}
use cs_system_lab.Server.Threads.{
  Functor, make, erase, idle, storing, closing, queueing, System, hand_over, make_connection,
  store_connection, begin_remove, close_connection, queue_erasure, run_erasure, Step, accepts,
  makes, stores, removes, closes, queues, erases, IsUnmapped,
}
use cs_system_lab.Server.Threads.Places.{
  Place, nowhere, queued, made, live, disabled, shut, pending, makings-append, erasures-append,
  entry, Stands, Placed, Stands-waiting, Stands-moved, unmapped-nowhere, makings_at-queued,
  erasures_at-pending, pointer-live,
}

module _ (place : ℤ → Place) (s : System) (v : Placed place s) where
  open v use {held, stands, busy, alive, unique}

  accept-Placed :
      (fd : ℤ) (l : ℕ)
      → s.opened fd ≡ false
      → IsUnmapped s fd
      → Placed (at_fd fd (queued l) place) (hand_over fd l s)
  unfolding hand_over
  accept-Placed fd l h u =
      let was : place fd ≡ nowhere =
        unmapped-nowhere (place fd) (sym ((held l fd).opened) ∙ h)
          (sym ((held l fd).connections) ∙ u) in
      record {
        held = λ k d. ground (
          arith,
          held k d,
          makings-append d (s.functors l) (make fd ∷ []),
          erasures-append d (s.functors l) (make fd ∷ []),
          eq_int→eq fd d,
          eq_int_refl fd,
        );
        stands = Stands-waiting place fd (queued l) s.pc (λ k. ground arith) stands;
        busy = λ d k b e. ground (arith, busy d k b, eq_int→eq fd d, eq_int_refl fd, ==_refl l);
        alive = λ d b e. ground (arith, alive d b, eq_int→eq fd d);
        unique = λ c d b e f. ground (arith, unique c d b, eq_int→eq fd c, eq_int→eq fd d);
      }

  pub make-Placed :
      (l : ℕ) (fd : ℤ) (a : ℕ) (rest : List Functor)
      → s.pc l ≡ idle
      → s.functors l ≡ make fd ∷ rest
      → s.alive a ≡ false
      → Placed (at_fd fd (made l a) place) (make_connection l fd a rest s)
  unfolding make_connection
  make-Placed l fd a rest i q free =
      let was : place fd ≡ queued l =
        makings_at-queued l (place fd) (ground (arith, held l fd, eq_int_refl fd)) in
      record {
        held = λ k d. ground (arith, held k d, eq_int→eq fd d, eq_int_refl fd);
        stands =
            Stands-moved place fd (made l a) s.pc l (storing fd a) (λ k n. ground arith)
              (rw (eq_int_refl fd) refl) stands;
        busy = λ d k b e. ground (arith, busy d k b, eq_int→eq fd d, eq_int_refl fd, ==_refl l);
        alive = λ d b e. ground (arith, alive d b, ==_refl a);
        unique = λ c d b e f.
            ground (arith, unique c d b, alive c b, alive d b, eq_int→eq fd c, eq_int→eq fd d);
      }

  pub store-Placed :
      (l : ℕ) (fd : ℤ) (a : ℕ)
      → s.pc l ≡ storing fd a
      → Placed (at_fd fd (live l a) place) (store_connection l fd a s)
  unfolding store_connection
  store-Placed l fd a i =
      let was : place fd ≡ made l a = subst (Stands place l) i (stands l) in
      let no_entry : s.connections fd ≡ none = (held l fd).connections ∙ ap entry was in
      record {
        held = λ k d. ground (arith, held k d, eq_int→eq fd d, eq_int_refl fd);
        stands = Stands-moved place fd (live l a) s.pc l idle (λ k n. ground arith) tt stands;
        busy = λ d k b e. ground (arith, busy d k b, eq_int→eq fd d, eq_int_refl fd, ==_refl l);
        alive = λ d b e. rw no_entry (ground (arith, alive d b, eq_int→eq fd d));
        unique = λ c d b e f. ground (arith, unique c d b, eq_int→eq fd c, eq_int→eq fd d);
      }

  -- A thread that is idle has stored the connections that its epoll points at.
  registered-live :
      (l : ℕ) (fd : ℤ) (a : ℕ) → s.pc l ≡ idle → s.registered l fd ≡ some a → place fd ≡ live l a
  registered-live l fd a i r =
      pointer-live l a (place fd) (sym ((held l fd).registered) ∙ r)
        (λ e. absurd (ground (arith, busy fd l a e)))

  remove-Placed :
      (l : ℕ) (fd : ℤ) (a : ℕ)
      → s.pc l ≡ idle
      → s.registered l fd ≡ some a
      → Placed (at_fd fd (disabled l a) place) (begin_remove l fd a s)
  unfolding begin_remove
  remove-Placed l fd a i r =
      let was : place fd ≡ live l a = registered-live l fd a i r in
      record {
        held = λ k d. ground (arith, held k d, eq_int→eq fd d, eq_int_refl fd);
        stands =
            Stands-moved place fd (disabled l a) s.pc l (closing fd a) (λ k n. ground arith)
              (rw (eq_int_refl fd) refl) stands;
        busy = λ d k b e. ground (arith, busy d k b, eq_int→eq fd d, eq_int_refl fd, ==_refl l);
        alive = λ d b e. ground (arith, alive d b, eq_int→eq fd d);
        unique = λ c d b e f. ground (arith, unique c d b, eq_int→eq fd c, eq_int→eq fd d);
      }

  pub close-Placed :
      (l : ℕ) (fd : ℤ) (a : ℕ)
      → s.pc l ≡ closing fd a
      → Placed (at_fd fd (shut l a) place) (close_connection l fd a s)
  unfolding close_connection
  close-Placed l fd a i =
      let was : place fd ≡ disabled l a = subst (Stands place l) i (stands l) in
      record {
        held = λ k d. ground (arith, held k d, eq_int→eq fd d, eq_int_refl fd);
        stands =
            Stands-moved place fd (shut l a) s.pc l (queueing fd a) (λ k n. ground arith)
              (rw (eq_int_refl fd) refl) stands;
        busy = λ d k b e. ground (arith, busy d k b, eq_int→eq fd d, eq_int_refl fd, ==_refl l);
        alive = λ d b e. ground (arith, alive d b, eq_int→eq fd d);
        unique = λ c d b e f. ground (arith, unique c d b, eq_int→eq fd c, eq_int→eq fd d);
      }

  pub queue-Placed :
      (l : ℕ) (fd : ℤ) (a : ℕ)
      → s.pc l ≡ queueing fd a
      → Placed (at_fd fd (pending l a) place) (queue_erasure l fd s)
  unfolding queue_erasure
  queue-Placed l fd a i =
      let was : place fd ≡ shut l a = subst (Stands place l) i (stands l) in
      record {
        held = λ k d. ground (
          arith,
          held k d,
          makings-append d (s.functors l) (erase fd ∷ []),
          erasures-append d (s.functors l) (erase fd ∷ []),
          eq_int→eq fd d,
          eq_int_refl fd,
        );
        stands = Stands-moved place fd (pending l a) s.pc l idle (λ k n. ground arith) tt stands;
        busy = λ d k b e. ground (arith, busy d k b, eq_int→eq fd d, eq_int_refl fd, ==_refl l);
        alive = λ d b e. ground (arith, alive d b, eq_int→eq fd d);
        unique = λ c d b e f. ground (arith, unique c d b, eq_int→eq fd c, eq_int→eq fd d);
      }

  pub erase-Placed :
      (l : ℕ) (fd : ℤ) (rest : List Functor)
      → s.pc l ≡ idle
      → s.functors l ≡ erase fd ∷ rest
      → Placed (at_fd fd nowhere place) (run_erasure l fd rest s)
  unfolding run_erasure
  erase-Placed l fd rest i q =
      let (a, was) = erasures_at-pending l (place fd) (ground (arith, held l fd, eq_int_refl fd)) in
      let own : s.connections fd ≡ some a = (held l fd).connections ∙ ap entry was in
      record {
        held = λ k d. ground (arith, held k d, eq_int→eq fd d, eq_int_refl fd);
        stands = Stands-waiting place fd nowhere s.pc (λ k. ground arith) stands;
        busy = λ d k b e. ground (arith, busy d k b, eq_int→eq fd d);
        alive = λ d b e.
            rw own (ground (arith, alive d b, unique fd d b, eq_int→eq fd d, eq_int_refl fd));
        unique = λ c d b e f. ground (arith, unique c d b, eq_int→eq fd c, eq_int→eq fd d);
      }

  pub Step-Placed : {t : System} → Step IsUnmapped s t → (q : ℤ → Place) × Placed q t
  Step-Placed (accepts fd l h u) = (_, accept-Placed fd l h u)
  Step-Placed (makes l fd a rest i q h) = (_, make-Placed l fd a rest i q h)
  Step-Placed (stores l fd a i) = (_, store-Placed l fd a i)
  Step-Placed (removes l fd a i r) = (_, remove-Placed l fd a i r)
  Step-Placed (closes l fd a i) = (_, close-Placed l fd a i)
  Step-Placed (queues l fd a i) = (_, queue-Placed l fd a i)
  Step-Placed (erases l fd rest i q) = (_, erase-Placed l fd rest i q)
