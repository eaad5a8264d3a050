-- ===== src/Stages/SubReactors/Ownership.antt =====
-- Who has a descriptor and its channel, whatever the interleaving.
use cs_system_lab.Prelude.{
  ℕ, ◌≡◌, ◌≢◌, refl, sym, ap, ◌∙◌, subst, false, List, [], ◌∷◌, none, some, arith, ==_refl,
}
use cs_system_lab.Prelude.Heap.{at_fd}
use cs_system_lab.Prelude.Int.{ℤ, eq_int_refl, eq_int→eq}
use cs_system_lab.Net.Socket.Ownership.{count-append}
use cs_system_lab.Stages.SubReactors.{
  idle, storing, erasing, closing, System, on_new_connection, make_channel, store_channel,
  disable_channel, erase_client, close_fd, Step, accepts, makes, stores, keeps, disables, erases,
  closes, Reach, begins, steps,
}
use cs_system_lab.Stages.SubReactors.Places.{
  Safe, nowhere, queued, made, live, disabled, erased, Place, is_open, pointer, entry, Stands,
  Placed, begun-Placed, Stands-waiting, is_open-nowhere, times_queued-queued, pointer-live,
  Stands-moved,
}

module _ (place : ℤ → Place) (s : System) (v : Placed place s) where
  open v use {held, stands, busy, alive, unique}

  accept-Placed :
      (fd : ℤ) (l : ℕ)
      → s.opened fd ≡ false
      → Placed (at_fd fd (queued l) place) (on_new_connection fd l s)
  unfolding on_new_connection
  accept-Placed fd l h =
      let was : place fd ≡ nowhere = is_open-nowhere (place fd) (sym ((held l fd).opened) ∙ h) in
      record {
        held = λ k d. ground (
          arith,
          held k d,
          count-append d (s.handed l) (fd ∷ []),
          eq_int→eq fd d,
          eq_int→eq d fd,
          eq_int_refl fd,
        );
        stands = Stands-waiting place fd (queued l) s.pc (λ k. ground arith) stands;
        busy = λ d k b e. ground (arith, busy d k b, eq_int→eq fd d, eq_int_refl fd, ==_refl l);
        alive = λ d a e. ground (arith, alive d a);
        unique = λ c d a e f. ground (arith, unique c d a);
      }

  make-Placed :
      (l : ℕ) (fd : ℤ) (a : ℕ) (rest : List ℤ)
      → s.pc l ≡ idle
      → s.handed l ≡ fd ∷ rest
      → s.alive a ≡ false
      → Placed (at_fd fd (made l a) place) (make_channel l fd a rest s)
  unfolding make_channel
  make-Placed l fd a rest i q free =
      let was : place fd ≡ queued l =
        times_queued-queued l (place fd) (ground (arith, held l fd, eq_int_refl fd)) in
      record {
        held = λ k d. ground (arith, held k d, eq_int→eq fd d, eq_int→eq d fd, eq_int_refl fd);
        stands =
            Stands-moved place fd (made l a) s.pc l (storing fd a) (λ k n. ground arith)
              (rw (eq_int_refl fd) refl) stands;
        busy = λ d k b e. ground (arith, busy d k b, eq_int→eq fd d, eq_int_refl fd, ==_refl l);
        alive = λ d b e. ground (arith, alive d b, ==_refl a);
        unique = λ c d b e f.
            ground (arith, unique c d b, alive c b, alive d b, eq_int→eq fd c, eq_int→eq fd d);
      }

  store-Placed :
      (l : ℕ) (fd : ℤ) (a : ℕ)
      → s.pc l ≡ storing fd a
      → Placed (at_fd fd (live l a) place) (store_channel l fd a s)
  unfolding store_channel
  store-Placed l fd a i =
      let was : place fd ≡ made l a = subst (Stands place l) i (stands l) in
      let no_entry : s.clients fd ≡ none = (held l fd).clients ∙ ap entry was in
      record {
        held = λ k d. ground (arith, held k d, eq_int→eq fd d, eq_int_refl fd);
        stands = Stands-moved place fd (live l a) s.pc l idle (λ k n. ground arith) tt stands;
        busy = λ d k b e. ground (arith, busy d k b, eq_int→eq fd d, eq_int_refl fd, ==_refl l);
        alive = λ d b e. rw no_entry (ground (arith, alive d b, eq_int→eq fd d));
        unique = λ c d b e f. ground (arith, unique c d b, eq_int→eq fd c, eq_int→eq fd d);
      }

  -- A thread that is idle has stored the channels that its epoll points at.
  registered-live :
      (l : ℕ) (fd : ℤ) (a : ℕ) → s.pc l ≡ idle → s.registered l fd ≡ some a → place fd ≡ live l a
  registered-live l fd a i r =
      let p : pointer l (place fd) ≡ some a = sym ((held l fd).registered) ∙ r in
      let stored : place fd ≢ made l a = (λ e. absurd (ground (arith, busy fd l a e))) in
      pointer-live l a (place fd) p stored

  disable-Placed :
      (l : ℕ) (fd : ℤ) (a : ℕ)
      → s.pc l ≡ idle
      → s.registered l fd ≡ some a
      → Placed (at_fd fd (disabled l a) place) (disable_channel l fd a s)
  unfolding disable_channel
  disable-Placed l fd a i r =
      let was : place fd ≡ live l a = registered-live l fd a i r in
      record {
        held = λ k d. ground (arith, held k d, eq_int→eq fd d, eq_int_refl fd);
        stands =
            Stands-moved place fd (disabled l a) s.pc l (erasing fd a) (λ k n. ground arith)
              (rw (eq_int_refl fd) refl) stands;
        busy = λ d k b e. ground (arith, busy d k b, eq_int→eq fd d, eq_int_refl fd, ==_refl l);
        alive = λ d b e. ground (arith, alive d b, eq_int→eq fd d);
        unique = λ c d b e f. ground (arith, unique c d b, eq_int→eq fd c, eq_int→eq fd d);
      }

  erase-Placed :
      (l : ℕ) (fd : ℤ) (a : ℕ)
      → s.pc l ≡ erasing fd a
      → Placed (at_fd fd (erased l) place) (erase_client l fd s)
  unfolding erase_client
  erase-Placed l fd a i =
      let was : place fd ≡ disabled l a = subst (Stands place l) i (stands l) in
      let own : s.clients fd ≡ some a = (held l fd).clients ∙ ap entry was in
      record {
        held = λ k d. ground (arith, held k d, eq_int→eq fd d, eq_int_refl fd);
        stands =
            Stands-moved place fd (erased l) s.pc l (closing fd) (λ k n. ground arith)
              (rw (eq_int_refl fd) refl) stands;
        busy = λ d k b e. ground (arith, busy d k b, eq_int→eq fd d, eq_int_refl fd, ==_refl l);
        alive = λ d b e.
            rw own (ground (arith, alive d b, unique fd d b, eq_int→eq fd d, eq_int_refl fd));
        unique = λ c d b e f. ground (arith, unique c d b, eq_int→eq fd c, eq_int→eq fd d);
      }

  close-Placed :
      (l : ℕ) (fd : ℤ) → s.pc l ≡ closing fd → Placed (at_fd fd nowhere place) (close_fd l fd s)
  unfolding close_fd
  close-Placed l fd i =
      let was : place fd ≡ erased l = subst (Stands place l) i (stands l) in
      record {
        held = λ k d. ground (arith, held k d, eq_int→eq fd d, eq_int_refl fd);
        stands = Stands-moved place fd nowhere s.pc l idle (λ k n. ground arith) tt stands;
        busy = λ d k b e. ground (arith, busy d k b, eq_int→eq fd d, eq_int_refl fd, ==_refl l);
        alive = λ d b e. ground (arith, alive d b, eq_int→eq fd d);
        unique = λ c d b e f. ground (arith, unique c d b, eq_int→eq fd c, eq_int→eq fd d);
      }

  Step-Placed : {t : System} → Step s t → (q : ℤ → Place) × Placed q t
  Step-Placed (accepts fd l h) = (_, accept-Placed fd l h)
  Step-Placed (makes l fd a rest i q h) = (_, make-Placed l fd a rest i q h)
  Step-Placed (stores l fd a i) = (_, store-Placed l fd a i)
  Step-Placed (keeps l fd a c i r h) = (place, v)
  Step-Placed (disables l fd a c i r h) = (_, disable-Placed l fd a i r)
  Step-Placed (erases l fd a i) = (_, erase-Placed l fd a i)
  Step-Placed (closes l fd i) = (_, close-Placed l fd i)

  Placed-Safe : Safe s
  Placed-Safe = record {
    pointers = λ l fd a r. ground (arith, held l fd, alive fd a);
    one_loop = λ l k fd a b r q. ground (arith, held l fd, held k fd);
    entries = λ fd a e. ground (arith, held 0 fd, alive fd a);
    stores_new = λ l fd a i. (held l fd).clients ∙ ap entry (subst (Stands place l) i (stands l));
    erases_own = λ l fd a i.
        let was : place fd ≡ disabled l a = subst (Stands place l) i (stands l) in
        ((held l fd).clients ∙ ap entry was, λ k. (held k fd).registered ∙ ap (pointer k) was);
    closes_own = λ l fd i.
        let was : place fd ≡ erased l = subst (Stands place l) i (stands l) in
        ((held l fd).opened ∙ ap is_open was, (held l fd).clients ∙ ap entry was);
  }

pub Reach-Placed : {s : System} → Reach s → (place : ℤ → Place) × Placed place s
Reach-Placed begins = (λ fd. nowhere, begun-Placed)
Reach-Placed (steps {s = s} r step) = let (place, v) = Reach-Placed r in Step-Placed place s v step

-- Whatever the threads do and in whatever order, a pointer in an epoll is that of a channel that is
-- alive, of a descriptor that is open, and no other epoll knows the descriptor; an entry of the map
-- is of a channel that is alive and a descriptor that is open; a channel is stored where there is no
-- entry, so that none is destroyed by it; a thread that erases an entry erases its own, which no
-- epoll knows; and what it then closes is open and has no entry.
pub Reach-Safe : {s : System} → Reach s → Safe s
Reach-Safe {s} r = let (place, v) = Reach-Placed r in Placed-Safe place s v
