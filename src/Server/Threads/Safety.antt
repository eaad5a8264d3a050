-- ===== src/Server/Threads/Safety.antt =====
-- What no interleaving of HttpServer's threads breaks, and on what condition.
use cs_system_lab.Prelude.{ℕ, ◌≡◌, ap, ◌∙◌, subst, true, false, List, ◌∷◌, none, some, arith}
use cs_system_lab.Prelude.Int.{ℤ, eq_int_refl}
use cs_system_lab.Server.Threads.{
  Functor, erase, storing, closing, System, Reach, begins, steps, IsUnmapped,
}
use cs_system_lab.Server.Threads.Places.{
  Place, nowhere, is_open, pointer, entry, Stands, Placed, begun-Placed, erasures_at-pending,
}
use cs_system_lab.Server.Threads.Moves.{Step-Placed}

pub record Safe (s : System) : Type 0 where
  -- A pointer in an epoll is that of a connection that is alive and not closed.
  pub pointers :
      (l : ℕ) (fd : ℤ) (a : ℕ)
      → s.registered l fd ≡ some a
      → (s.alive a ≡ true) × (s.opened fd ≡ true)
  pub one_loop :
      (l k : ℕ) (fd : ℤ) (a b : ℕ) → s.registered l fd ≡ some a → s.registered k fd ≡ some b → l ≡ k
  pub entries : (fd : ℤ) (a : ℕ) → s.connections fd ≡ some a → s.alive a ≡ true
  -- No connection is destroyed by another that takes its entry.
  pub stores_new : (l : ℕ) (fd : ℤ) (a : ℕ) → s.pc l ≡ storing fd a → s.connections fd ≡ none
  -- What is closed is open: nothing is closed twice.
  pub closes_open : (l : ℕ) (fd : ℤ) (a : ℕ) → s.pc l ≡ closing fd a → s.opened fd ≡ true
  -- An erasure destroys a connection that is closed and that no epoll points at.
  pub erases_closed :
      (l : ℕ) (fd : ℤ) (rest : List Functor)
      → s.functors l ≡ erase fd ∷ rest
      → (a : ℕ) × (s.connections fd ≡ some a)
        × (s.opened fd ≡ false)
        × ((k : ℕ) → s.registered k fd ≡ none)

Placed-Safe : (place : ℤ → Place) (s : System) → Placed place s → Safe s
Placed-Safe place s v = record {
  pointers = λ l fd a r. ground (arith, v.held l fd, v.alive fd a);
  one_loop = λ l k fd a b r q. ground (arith, v.held l fd, v.held k fd);
  entries = λ fd a e. ground (arith, v.held 0 fd, v.alive fd a);
  stores_new =
      λ l fd a i. (v.held l fd).connections ∙ ap entry (subst (Stands place l) i (v.stands l));
  closes_open =
      λ l fd a i. (v.held l fd).opened ∙ ap is_open (subst (Stands place l) i (v.stands l));
  erases_closed = λ l fd rest q.
      let (a, was) =
        erasures_at-pending l (place fd) (ground (arith, v.held l fd, eq_int_refl fd)) in
      (
        a,
        (v.held l fd).connections ∙ ap entry was,
        (v.held l fd).opened ∙ ap is_open was,
        λ k. (v.held k fd).registered ∙ ap (pointer k) was,
      );
}

pub Reach-Placed : {s : System} → Reach IsUnmapped s → (place : ℤ → Place) × Placed place s
Reach-Placed begins = (λ fd. nowhere, begun-Placed)
Reach-Placed (steps {s = s} r step) = let (place, v) = Reach-Placed r in Step-Placed place s v step

-- Provided that no descriptor is accepted that is still in the map, the following holds whatever the
-- threads do and in whatever order. A pointer in an epoll is that of a connection that is alive, of
-- a descriptor that is open, and no other epoll knows the descriptor; an entry of the map is of a
-- connection that is alive; a connection is stored where there is no entry, so that none is
-- destroyed by it; what a thread closes is open; and an erasure that is next in a queue is of a
-- connection that the map holds, that is closed, and that no epoll points at.
pub server-Safe : {s : System} → Reach IsUnmapped s → Safe s
server-Safe {s} r = let (place, v) = Reach-Placed r in Placed-Safe place s v
