-- ===== src/Server/Loop/Ending.antt =====
-- The end of a turn: the functors that erase the connections that were closed.
use cs_system_lab.Prelude.{
  ℕ, ◌≡◌, ◌≢◌, ◌⊎◌, refl, ◌∙◌, subst, false, inl, inr, List, [], ◌∷◌, none, some, arith, Bool-cases,
  if◌then◌else◌,
}
use cs_system_lab.Prelude.Heap.{destroyed_keeps, destroyed-some}
use cs_system_lab.Prelude.Int.{ℤ, eq_int, eq_int_refl, eq_int→eq}
use cs_system_lab.Reactor.Epoll.{Interest, interest}
use cs_system_lab.Reactor.EventLoop.{EventLoop, run_all, do_pending_functors}
use cs_system_lab.Server.Registry.{find_connection, is_queued, find_connection-erase_connection}
use cs_system_lab.Server.Loop.{Slot, Store, Server, world, drop_connection, erase_functor, end_turn}
use cs_system_lab.Server.Loop.Sound.{IsOwn, Owned, Sound, Live-elsewhere}

abbrev drop_all : List ℤ → Store → Store
drop_all [] st = st
drop_all (fd ∷ fds) st = drop_all fds (drop_connection fd st)

run_all-drop_all :
    (fds : List ℤ) (l : EventLoop ℤ) (st : Store)
    → run_all erase_functor fds (l, st) ≡ (l, drop_all fds st)
unfolding run_all
run_all-drop_all [] l st = refl
run_all-drop_all (fd ∷ fds) l st = run_all-drop_all fds l (drop_connection fd st)

-- The map and the heap hold the same objects.
record Paired (st : Store) : Type 0 where
  entry :
      (a : ℕ) (x : Slot)
      → st.heap a ≡ some x
      → find_connection x.conn.channel.fd st.connections ≡ some a
  stored :
      (fd : ℤ) (a : ℕ)
      → find_connection fd st.connections ≡ some a
      → (x : Slot) × (st.heap a ≡ some x) × (x.conn.channel.fd ≡ fd)

module _ (fd : ℤ) (st : Store) where
  drop-find :
      (d : ℤ)
      → find_connection d (drop_connection fd st).connections
        ≡ (if eq_int fd d then none else find_connection d st.connections)
  unfolding drop_connection
  drop-find d = find_connection-erase_connection fd d st.connections

  module _ (p : Paired st) where
    drop-heap :
        (a : ℕ) (x : Slot)
        → (drop_connection fd st).heap a ≡ some x
        → (st.heap a ≡ some x) × (eq_int fd x.conn.channel.fd ≡ false)
    unfolding drop_connection
    drop-heap a x e =
        let (was, differ) = destroyed-some (find_connection fd st.connections) st.heap a x e in
        (
          was,
          elim (Bool-cases (eq_int fd x.conn.channel.fd)) [
            | inl k ↦ absurd (differ (rw (eq_int→eq fd x.conn.channel.fd k) (p.entry a x was)))
            | inr k ↦ k
          ],
        )

    drop-Paired : Paired (drop_connection fd st)
    unfolding drop_connection
    drop-Paired = record {
      entry = λ a x e.
          let (was, apart) = drop-heap a x e in
          rw (drop-find x.conn.channel.fd, apart) (p.entry a x was);
      stored = λ d a e.
          let apart : eq_int fd d ≡ false = ground (arith, drop-find d) in
          let (x, alive, is_d) = p.stored d a (ground (arith, drop-find d)) in
          let other : find_connection fd st.connections ≢ some a = (λ f.
            let (y, alive', is_fd) = p.stored fd a f in
            let same : fd ≡ d = ground arith in absurd (ground (arith, eq_int_refl d))) in
          (x, destroyed_keeps (find_connection fd st.connections) st.heap a other ∙ alive, is_d);
    }

drop_all-find :
    (d : ℤ) (fds : List ℤ) (st : Store)
    → find_connection d (drop_all fds st).connections
      ≡ (if is_queued d fds then none else find_connection d st.connections)
unfolding is_queued
drop_all-find d [] st = refl
drop_all-find d (fd ∷ fds) st =
    ground (arith, drop_all-find d fds (drop_connection fd st), drop-find fd st d)

drop_all-Paired : (fds : List ℤ) (st : Store) → Paired st → Paired (drop_all fds st)
drop_all-Paired [] st p = p
drop_all-Paired (fd ∷ fds) st p = drop_all-Paired fds _ (drop-Paired fd st p)

drop_all-heap :
    (fds : List ℤ) (st : Store) (a : ℕ) (x : Slot)
    → Paired st
    → (drop_all fds st).heap a ≡ some x
    → (st.heap a ≡ some x) × (is_queued x.conn.channel.fd fds ≡ false)
unfolding is_queued
drop_all-heap [] st a x p e = (e, refl)
drop_all-heap (fd ∷ fds) st a x p e =
    let (was, rest) = drop_all-heap fds (drop_connection fd st) a x (drop-Paired fd st p) e in
    let (before, apart) = drop-heap fd st p a x was in (before, rw (apart, rest) refl)

-- The functors leave the loop with an empty queue.
end_turn_lem :
    (s : Server)
    → end_turn s ≡ record s {
      loop = record s.loop { pending_functors = [] };
      store = drop_all s.loop.pending_functors s.store;
    }
unfolding end_turn do_pending_functors
end_turn_lem s = rw (run_all-drop_all s.loop.pending_functors _ s.store) refl

drop_all-alive :
    (fds : List ℤ) (st : Store) (a : ℕ) (x : Slot)
    → (drop_all fds st).heap a ≡ some x
    → st.heap a ≡ some x
unfolding drop_connection
drop_all-alive [] st a x e = e
drop_all-alive (fd ∷ fds) st a x e =
    (destroyed-some (find_connection fd st.connections) st.heap a x
      (drop_all-alive fds (drop_connection fd st) a x e)).0

-- No object comes to be at the end of a turn, and none changes.
pub end_turn-alive :
    (s : Server) (a : ℕ) (x : Slot) → (end_turn s).store.heap a ≡ some x → s.store.heap a ≡ some x
end_turn-alive s a x e =
    drop_all-alive s.loop.pending_functors s.store a x
      (subst (λ t. t.store.heap a ≡ some x) (end_turn_lem s) e)

module _ (s : Server) (sound : Sound s) where
  abbrev queue : List ℤ
  queue = s.loop.pending_functors

  abbrev ended : Server
  ended = record s {
    loop = record s.loop { pending_functors = [] };
    store = drop_all queue s.store;
  }

  s-Paired : Paired s.store
  s-Paired = record {
    entry = λ a x e. (sound.owned a x e).entry;
    stored = λ fd a e. let o = sound.stored fd a e in (o.slot, o.alive, o.fd_of);
  }

  -- What the epoll knows of a connection, its erasure is not queued.
  pub known-not_queued :
      (fd : ℤ) (a : ℕ) (i : Interest)
      → interest s.epoll.calls fd ≡ some i
      → find_connection fd s.store.connections ≡ some a
      → is_queued fd queue ≡ false
  known-not_queued fd a i e f =
      let o = sound.stored fd a f in
      elim (sound.owned a o.slot o.alive).watched [
        | inl (v, n) ↦ rw (← o.fd_of) n
        | inr (v, q) ↦ absurd (ground (arith, v.follows.known, o.fd_of))
      ]

  ended-Owned : (a : ℕ) (x : Slot) → ended.store.heap a ≡ some x → Owned ended a x
  unfolding is_queued
  ended-Owned a x e =
      let (was, free) = drop_all-heap queue s.store a x s-Paired e in
      let o = sound.owned a x was in
      record {
        entry = rw (drop_all-find x.conn.channel.fd queue s.store, free) o.entry;
        self = o.self;
        watched = elim o.watched [
          | inl (v, n) ↦
              inl (Live-elsewhere (world s x) (world ended x) refl refl v.granted v, refl)
          | inr (v, q) ↦ absurd (ground arith)
        ];
      }

  ended-known :
      (fd : ℤ) (i : Interest)
      → interest ended.epoll.calls fd ≡ some i
      → IsOwn ended fd ⊎ (find_connection fd ended.store.connections ≡ some i.ptr)
  ended-known fd i e = elim (sound.known fd i e) [
    | inl o ↦ inl o
    | inr f ↦ inr (rw (drop_all-find fd queue s.store, known-not_queued fd i.ptr i e f) f)
  ]

  ended-Sound : Sound ended
  unfolding is_queued
  ended-Sound = record {
    granted = sound.granted;
    owned = ended-Owned;
    stored = λ fd a e.
        let (x, alive, same) = (drop_all-Paired queue s.store s-Paired).stored fd a e in
        record { slot = x; alive = alive; fd_of = same };
    queued = λ fd q. absurd (ground arith);
    known = ended-known;
  }

  -- The server is sound again, and no erasure is queued.
  pub end_turn-Sound : Sound (end_turn s) × ((end_turn s).loop.pending_functors ≡ [])
  end_turn-Sound = rw (end_turn_lem s) (ended-Sound, refl)

  -- What the epoll knows of a connection, the object stays.
  pub end_turn-keeps :
      (fd : ℤ) (a : ℕ) (x : Slot) (i : Interest)
      → find_connection fd s.store.connections ≡ some a
      → s.store.heap a ≡ some x
      → interest s.epoll.calls fd ≡ some i
      → (find_connection fd (end_turn s).store.connections ≡ some a)
        × ((end_turn s).store.heap a ≡ some x)
        × (interest (end_turn s).epoll.calls fd ≡ some i)
  end_turn-keeps fd a x i f e k =
      let found : find_connection fd ended.store.connections ≡ some a =
        rw (drop_all-find fd queue s.store, known-not_queued fd a i k f) f in
      let (y, alive, same) = (drop_all-Paired queue s.store s-Paired).stored fd a found in
      let (was, free) = drop_all-heap queue s.store a y s-Paired alive in
      rw (end_turn_lem s) (found, ground arith, k)
