-- ===== src/Server/Threads/Alone.antt =====
-- On the loops of several threads, a connection behaves as it does alone.
use cs_system_lab.Prelude.{
  ℕ, ◌≡◌, ◌≢◌, refl, sym, ◌∙◌, subst, true, false, inl, inr, List, ◌∷◌, some, arith, Bool-cases,
  ==_refl,
}
use cs_system_lab.Prelude.Int.{ℤ, eq_int, eq_int_refl, eq_int→eq}
use cs_system_lab.Server.Connection.{World, Setup, Event, new_connection, dispatch, run_events}
use cs_system_lab.Server.Connection.Alone.{Same, dispatch-Same, run_events-Same}
use cs_system_lab.Server.Loop.{Slot}
use cs_system_lab.Server.Loop.Alone.{slot_of, open_before, Same-slot_of, still_open}
use cs_system_lab.Server.Threads.{
  Functor, System, hand_over, make_connection, store_connection, begin_remove, close_connection,
  queue_erasure, run_erasure, Reach, begins, steps, Step, IsUnmapped,
}
use cs_system_lab.Server.Threads
use cs_system_lab.Server.Threads.Places.{Place, queued, pointer, object, Placed, makings_at-queued}
use cs_system_lab.Server.Threads.Safety.{Reach-Placed}
use cs_system_lab.Server.Threads.Objects.{
  Memory, Surroundings, world_in, with_object, with_system, Act, handled, silent, Move, accepts,
  makes, stores, handles, removes, closes, queues, erases, Moves, rest, next, events_on, Serves,
}

-- A move is a step of the threads, or leaves the system alone.
module _ (setup : Setup) where
  pub Move-Reach :
      {m n : Memory} {act : Act}
      → Move setup m act n
      → Reach IsUnmapped m.system
      → Reach IsUnmapped n.system
  Move-Reach (accepts fd l h u) r = steps r (Threads.accepts fd l h u)
  Move-Reach (makes l fd a fs e i q h) r = steps r (Threads.makes l fd a fs i q h)
  Move-Reach (stores l fd a i) r = steps r (Threads.stores l fd a i)
  Move-Reach (handles l fd a x ev e i w o c) r = r
  Move-Reach (removes l fd a x ev e i w o c) r = steps r (Threads.removes l fd a i w)
  Move-Reach (closes l fd a i) r = steps r (Threads.closes l fd a i)
  Move-Reach (queues l fd a i) r = steps r (Threads.queues l fd a i)
  Move-Reach (erases l fd fs i q) r = steps r (Threads.erases l fd fs i q)

pointer-object : (l a : ℕ) (p : Place) → pointer l p ≡ some a → object p ≡ some a
pointer-object l a p h = ground arith

module _ (place : ℤ → Place) (s : System) (v : Placed place s) where
  -- Two pointers to one object are of one descriptor.
  one_descriptor :
      (l k : ℕ) (fd d : ℤ) (a : ℕ) → s.registered l fd ≡ some a → s.registered k d ≡ some a → fd ≡ d
  one_descriptor l k fd d a e f =
      v.unique fd d a (pointer-object l a (place fd) (sym ((v.held l fd).registered) ∙ e))
        (pointer-object k a (place d) (sym ((v.held k d).registered) ∙ f))

module _ (setup : Setup) (e : Surroundings) where
  -- What the events make of a connection, with nothing else around it.
  abbrev pub run_alone : List Event → Slot → World
  run_alone evs x = run_events setup evs (world_in e x)

  module _ (l : ℕ) (fd : ℤ) (a : ℕ) (x : Slot) where
    -- Another object changes.
    other-Serves :
        (m : Memory) (b : ℕ) (w : World)
        → a ≢ b
        → Serves l fd a x m
        → Serves l fd a x (with_object b w m)
    other-Serves m b w n h = record { watched = h.watched; content = ground (arith, h.content) }

    -- The system changes, but for what its epolls know of this descriptor.
    system-Serves :
        (m : Memory) (s : System)
        → s.registered l fd ≡ m.system.registered l fd
        → Serves l fd a x m
        → Serves l fd a x (with_system s m)
    system-Serves m s e h = record { watched = e ∙ h.watched; content = h.content }

    make_connection-registered :
        (k : ℕ) (d : ℤ) (b : ℕ) (fs : List Functor) (s : System)
        → fd ≢ d
        → (make_connection k d b fs s).registered l fd ≡ s.registered l fd
    unfolding make_connection
    make_connection-registered k d b fs s n = ground (arith, eq_int→eq d fd)

    begin_remove-registered :
        (k : ℕ) (d : ℤ) (b : ℕ) (s : System)
        → fd ≢ d
        → (begin_remove k d b s).registered l fd ≡ s.registered l fd
    unfolding begin_remove
    begin_remove-registered k d b s n = ground (arith, eq_int→eq d fd)

    -- A step that no client sees.
    silent-Serves :
        {m n : Memory}
        → Reach IsUnmapped m.system
        → Move setup m silent n
        → Serves l fd a x m
        → Serves l fd a x n
    unfolding hand_over store_connection close_connection queue_erasure run_erasure
    silent-Serves {m} r (accepts d k h u) v = system-Serves m _ refl v
    silent-Serves {m} r (makes k d b fs e i q h) v =
        let (place, p) = Reach-Placed r in
        let mine = pointer-object l a (place fd) (sym ((p.held l fd).registered) ∙ v.watched) in
        let waits : place d ≡ queued k =
          makings_at-queued k (place d) (ground (arith, p.held k d, eq_int_refl d)) in
        let apart : fd ≢ d = (λ s. absurd (ground arith)) in
        let new : a ≢ b = (λ s. ground (arith, p.alive fd a mine)) in
        system-Serves (with_object b (new_connection b d e.loop e.epoll) m) _
          (make_connection-registered k d b fs m.system apart)
          (other-Serves m b (new_connection b d e.loop e.epoll) new v)
    silent-Serves {m} r (stores k d b i) v = system-Serves m _ refl v
    silent-Serves {m} r (closes k d b i) v = system-Serves m _ refl v
    silent-Serves {m} r (queues k d b i) v = system-Serves m _ refl v
    silent-Serves {m} r (erases k d fs i q) v = system-Serves m _ refl v

    -- An event of another descriptor.
    elsewhere-Serves :
        {d : ℤ} {ev : Event} {m n : Memory}
        → fd ≢ d
        → Reach IsUnmapped m.system
        → Move setup m (handled d ev) n
        → Serves l fd a x m
        → Serves l fd a x n
    elsewhere-Serves {m} apart r (handles k d b y ev e i w o c) v =
        let (place, p) = Reach-Placed r in
        other-Serves m b (dispatch setup ev (world_in e y))
          (λ s. apart (one_descriptor place m.system p l k fd d a v.watched (rw s w))) v
    elsewhere-Serves {m} apart r (removes k d b y ev e i w o c) v =
        let (place, p) = Reach-Placed r in
        system-Serves (with_object b (dispatch setup ev (world_in e y)) m) _
          (begin_remove-registered k d b m.system apart)
          (other-Serves m b (dispatch setup ev (world_in e y))
            (λ s. apart (one_descriptor place m.system p l k fd d a v.watched (rw s w))) v)

    -- An epoll that points at something for this descriptor points at this object.
    pub own_object :
        (m : Memory) (k b : ℕ) (y : Slot)
        → Reach IsUnmapped m.system
        → m.system.registered k fd ≡ some b
        → m.objects b ≡ some y
        → Serves l fd a x m
        → (a ≡ b) × (x ≡ y)
    own_object m k b y r w o v =
        let (place, p) = Reach-Placed r in
        let mine = pointer-object l a (place fd) (sym ((p.held l fd).registered) ∙ v.watched) in
        let its = pointer-object k b (place fd) (sym ((p.held k fd).registered) ∙ w) in
        let at : a ≡ b = (let e = sym mine ∙ its in cc) in (at, ground (arith, v.content, at))

    -- An event of its own.
    handled-Serves :
        {d : ℤ} {ev : Event} {m n : Memory}
        → d ≡ fd
        → Reach IsUnmapped m.system
        → Move setup m (handled d ev) n
        → Serves l fd a x m
        → (dispatch setup ev (world_in e x)).conn.closing ≡ false
        → Serves l fd a (slot_of (dispatch setup ev (world_in e x))) n
    handled-Serves {m} is r (handles k d b y ev e' i w o c) v yet =
        let (at, same) = own_object m k b y r (rw (← is) w) o v in
        let s =
          dispatch-Same setup ev (world_in e x) (world_in e' x)
            (record { conn = refl; wire = refl }) in
        record {
          watched = v.watched;
          content = rw (← same, at, ==_refl b, Same-slot_of setup _ _ s) refl;
        }
    handled-Serves {m} is r (removes k d b y ev e' i w o c) v yet =
        let (at, same) = own_object m k b y r (rw (← is) w) o v in
        let s =
          dispatch-Same setup ev (world_in e x) (world_in e' x)
            (record { conn = refl; wire = refl }) in
        let stays = still_open setup _ _ s yet in
        let gone : (dispatch setup ev (world_in e' x)).conn.closing ≡ true = rw same c in
        absurd (cc)

  behind_first :
      (ev : Event) (evs : List Event) (x : Slot)
      → Same (run_alone (ev ∷ evs) x) (run_alone evs (slot_of (dispatch setup ev (world_in e x))))
  unfolding run_events
  behind_first ev evs x =
      run_events-Same setup evs (dispatch setup ev (world_in e x))
        (world_in e (slot_of (dispatch setup ev (world_in e x))))
        (record { conn = refl; wire = refl })

  pub Moves-Serves :
      {acts : List Act} {m n : Memory} (l : ℕ) (fd : ℤ) (a : ℕ) (x : Slot)
      → Reach IsUnmapped m.system
      → Moves setup acts m n
      → Serves l fd a x m
      → (run_alone (events_on fd acts) x).conn.closing ≡ false
      → Serves l fd a (slot_of (run_alone (events_on fd acts) x)) n
  unfolding run_events
  Moves-Serves l fd a x r rest v yet = v
  Moves-Serves l fd a x r (next {acts = acts} silent move more) v yet =
      Moves-Serves l fd a x (Move-Reach setup move r) more (silent-Serves l fd a x r move v) yet
  Moves-Serves l fd a x r (next {acts = acts} (handled d ev) move more) v yet =
      elim (Bool-cases (eq_int d fd)) [
        | inl q ↦
            let here : events_on fd (handled d ev ∷ acts) ≡ ev ∷ events_on fd acts = rw q refl in
            let evs = events_on fd acts in
            let yet' = subst (λ es. (run_alone es x).conn.closing ≡ false) here yet in
            let w = dispatch setup ev (world_in e x) in
            let first =
              handled-Serves l fd a x (eq_int→eq d fd q) r move v
                (open_before setup evs ev (world_in e x) yet') in
            let same = behind_first ev evs x in
            let later =
              Moves-Serves l fd a (slot_of w) (Move-Reach setup move r) more first
                (still_open setup _ _ same yet') in
            rw (here, ← Same-slot_of setup _ _ same) later
        | inr q ↦
            let here : events_on fd (handled d ev ∷ acts) ≡ events_on fd acts = rw q refl in
            let apart : fd ≢ d = (λ s. ground (arith, eq_int_refl d)) in
            rw here (
              Moves-Serves l fd a x (Move-Reach setup move r) more
                (elsewhere-Serves l fd a x apart r move v)
                (subst (λ es. (run_alone es x).conn.closing ≡ false) here yet))
      ]
