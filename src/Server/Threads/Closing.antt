-- ===== src/Server/Threads/Closing.antt =====
-- On the loops of several threads, what an event leads to that ends a connection.
use cs_system_lab.Prelude.{
  ℕ, ◌≡◌, refl, sym, ap, ◌∙◌, true, false, List, [], ◌∷◌, ◌++◌, some, ==_refl,
}
use cs_system_lab.Prelude.Int.{ℤ}
use cs_system_lab.Server.Connection.{Connection, World, Setup, Event, dispatch, run_events}
use cs_system_lab.Server.Connection.Alone.{Same, dispatch-Same}
use cs_system_lab.Server.Connection.Preserving.{run_events-append}
use cs_system_lab.Server.Loop.{Slot}
use cs_system_lab.Server.Loop.Alone.{slot_of, Same-slot_of, still_open}
use cs_system_lab.Server.Threads.{System, closing, begin_remove, Reach, steps, IsUnmapped}
use cs_system_lab.Server.Threads
use cs_system_lab.Server.Threads.Ending.{Ended, removal-Ended}
use cs_system_lab.Server.Threads.Safety.{server-Safe}
use cs_system_lab.Server.Threads.Objects.{
  Memory, nothing_made, Surroundings, world_in, Act, handled, Move, handles, removes, Moves,
  events_on, Serves,
}
use cs_system_lab.Server.Threads.Alone.{own_object, Moves-Serves}
use cs_system_lab.Server.Threads.Replies.{Moves-keeps, begun-keeps}

-- The object at `a` holds what it did when the handlers were done, and the loop `l` ends it.
pub record Closed (l : ℕ) (fd : ℤ) (a : ℕ) (x : Slot) (m : Memory) : Type 0 where
  pub content : m.objects a ≡ some x
  pub last : System
  pub ended : Ended l fd a m.system last

module _ (setup : Setup) (e : Surroundings) where
  last-Closed :
      (l : ℕ) (fd : ℤ) (a : ℕ) (x : Slot) {ev : Event} {m n : Memory}
      → Reach IsUnmapped m.system
      → Serves l fd a x m
      → Move setup m (handled fd ev) n
      → (dispatch setup ev (world_in e x)).conn.closing ≡ true
      → Closed l fd a (slot_of (dispatch setup ev (world_in e x))) n
  unfolding begin_remove
  last-Closed l fd a x {m = m} r v (handles k d b y ev e' i w o c) h =
      let (at, same) = own_object setup e l fd a x m k b y r w o v in
      let s =
        dispatch-Same setup ev (world_in e' x) (world_in e x)
          (record { conn = refl; wire = refl }) in
      let yet : (dispatch setup ev (world_in e' x)).conn.closing ≡ false = rw same c in
      let yet' = still_open setup _ _ s yet in absurd (cc)
  last-Closed l fd a x {m = m} r v (removes k d b y ev e' i w o c) h =
      let (at, same) = own_object setup e l fd a x m k b y r w o v in
      let loop : l ≡ k = (server-Safe r).one_loop l k fd a b v.watched w in
      let s =
        dispatch-Same setup ev (world_in e x) (world_in e' x)
          (record { conn = refl; wire = refl }) in
      let (last, ended) =
        removal-Ended l fd a (steps r (Threads.removes k fd b i w))
          (rw (loop, at, ==_refl k) refl) in
      record {
        content = rw (← same, at, ==_refl b, Same-slot_of setup _ _ s) refl;
        last = last;
        ended = ended;
      }

-- Under the conditions of `threads-alone`: when an event of the descriptor is handled that, behind
-- those handled before, ends the connection, the object then holds what these events make of it with
-- nothing else around it, and the loop by itself comes to a state in which the descriptor is closed,
-- the map has no entry for it, and the connection is destroyed.
pub threads-Closed :
    (setup : Setup) (e : Surroundings) (before acts : List Act) (ev : Event) (m n o : Memory)
    (l : ℕ) (fd : ℤ) (a : ℕ) (x : Slot)
    → Moves setup before nothing_made m
    → Moves setup acts m n
    → Move setup n (handled fd ev) o
    → Serves l fd a x m
    → (run_events setup (events_on fd acts) (world_in e x)).conn.closing ≡ false
    → (run_events setup (events_on fd acts ++ ev ∷ []) (world_in e x)).conn.closing ≡ true
    → Closed l fd a (slot_of (run_events setup (events_on fd acts ++ ev ∷ []) (world_in e x))) o
unfolding run_events
threads-Closed setup e before acts ev m n o l fd a x begun moves last v yet closes =
    let r = (Moves-keeps setup begun (begun-keeps setup)).0 in
    let r' = (Moves-keeps setup moves (Moves-keeps setup begun (begun-keeps setup))).0 in
    let w = run_events setup (events_on fd acts) (world_in e x) in
    let served = Moves-Serves setup e l fd a x r moves v yet in
    let split = run_events-append setup (events_on fd acts) (ev ∷ []) (world_in e x) in
    let same : Same (dispatch setup ev w) (dispatch setup ev (world_in e (slot_of w))) =
      dispatch-Same setup ev w (world_in e (slot_of w)) (record { conn = refl; wire = refl }) in
    let shut : (dispatch setup ev (world_in e (slot_of w))).conn.closing ≡ true =
      ap (λ (y : Connection). y.closing) same.conn
      ∙ ap (λ (y : World). y.conn.closing) (sym split)
      ∙ closes in
    rw (split, ← Same-slot_of setup _ _ same)
      (last-Closed setup e l fd a (slot_of w) r' served last shut)
