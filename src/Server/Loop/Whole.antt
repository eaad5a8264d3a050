-- ===== src/Server/Loop/Whole.antt =====
-- Many turns of the server, as one of its connections sees them.
use cs_system_lab.Prelude.{
  ℕ, ◌≡◌, ◌≢◌, refl, subst, false, inl, inr, List, [], ◌∷◌, ◌++◌, some, arith, Bool-cases,
}
use cs_system_lab.Prelude.Int.{ℤ}
use cs_system_lab.Reactor.Epoll.{Interest}
use cs_system_lab.Server.Connection.{World, Setup, Event, run_events}
use cs_system_lab.Server.Connection.Alone.{Same, run_events-Same}
use cs_system_lab.Server.Connection.Preserving.{run_events-keeps, run_events-append}
use cs_system_lab.Server.Loop.{Slot, Server, Item, world, server_turn}
use cs_system_lab.Server.Loop.Sound.{Sound}
use cs_system_lab.Server.Loop.Batch.{IsBatch}
use cs_system_lab.Server.Loop.Step.{Held}
use cs_system_lab.Server.Loop.Turn.{server_turn-Turned}
use cs_system_lab.Server.Loop.Safety.{Opening, Runs, Runs-Sound}
use cs_system_lab.Server.Loop.Alone.{
  events_of, slot_of, IsClosing-Preserved, Same-slot_of, still_open, turn_alone,
}

-- One turn after the other, each with what can happen in it.
pub data Turns (setup : Setup) : List (List Item) → Server → Server → Type 0 where
  rest : {s : Server} → Turns setup [] s s
  next :
      {s t u : Server} {batches : List (List Item)} (items : List Item)
      → IsBatch s items
      → server_turn setup items s ≡ some t
      → Turns setup batches t u
      → Turns setup (items ∷ batches) s u

abbrev pub all_events_of : ℤ → List (List Item) → List Event
all_events_of fd [] = []
all_events_of fd (items ∷ batches) = events_of fd items ++ all_events_of fd batches

module _ (setup : Setup) where
  open_between :
      (fs : List Event) (w : World)
      → (run_events setup fs w).conn.closing ≡ false
      → w.conn.closing ≡ false
  open_between fs w h = elim (Bool-cases w.conn.closing) [
    | inl e ↦
        absurd (ground (arith, run_events-keeps IsClosing-Preserved setup (λ w n h. h) fs w e))
    | inr e ↦ e
  ]

  Turns-alone :
      (batches : List (List Item)) (s t : Server) (d : ℤ) (b : ℕ) (x : Slot) (k : Interest)
      → Sound s
      → Turns setup batches s t
      → Held d b x k s
      → (run_events setup (all_events_of d batches) (world s x)).conn.closing ≡ false
      → (j : Interest) × Held d b
          (slot_of (run_events setup (all_events_of d batches) (world s x)))
          j
          t
  unfolding run_events
  Turns-alone [] s t d b x k sound rest held still = (k, held)
  Turns-alone (items ∷ batches) s t d b x k sound (next {t = u} _ batch e more) held still =
      let es = events_of d items in
      let fs = all_events_of d batches in
      let w = run_events setup es (world s x) in
      let split = run_events-append setup es fs (world s x) in
      let still_w = subst (λ y. y.conn.closing ≡ false) split still in
      let (k', held') =
        turn_alone setup items u d b s x k sound batch e held (open_between fs w still_w) in
      let (v, done, r) = server_turn-Turned setup items s sound batch in
      let v_is : v ≡ u = ground arith in
      let same : Same (run_events setup fs w) (run_events setup fs (world u (slot_of w))) =
        run_events-Same setup fs w (world u (slot_of w)) (record { conn = refl; wire = refl }) in
      let (j, h) =
        Turns-alone batches u t d b (slot_of w) k' (subst Sound v_is r.sound) more held'
          (still_open setup _ _ same still_w) in
      (j, rw (split, ← Same-slot_of setup _ _ same) h)

-- Where the listening socket is not the eventfd, a connection of the server behaves, over any number
-- of turns as for `server_turn-Settled`, as if it were alone: if the events that the kernel reports of its
-- descriptor leave it open when they are handled one after the other with nothing else around it,
-- then behind the turns the server holds it under its descriptor, at its address, with the parser,
-- the buffers, the channel and the bytes written that they leave alone, and the epoll watches it.
pub server-alone :
    (setup : Setup) (o : Opening) (batches : List (List Item)) (s t : Server) (fd : ℤ) (a : ℕ)
    (slot : Slot) (i : Interest)
    → o.socket ≢ o.eventfd
    → Runs setup o s
    → Turns setup batches s t
    → Held fd a slot i s
    → (run_events setup (all_events_of fd batches) (world s slot)).conn.closing ≡ false
    → (j : Interest) × Held fd a
        (slot_of (run_events setup (all_events_of fd batches) (world s slot)))
        j
        t
server-alone setup o batches s t fd a slot i apart runs turns held still =
    Turns-alone setup batches s t fd a slot i (Runs-Sound setup o s apart runs) turns held still
