-- ===== src/Server/Loop/Alone.antt =====
-- A connection of the server behaves as it does alone.
use cs_system_lab.Prelude.{
  ℕ, ◌≡◌, refl, sym, ap, ◌∙◌, subst, true, false, inl, inr, List, [], ◌∷◌, some, arith, Bool-cases,
  ==_refl, if◌then◌else◌, ◌>>=◌,
}
use cs_system_lab.Prelude.Int.{ℤ, eq_int, eq_int→eq}
use cs_system_lab.Reactor.Epoll.{Interest, interest}
use cs_system_lab.Server.Connection.{World, Setup, Event, remove_connection, dispatch, run_events}
use cs_system_lab.Server.Connection.Alone.{Same, run_events-Same}
use cs_system_lab.Server.Connection.Preserving.{Preserved, switched, run_events-keeps}
use cs_system_lab.Server.Connection.Watching.{Live}
use cs_system_lab.Server.Connection.Registering.{dispatch-IsRegistered}
use cs_system_lab.Server.Connection.Sharing.{dispatch-Alike}
use cs_system_lab.Server.Loop.{
  Slot, Server, Item, reported, accepted, woken, world, written_back, handle, end_turn, server_turn,
}
use cs_system_lab.Server.Loop.Sound.{Sound}
use cs_system_lab.Server.Loop.Ending.{end_turn-keeps}
use cs_system_lab.Server.Loop.Batch.{IsReported, IsBatch}
use cs_system_lab.Server.Loop.Ready.{IsReported-Ready}
use cs_system_lab.Server.Loop.Step.{Held, handle-Handed}

-- The events of one descriptor.
abbrev pub events_of : ℤ → List Item → List Event
events_of fd [] = []
events_of fd (reported d ptr ev ∷ items) =
    let rest = events_of fd items in if eq_int d fd then ev ∷ rest else rest
events_of fd (accepted d a ∷ items) = events_of fd items
events_of fd (woken ∷ items) = events_of fd items

abbrev pub slot_of : World → Slot
slot_of w = record { conn = w.conn; wire = w.wire }

-- A connection that is closing stays so.
abbrev pub IsClosing : World → Type 0
IsClosing w = w.conn.closing ≡ true

pub IsClosing-Preserved : Preserved IsClosing
unfolding remove_connection switched
IsClosing-Preserved = record {
  same = λ w v c g l e k h. g ∙ h;
  switches = λ op w h. h;
  removed = λ w h. rw h refl;
}

module _ (setup : Setup) where
  -- The events of a connection bring it to the same state wherever it is.
  moved_elsewhere :
      (s t : Server) (x : Slot) (evs : List Event)
      → Same (run_events setup evs (world s x)) (run_events setup evs (world t x))
  moved_elsewhere s t x evs =
      run_events-Same setup evs (world s x) (world t x) (record { conn = refl; wire = refl })

  -- An event that leaves a connection open.
  reported-Held :
      (s : Server) (d : ℤ) (b : ℕ) (x : Slot) (i : Interest) (ev : Event)
      → Held d b x i s
      → x.conn.channel.fd ≡ d
      → Live (world s x)
      → (dispatch setup ev (world s x)).conn.closing ≡ false
      → (k : Interest) × Held d b
          (slot_of (dispatch setup ev (world s x)))
          k
          (written_back b s (dispatch setup ev (world s x)))
  unfolding written_back
  reported-Held s d b x i ev h fd v still =
      let w = dispatch setup ev (world s x) in
      elim (dispatch-IsRegistered setup ev (world s x) v) [
        | inl live ↦ (
          record { events = _; ptr = w.conn.channel.self },
          record {
            entry = h.entry;
            alive = rw (==_refl b) refl;
            watched =
                ap (λ y. interest w.epoll.calls y)
                  (sym ((dispatch-Alike setup ev (world s x)).fd ∙ fd))
                ∙ live.follows.known;
          },
        )
        | inr dead ↦ absurd (ground (arith, dead.shut))
      ]

  -- The events of the items, and then none, leave a connection where it would be alone.
  abbrev pub Arrives : ℤ → ℕ → Slot → List Event → Server → Server → Type 0
  Arrives d b x evs s t = (k : Interest) × Held d b (slot_of (run_events setup evs (world s x))) k t

  pub open_before :
      (evs : List Event) (ev : Event) (w : World)
      → (run_events setup (ev ∷ evs) w).conn.closing ≡ false
      → (dispatch setup ev w).conn.closing ≡ false
  unfolding run_events
  open_before evs ev w h = elim (Bool-cases (dispatch setup ev w).conn.closing) [
    | inl e ↦ absurd (
        ground (
          arith,
          run_events-keeps IsClosing-Preserved setup (λ w n h. h) evs (dispatch setup ev w) e,
        ))
    | inr e ↦ e
  ]

  pub Same-slot_of : (w v : World) → Same w v → slot_of v ≡ slot_of w
  Same-slot_of w v e = ground (arith, e.conn, e.wire)

  pub still_open : (w v : World) → Same w v → w.conn.closing ≡ false → v.conn.closing ≡ false
  still_open w v e h = rw (e.conn) h

  -- A turn that begins where the connection is at `x`.
  abbrev pub Continues : List Item → Server → ℤ → ℕ → Type 0
  Continues items t d b =
      (u : Server) (x : Slot) (k : Interest)
      → Sound u
      → IsBatch u items
      → server_turn setup items u ≡ some t
      → Held d b x k u
      → (run_events setup (events_of d items) (world u x)).conn.closing ≡ false
      → Arrives d b x (events_of d items) u t

  -- Another server in the same state of the connection.
  continue :
      (items : List Item) (t : Server) (d : ℤ) (b : ℕ) (w : World) (u : Server) (k : Interest)
      → Continues items t d b
      → Sound u
      → IsBatch u items
      → server_turn setup items u ≡ some t
      → Held d b (slot_of w) k u
      → (run_events setup (events_of d items) w).conn.closing ≡ false
      → (j : Interest) × Held d b (slot_of (run_events setup (events_of d items) w)) j t
  continue items t d b w u k go sound batch e held still =
      let same : Same (run_events setup (events_of d items) w)
          (run_events setup (events_of d items) (world u (slot_of w))) =
        run_events-Same setup (events_of d items) w (world u (slot_of w))
          (record { conn = refl; wire = refl }) in
      let (j, h) = go u (slot_of w) k sound batch e held (still_open _ _ same still) in
      (j, rw (← Same-slot_of _ _ same) h)

  -- The rest of a turn behind its first item.
  behind :
      (i : Item) (items : List Item) (s u t : Server)
      → handle setup i s ≡ some u
      → server_turn setup (i ∷ items) s ≡ some t
      → server_turn setup items u ≡ some t
  unfolding server_turn
  behind i items s u t first e = sym (ap (λ o. o >>= server_turn setup items) first) ∙ e

  reported_at :
      (s : Server) (sound : Sound s) (d : ℤ) (ptr b : ℕ) (x : Slot) (k : Interest) (ev : Event)
      → IsReported s d ptr
      → Held d b x k s
      → (handle setup (reported d ptr ev) s
          ≡ some (written_back b s (dispatch setup ev (world s x))))
        × (x.conn.channel.fd ≡ d)
        × Live (world s x)
  unfolding handle
  reported_at s sound d ptr b x k ev r h =
      let o = IsReported-Ready s d ptr sound r in
      let owned = sound.owned ptr o.slot o.alive in
      let at : ptr ≡ b = ground (arith, owned.entry, o.fd_of, h.entry) in
      let is : o.slot ≡ x = ground (arith, o.alive, h.alive) in
      (rw (at, h.alive) refl, rw (← is) o.fd_of, subst (λ y. Live (world s y)) is o.opened)

  -- A reported event is of this connection or of another one.
  reported_alone :
      (c : ℤ) (ptr : ℕ) (ev : Event) (items : List Item) (t : Server) (d : ℤ) (b : ℕ)
      → Continues items t d b
      → Continues (reported c ptr ev ∷ items) t d b
  unfolding server_turn run_events
  reported_alone c ptr ev items t d b go s x k sound (r, o, batch) e held still =
      let (u, first, h) = handle-Handed setup s items sound (reported c ptr ev) (r, o, batch) in
      let rest = behind (reported c ptr ev) items s u t first e in
      elim (Bool-cases (eq_int c d)) [
        | inl q ↦
            let c_is : c ≡ d = eq_int→eq c d q in
            let evs_is : events_of d (reported c ptr ev ∷ items) ≡ ev ∷ events_of d items =
              rw q refl in
            let still' =
              subst (λ es. (run_events setup es (world s x)).conn.closing ≡ false) evs_is still in
            let (handled, fd, live) =
              reported_at s sound d ptr b x k ev (subst (λ y. IsReported s y ptr) c_is r) held in
            let u_is : some (written_back b s (dispatch setup ev (world s x))) ≡ some u =
              sym handled ∙ subst (λ y. handle setup (reported y ptr ev) s ≡ some u) c_is first in
            let same : written_back b s (dispatch setup ev (world s x)) ≡ u = ground arith in
            let (k', held') =
              reported-Held s d b x k ev held fd live
                (open_before (events_of d items) ev (world s x) still') in
            rw q (
              continue items t d b (dispatch setup ev (world s x)) u k' go h.sound h.batch rest
                (subst (Held d b (slot_of (dispatch setup ev (world s x))) k') same held') still')
        | inr q ↦
            let evs_is : events_of d (reported c ptr ev ∷ items) ≡ events_of d items = rw q refl in
            let still' =
              subst (λ es. (run_events setup es (world s x)).conn.closing ≡ false) evs_is still in
            rw q (
              continue items t d b (world s x) u k go h.sound h.batch rest
                (h.held d b x k (q, tt) held) still')
      ]

  pub turn_alone : (items : List Item) (t : Server) (d : ℤ) (b : ℕ) → Continues items t d b
  unfolding server_turn run_events
  turn_alone [] t d b u x k sound batch e held still =
      let (f, l, w) = end_turn-keeps u sound d b x k held.entry held.alive held.watched in
      let same : end_turn u ≡ t = ground arith in
      (k, rw (← same) (record { entry = f; alive = l; watched = w }))
  turn_alone (reported c ptr ev ∷ items) t d b s x k sound batch e held still =
      reported_alone c ptr ev items t d b (turn_alone items t d b) s x k sound batch e held still
  turn_alone (accepted c a ∷ items) t d b s x k sound (f, o, p, batch) e held still =
      let (u, first, h) = handle-Handed setup s items sound (accepted c a) (f, o, p, batch) in
      let rest = behind (accepted c a) items s u t first e in
      let other : eq_int c d ≡ false = ground (arith, f.no_entry, held.entry, eq_int→eq c d) in
      continue items t d b (world s x) u k (turn_alone items t d b) h.sound h.batch rest
        (h.held d b x k (other, tt) held) still
  turn_alone (woken ∷ items) t d b s x k sound batch e held still =
      let (u, first, h) = handle-Handed setup s items sound woken batch in
      let rest = behind woken items s u t first e in
      continue items t d b (world s x) u k (turn_alone items t d b) h.sound h.batch rest
        (h.held d b x k tt held) still
