-- ===== src/Server/Loop/Callbacks.antt =====
-- Every connection that the server holds has the callbacks that `onNewConnection` sets.
use cs_system_lab.Prelude.{
  ℕ, ◌≡◌, subst, inl, inr, List, [], ◌∷◌, some, arith, Bool-cases, Option-cases, ◌==◌,
}
use cs_system_lab.Prelude.Heap.{destroyed-some}
use cs_system_lab.Prelude.Int.{ℤ}
use cs_system_lab.Server.Connection.{World, Setup, new_connection, dispatch}
use cs_system_lab.Server.Connection.Serving.{
  HasCallbacks, dispatch-HasCallbacks, new_connection-HasCallbacks,
}
use cs_system_lab.Server.Registry.{find_connection}
use cs_system_lab.Server.Loop.{
  Slot, Server, Item, reported, accepted, woken, world, written_back, keep_connection, admit,
  end_turn, handle, server_turn,
}
use cs_system_lab.Server.Loop.Ending.{end_turn-alive}
use cs_system_lab.Server.Loop.Safety.{Opening, open_server, Runs, begun, turned}

abbrev IsServing : Server → Type 0
IsServing s = (a : ℕ) (x : Slot) → s.store.heap a ≡ some x → HasCallbacks (world s x)

module _ (s : Server) (serving : IsServing s) where
  written_back-IsServing : (a : ℕ) (w : World) → HasCallbacks w → IsServing (written_back a s w)
  unfolding written_back
  written_back-IsServing a w h b x e = elim (Bool-cases (a == b)) [
    | inl q ↦
        (let same : w.conn ≡ x.conn = ground arith in
          record { reads = rw (← same) h.reads; writes = rw (← same) h.writes })
    | inr q ↦ (let k = serving b x (ground arith) in record { reads = k.reads; writes = k.writes })
  ]

  admit-IsServing : (fd : ℤ) (a : ℕ) → IsServing (admit fd a s)
  unfolding admit keep_connection
  admit-IsServing fd a b x e = elim (Bool-cases (a == b)) [
    | inl q ↦
        (let w = new_connection a fd s.loop s.epoll in
          let h = new_connection-HasCallbacks a fd s.loop s.epoll in
          let same : w.conn ≡ x.conn = ground arith in
          record { reads = rw (← same) h.reads; writes = rw (← same) h.writes })
    | inr q ↦
        (let was =
            destroyed-some (find_connection fd s.store.connections) s.store.heap b x
              (ground arith) in
          let k = serving b x was.0 in record { reads = k.reads; writes = k.writes })
  ]

  end_turn-IsServing : IsServing (end_turn s)
  end_turn-IsServing a x e =
      let k = serving a x (end_turn-alive s a x e) in record { reads = k.reads; writes = k.writes }

module _ (setup : Setup) where
  handle-IsServing :
      (i : Item) (s t : Server) → IsServing s → handle setup i s ≡ some t → IsServing t
  unfolding handle
  handle-IsServing (reported fd ptr ev) s t v e = elim (Option-cases (s.store.heap ptr)) [
    | inl q ↦ absurd (ground arith)
    | inr (x, q) ↦
        let done : written_back ptr s (dispatch setup ev (world s x)) ≡ t = ground arith in
        subst IsServing done (
          written_back-IsServing s v ptr (dispatch setup ev (world s x))
            (dispatch-HasCallbacks setup ev (world s x) (v ptr x q)))
  ]
  handle-IsServing (accepted fd a) s t v e =
      let done : admit fd a s ≡ t = ground arith in subst IsServing done (admit-IsServing s v fd a)
  handle-IsServing woken s t v e =
      λ b x h. (let k = v b x (ground arith) in record { reads = k.reads; writes = k.writes })

  server_turn-IsServing :
      (items : List Item) (s t : Server)
      → IsServing s
      → server_turn setup items s ≡ some t
      → IsServing t
  unfolding server_turn
  server_turn-IsServing [] s t v e =
      let done : end_turn s ≡ t = ground arith in subst IsServing done (end_turn-IsServing s v)
  server_turn-IsServing (i ∷ items) s t v e = elim (Option-cases (handle setup i s)) [
    | inl q ↦ absurd (ground arith)
    | inr (u, q) ↦ server_turn-IsServing items u t (handle-IsServing i s u v q) (ground arith)
  ]

  pub Runs-IsServing :
      (o : Opening) (s : Server)
      → Runs setup o s
      → (a : ℕ) (x : Slot) → s.store.heap a ≡ some x
      → HasCallbacks (world s x)
  unfolding open_server
  Runs-IsServing o s begun = λ a x e. absurd (cc)
  Runs-IsServing o s (turned {s = u} items run batch e) =
      server_turn-IsServing items u s (Runs-IsServing o u run) e
