-- ===== src/Server/Loop/Turn.antt =====
-- Turns of the loop of the server.
use cs_system_lab.Prelude.{ℕ, ◌≡◌, refl, List, [], ◌∷◌, some}
use cs_system_lab.Prelude.Int.{ℤ}
use cs_system_lab.Reactor.Epoll.{Interest}
use cs_system_lab.Server.Connection.{Setup}
use cs_system_lab.Server.Loop.{Slot, Server, Item, reported, accepted, woken, end_turn, server_turn}
use cs_system_lab.Server.Loop.Sound.{Sound}
use cs_system_lab.Server.Loop.Ending.{end_turn-Sound, end_turn-keeps}
use cs_system_lab.Server.Loop.Batch.{Omits, IsBatch}
use cs_system_lab.Server.Loop.Step.{Held, handle-Handed}

-- What there is at the end of a turn.
pub record Turned (items : List Item) (s t : Server) : Type 0 where
  pub sound : Sound t
  pub none_queued : t.loop.pending_functors ≡ []
  pub held :
      (d : ℤ) (b : ℕ) (x : Slot) (k : Interest) → Omits d items → Held d b x k s → Held d b x k t

Omits-head :
    (d : ℤ) (i : Item) (items : List Item) → Omits d (i ∷ items) → Omits d (i ∷ []) × Omits d items
Omits-head d (reported fd ptr ev) items (n, o) = ((n, tt), o)
Omits-head d (accepted fd a) items (n, o) = ((n, tt), o)
Omits-head d woken items o = (tt, o)

pub server_turn-Turned :
    (setup : Setup) (items : List Item) (s : Server)
    → Sound s
    → IsBatch s items
    → (t : Server) × (server_turn setup items s ≡ some t) × Turned items s t
unfolding server_turn
server_turn-Turned setup [] s sound batch =
    let (ends, empty) = end_turn-Sound s sound in
    (
      end_turn s,
      refl,
      record {
        sound = ends;
        none_queued = empty;
        held = λ d b x k o h.
            let (e, l, w) = end_turn-keeps s sound d b x k h.entry h.alive h.watched in
            record { entry = e; alive = l; watched = w };
      },
    )
server_turn-Turned setup (i ∷ items) s sound batch =
    let (u, first, h) = handle-Handed setup s items sound i batch in
    let (t, rest, r) = server_turn-Turned setup items u h.sound h.batch in
    (
      t,
      rw first rest,
      record {
        sound = r.sound;
        none_queued = r.none_queued;
        held = λ d b x k o at.
            let (one, more) = Omits-head d i items o in r.held d b x k more (h.held d b x k one at);
      },
    )
