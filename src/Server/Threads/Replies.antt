-- ===== src/Server/Threads/Replies.antt =====
-- The exchanges of one client with the server on the loops of several threads.
use cs_system_lab.Prelude.{
  ℕ, ◌≡◌, ap, ◌∙◌, subst, false, inl, inr, List, ◌++◌, some, arith, All, Bool-cases, ◌==◌,
}
use cs_system_lab.Prelude.Bytes.{Bytes}
use cs_system_lab.Prelude.Int.{ℤ}
use cs_system_lab.Server.Connection.{World, Setup, new_connection, dispatch, run_events}
use cs_system_lab.Server.Connection.Answer.{IsIdle}
use cs_system_lab.Server.Connection.Exchange.{Turn, IsKept, replies}
use cs_system_lab.Server.Connection.Serving.{
  HasCallbacks, dispatch-HasCallbacks, new_connection-HasCallbacks, turns_events, turns_events_lem,
}
use cs_system_lab.Server.Loop.{Slot}
use cs_system_lab.Server.Loop.Alone.{slot_of}
use cs_system_lab.Server.Threads.{Reach, begins, IsUnmapped}
use cs_system_lab.Server.Threads.Objects.{
  Memory, nothing_made, Surroundings, world_in, with_object, Act, Move, accepts, makes, stores,
  handles, removes, closes, queues, erases, Moves, rest, next, events_on, Serves,
}
use cs_system_lab.Server.Threads.Alone.{Move-Reach, Moves-Serves}

-- Every object has the callbacks that `onNewConnection` sets.
abbrev pub IsServing : Memory → Type 0
IsServing m =
    (e : Surroundings) (a : ℕ) (x : Slot) → m.objects a ≡ some x → HasCallbacks (world_in e x)

with_object-IsServing :
    (a : ℕ) (w : World) (m : Memory) → HasCallbacks w → IsServing m → IsServing (with_object a w m)
with_object-IsServing a w m h serving e b x o = elim (Bool-cases (a == b)) [
  | inl q ↦
      (let same : w.conn ≡ x.conn = ground arith in
        record { reads = rw (← same) h.reads; writes = rw (← same) h.writes })
  | inr q ↦ serving e b x (ground arith)
]

module _ (setup : Setup) where
  Move-IsServing : {act : Act} {m n : Memory} → Move setup m act n → IsServing m → IsServing n
  Move-IsServing (accepts fd l h u) v = v
  Move-IsServing {m = m} (makes l fd a fs e i q h) v =
      with_object-IsServing a (new_connection a fd e.loop e.epoll) m
        (new_connection-HasCallbacks a fd e.loop e.epoll) v
  Move-IsServing (stores l fd a i) v = v
  Move-IsServing {m = m} (handles l fd a x ev e i w o c) v =
      with_object-IsServing a (dispatch setup ev (world_in e x)) m
        (dispatch-HasCallbacks setup ev (world_in e x) (v e a x o)) v
  Move-IsServing {m = m} (removes l fd a x ev e i w o c) v =
      with_object-IsServing a (dispatch setup ev (world_in e x)) m
        (dispatch-HasCallbacks setup ev (world_in e x) (v e a x o)) v
  Move-IsServing (closes l fd a i) v = v
  Move-IsServing (queues l fd a i) v = v
  Move-IsServing (erases l fd fs i q) v = v

  -- What holds of the server at any time.
  pub Moves-keeps :
      {acts : List Act} {m n : Memory}
      → Moves setup acts m n
      → Reach IsUnmapped m.system × IsServing m
      → Reach IsUnmapped n.system × IsServing n
  Moves-keeps rest v = v
  Moves-keeps (next act move more) (r, v) =
      Moves-keeps more (Move-Reach setup move r, Move-IsServing move v)

  pub begun-keeps : Reach IsUnmapped nothing_made.system × IsServing nothing_made
  begun-keeps = (begins, λ e a x o. absurd (cc))

-- The epoll of the loop points at the connection, which is idle, and these bytes have been written to
-- its socket.
pub record Answers (l : ℕ) (fd : ℤ) (a : ℕ) (m : Memory) (wire : Bytes) : Type 0 where
  pub slot : Slot
  pub serves : Serves l fd a slot m
  pub written : slot.wire ≡ wire
  pub idle : (e : Surroundings) → IsIdle (world_in e slot)

-- Provided that no descriptor is accepted that is still in the map, and whatever the threads have
-- done before and do now, in whatever order: a connection that the epoll of a loop points at becomes
-- what the events handled of its descriptor make of it one after the other with nothing else around
-- it, in its parser, its buffers, its channel and the bytes written, as long as these leave it open;
-- and the epoll points at it still.
pub threads-alone :
    (setup : Setup) (e : Surroundings) (before acts : List Act) (m n : Memory) (l : ℕ) (fd : ℤ)
    (a : ℕ) (x : Slot)
    → Moves setup before nothing_made m
    → Moves setup acts m n
    → Serves l fd a x m
    → (run_events setup (events_on fd acts) (world_in e x)).conn.closing ≡ false
    → Serves l fd a (slot_of (run_events setup (events_on fd acts) (world_in e x))) n
threads-alone setup e before acts m n l fd a x begun moves v yet =
    Moves-Serves setup e l fd a x (Moves-keeps setup begun (begun-keeps setup)).0 moves v yet

-- On the loops of several threads, as for `threads-alone`: a client whose connection is watched and
-- idle writes requests as in `feed-render`, of at most 64 KB, that want the connection kept, the next
-- one when it has the answer to the last, however cut into reads; no first write of an answer fails,
-- and each later one takes a byte at least. If the events that the loops handle of its descriptor are
-- those that this makes, whatever the threads do in between, then the connection is watched, idle
-- again, and what was written to its socket since is, whole and in order, for each request the
-- response that `exchanges-Answered` tells.
pub threads_replies :
    (setup : Setup) (e : Surroundings) (before acts : List Act) (m n : Memory) (l : ℕ) (fd : ℤ)
    (a : ℕ) (x : Slot) (ts : List Turn)
    → Moves setup before nothing_made m
    → Moves setup acts m n
    → Serves l fd a x m
    → IsIdle (world_in e x)
    → All (IsKept setup) ts
    → events_on fd acts ≡ turns_events setup ts (world_in e x)
    → Answers l fd a n (x.wire ++ replies setup ts)
threads_replies setup e before acts m n l fd a x ts begun moves v idle kept events =
    let (r, serving) = Moves-keeps setup begun (begun-keeps setup) in
    let (wire, j) = turns_events_lem setup ts (world_in e x) kept idle (serving e a x v.content) in
    let w = run_events setup (turns_events setup ts (world_in e x)) (world_in e x) in
    let same : run_events setup (events_on fd acts) (world_in e x) ≡ w =
      ap (λ es. run_events setup es (world_in e x)) events in
    let served =
      Moves-Serves setup e l fd a x r moves v
        (ap (λ (y : World). y.conn.closing) same ∙ j.open_yet) in
    record {
      slot = slot_of w;
      serves = subst (λ y. Serves l fd a (slot_of y) n) same served;
      written = wire;
      idle = λ k. record {
        no_request = j.no_request;
        nothing_waits = j.nothing_waits;
        nothing_sent = j.nothing_sent;
        open_yet = j.open_yet;
      };
    }
