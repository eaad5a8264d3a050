-- ===== src/Server/Loop/Replies.antt =====
-- The exchanges of one client with the whole server.
use cs_system_lab.Prelude.{ℕ, ◌≡◌, ◌≢◌, ap, ◌∙◌, subst, List, ◌++◌, All}
use cs_system_lab.Prelude.Bytes.{Bytes}
use cs_system_lab.Prelude.Int.{ℤ}
use cs_system_lab.Reactor.Epoll.{Interest}
use cs_system_lab.Server.Connection.{World, Setup, run_events}
use cs_system_lab.Server.Connection.Answer.{IsIdle}
use cs_system_lab.Server.Connection.Exchange.{Turn, IsKept, replies}
use cs_system_lab.Server.Connection.Serving.{turns_events, turns_events_lem}
use cs_system_lab.Server.Loop.{Slot, Server, Item, world}
use cs_system_lab.Server.Loop.Callbacks.{Runs-IsServing}
use cs_system_lab.Server.Loop.Step.{Held}
use cs_system_lab.Server.Loop.Safety.{Opening, Runs}
use cs_system_lab.Server.Loop.Alone.{slot_of}
use cs_system_lab.Server.Loop.Whole.{Turns, all_events_of, server-alone}

-- The server holds the connection, which is idle, and these bytes have been written to its socket.
pub record Replied (fd : ℤ) (a : ℕ) (s : Server) (wire : Bytes) : Type 0 where
  pub slot : Slot
  pub interest : Interest
  pub held : Held fd a slot interest s
  pub written : slot.wire ≡ wire
  pub idle : IsIdle (world s slot)

-- Where the listening socket is not the eventfd, and over turns as for `server_turn-Settled`: a
-- client whose connection is held and idle writes requests as in `feed-render`, of at most 64 KB,
-- that want the connection kept, the next one when it has the answer to the last, however cut into
-- reads; no first write of an answer fails, and each later one takes a byte at least. If the kernel
-- reports of its descriptor just the events that this makes, whatever it reports of the others in
-- between, then the server behind these turns holds the connection, idle again, and what it wrote to
-- the socket since is, whole and in order, for each request the response that `exchanges-Answered`
-- tells.
pub server_replies :
    (setup : Setup) (o : Opening) (batches : List (List Item)) (s t : Server) (fd : ℤ) (a : ℕ)
    (slot : Slot) (i : Interest) (ts : List Turn)
    → o.socket ≢ o.eventfd
    → Runs setup o s
    → Turns setup batches s t
    → Held fd a slot i s
    → IsIdle (world s slot)
    → All (IsKept setup) ts
    → all_events_of fd batches ≡ turns_events setup ts (world s slot)
    → Replied fd a t (slot.wire ++ replies setup ts)
server_replies setup o batches s t fd a slot i ts apart runs turns held idle kept events =
    let h = Runs-IsServing setup o s runs a slot held.alive in
    let (wire, j) = turns_events_lem setup ts (world s slot) kept idle h in
    let w = run_events setup (turns_events setup ts (world s slot)) (world s slot) in
    let same : run_events setup (all_events_of fd batches) (world s slot) ≡ w =
      ap (λ es. run_events setup es (world s slot)) events in
    let (k, held') =
      server-alone setup o batches s t fd a slot i apart runs turns held
        (ap (λ (x : World). x.conn.closing) same ∙ j.open_yet) in
    record {
      slot = slot_of w;
      interest = k;
      held = subst (λ x. Held fd a (slot_of x) k t) same held';
      written = wire;
      idle = record {
        no_request = j.no_request;
        nothing_waits = j.nothing_waits;
        nothing_sent = j.nothing_sent;
        open_yet = j.open_yet;
      };
    }
