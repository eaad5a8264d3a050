-- ===== src/Tests/Loop.antt =====
-- Server/Loop at concrete turns.
use cs_system_lab.Prelude.{ℕ, ◌≡◌, ◌≢◌, refl, true, false, List, [], ◌∷◌, none, some}
use cs_system_lab.Prelude.Bytes.{codes}
use cs_system_lab.Prelude.Int.{ℤ, pos, eq_int}
use cs_system_lab.Reactor.Epoll.{Interest, interest}
use cs_system_lab.Reactor.EventLoop.{queue_in_loop, handle_wakeup, do_pending_functors}
use cs_system_lab.Reactor.EventLoop.Lifetime.{open_loop, close_loop}
use cs_system_lab.Reactor.Channel.{enable_reading, enable_writing, disable_all, handle_event}
use cs_system_lab.Net.Acceptor.{open_acceptor, close_acceptor}
use cs_system_lab.Server.Connection.{
  World, Setup, Event, got, wrote, would_block, new_connection, dispatch, run_events, run_callback,
  on_read, after_parse, send_message, after_send, response_to, remove_connection,
}
use cs_system_lab.Http.Request.{keep_alive}
use cs_system_lab.Http.Request.Chunks.{run_parse}
use cs_system_lab.Http.Response.{to_message, set_body, set_keep_alive}
use cs_system_lab.Http.Number.{decimal, decimal_int}
use cs_system_lab.Server.Registry.{find_connection, put_connection, erase_connection}
use cs_system_lab.Server.Loop.{
  Slot, Server, Item, reported, accepted, woken, world, written_back, keep_connection,
  drop_connection, admit, end_turn, handle, server_turn,
}
use cs_system_lab.Server.Loop.Batch.{IsReported, IsBatch}
use cs_system_lab.Server.Loop.Admitting.{IsFree}
use cs_system_lab.Server.Loop.Step.{Held}
use cs_system_lab.Net.Socket.{destroy, to_close}
use cs_system_lab.Server.Loop.Alone.{slot_of}
use cs_system_lab.Server.Loop.Whole.{rest, next, server-alone}
use cs_system_lab.Server.Loop.Destroying.{destroy_all, clear_connections, destroy_server}
use cs_system_lab.Server.Loop.Safety.{
  Opening, open_server, Runs, begun, turned, Settled, server_turn-Settled,
}

abbrev pub opening : Opening
opening = record {
  wakeup_channel = 1;
  accept_channel = 2;
  thread = 3;
  eventfd = pos 5;
  socket = pos 3;
  bound = true;
  listening = true;
}

abbrev pub setup : Setup
setup = record { callback = none; iterate = λ h. h }

-- Two connections arrive.
abbrev first : List Item
first = accepted (pos 7) 20 ∷ woken ∷ accepted (pos 8) 30 ∷ []

abbrev pub s1 : Server
s1 = end_turn (admit (pos 8) 30 (admit (pos 7) 20 (open_server opening)))

abbrev ask : Event
ask = record {
  revents = 0x1;
  read = got (codes "GET / HTTP/1.1\r\n\r\n");
  write = wrote 10;
  writes = λ _. would_block;
}

abbrev pub hang_up : Event
hang_up = record ask { revents = 0x2001; read = got [] }

fd-IsFree : (fd : ℤ) (a : ℕ) → fd ≢ pos 3 → fd ≢ pos 5 → IsFree (open_server opening) fd a
unfolding open_server open_loop find_connection
fd-IsFree fd a l w = record {
  no_entry = refl;
  not_listening = l;
  not_eventfd = w;
  no_object = refl;
}

first-IsBatch : IsBatch (open_server opening) first
unfolding eq_int
first-IsBatch = (
  fd-IsFree (pos 7) 20 (λ h. absurd (cc)) (λ h. absurd (cc)),
  (refl, tt),
  (refl, tt),
  (fd-IsFree (pos 8) 30 (λ h. absurd (cc)) (λ h. absurd (cc)), tt, tt, tt),
)

first_turn : server_turn setup first (open_server opening) ≡ some s1
unfolding server_turn handle handle_wakeup open_server open_loop admit new_connection
first_turn = refl

pub run : Runs setup opening s1
run = turned first begun first-IsBatch first_turn

-- The peer of one hangs up, that of the other asks.
abbrev second : List Item
second = reported (pos 7) 20 hang_up ∷ reported (pos 8) 30 ask ∷ []

pub first-IsReported : IsReported s1 (pos 7) 20
unfolding open_server open_loop open_acceptor interest enable_reading new_connection admit end_turn
    do_pending_functors eq_int
first-IsReported = record {
  events = 1;
  registered = refl;
  not_listening = λ h. absurd (cc);
  not_eventfd = λ h. absurd (cc);
}

pub second-IsReported : IsReported s1 (pos 8) 30
unfolding open_server open_loop open_acceptor interest enable_reading new_connection admit end_turn
    do_pending_functors eq_int
second-IsReported = record {
  events = 1;
  registered = refl;
  not_listening = λ h. absurd (cc);
  not_eventfd = λ h. absurd (cc);
}

second-IsBatch : IsBatch s1 second
unfolding eq_int
second-IsBatch = (first-IsReported, (refl, tt), (second-IsReported, tt, tt))

server_turn-Settled_example : (t : Server) × (server_turn setup second s1 ≡ some t) × Settled t
server_turn-Settled_example =
    server_turn-Settled setup opening s1 second (λ h. absurd (cc)) run second-IsBatch

abbrev w8 : World
w8 = new_connection 30 (pos 8) (open_server opening).loop (open_server opening).epoll

abbrev pub slot8 : Slot
slot8 = record { conn = w8.conn; wire = [] }

abbrev pub interest8 : Interest
interest8 = record { events = 1; ptr = 30 }

pub slot8-Held : Held (pos 8) 30 slot8 interest8 s1
unfolding open_server open_loop open_acceptor interest enable_reading new_connection admit end_turn
    do_pending_functors eq_int find_connection put_connection keep_connection
slot8-Held = record { entry = refl; alive = refl; watched = refl }

abbrev pub slot7 : Slot
slot7 = record {
  conn = (new_connection 20 (pos 7) (open_server opening).loop (open_server opening).epoll).conn;
  wire = [];
}

-- The turn of Tests/Registry with all its objects: the first hangs up, and a new connection gets
-- the descriptor. It is destroyed at the end of the turn, and the epoll still holds its pointer.
abbrev reuse : List Item
reuse = reported (pos 7) 20 hang_up ∷ accepted (pos 7) 21 ∷ []

reuse_dangles :
    let t =
      end_turn (admit (pos 7) 21 (written_back 20 s1 (dispatch setup hang_up (world s1 slot7)))) in
    (server_turn setup reuse s1 ≡ some t)
    × (interest t.epoll.calls (pos 7) ≡ some (record { events = 1; ptr = 21 }))
    × (server_turn setup (reported (pos 7) 21 ask ∷ []) t ≡ none)
unfolding server_turn handle end_turn do_pending_functors admit keep_connection open_server
    find_connection put_connection erase_connection drop_connection written_back eq_int interest
    dispatch run_callback on_read remove_connection handle_event disable_all enable_reading
    new_connection open_loop open_acceptor queue_in_loop
reuse_dangles = (refl, refl, refl)

-- The server goes with two connections open: both objects are destroyed, and of the descriptors only
-- those of the server itself are closed.
abbrev gone : Server
gone =
    let (loop, epoll, channel) = open_loop {F = ℤ} 1 (pos 5) 3 (record { calls = [] }) in
    destroy_server s1 (open_acceptor 2 (pos 3) true true epoll).1 channel

descriptors_left :
    (gone.closed ≡ pos 5 ∷ pos 3 ∷ []) × (gone.store.heap 20 ≡ none) × (gone.store.heap 30 ≡ none)
unfolding destroy_server clear_connections destroy_all close_acceptor close_loop end_turn admit
    new_connection open_server open_loop destroy to_close open_acceptor keep_connection
    put_connection eq_int
descriptors_left = (refl, refl, refl)

-- The second connection asks while the first hangs up.
abbrev asked : List Event
asked = ask ∷ []

abbrev s3 : Server
s3 = end_turn (written_back 30 s2' (dispatch setup ask (world s2' slot8)))
  where
    s2' : Server
    s2' = written_back 20 s1 (dispatch setup hang_up (world s1 slot7))

second_turn : server_turn setup second s1 ≡ some s3
unfolding server_turn handle end_turn do_pending_functors admit keep_connection open_server
    find_connection new_connection open_loop put_connection eq_int written_back
second_turn = refl

still_open : (run_events setup asked (world s1 slot8)).conn.closing ≡ false
unfolding run_events dispatch run_callback on_read after_parse send_message after_send response_to
    to_message new_connection run_parse keep_alive handle_event enable_reading enable_writing
    set_body set_keep_alive decimal decimal_int
still_open = refl

server-alone_example :
    (j : Interest) × Held (pos 8) 30 (slot_of (run_events setup asked (world s1 slot8))) j s3
unfolding eq_int
server-alone_example =
    server-alone setup opening (second ∷ []) s1 s3 (pos 8) 30 slot8 interest8 (λ h. absurd (cc)) run
      (next second second-IsBatch second_turn rest) slot8-Held still_open
