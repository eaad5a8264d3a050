-- ===== src/Tests/Replies.antt =====
-- Server/Loop/Replies at concrete turns.
use cs_system_lab.Prelude.{◌≡◌, ◌≢◌, refl, List, [], ◌∷◌, drop, some}
use cs_system_lab.Prelude.Int.{pos, eq_int}
use cs_system_lab.Reactor.Epoll.{interest}
use cs_system_lab.Reactor.EventLoop.{do_pending_functors, queue_in_loop}
use cs_system_lab.Reactor.EventLoop.Lifetime.{open_loop}
use cs_system_lab.Reactor.Channel.{enable_reading, enable_writing, disable_all, handle_event}
use cs_system_lab.Net.Acceptor.{open_acceptor}
use cs_system_lab.Http.Request.{keep_alive}
use cs_system_lab.Http.Request.Chunks.{run_parse}
use cs_system_lab.Http.Request.Render.{render}
use cs_system_lab.Http.Response.{to_message, set_body, set_keep_alive}
use cs_system_lab.Http.Number.{decimal, decimal_int}
use cs_system_lab.Server.Connection.{
  World, Event, new_connection, dispatch, run_events, run_callback, on_read, got, would_block,
  after_parse, send_message, after_send, response_to, remove_connection,
}
use cs_system_lab.Server.Connection.Answer.{IsIdle}
use cs_system_lab.Server.Connection.Exchange.{replies}
use cs_system_lab.Server.Connection.Serving.{read_event, turn_events, turns_events}
use cs_system_lab.Server.Registry.{find_connection, put_connection}
use cs_system_lab.Server.Loop.{
  Server, Item, reported, world, written_back, keep_connection, drop_connection, admit, end_turn,
  handle, server_turn,
}
use cs_system_lab.Server.Loop.Batch.{IsReported, IsBatch}
use cs_system_lab.Server.Loop.Alone.{slot_of}
use cs_system_lab.Server.Loop.Safety.{open_server}
use cs_system_lab.Server.Loop.Whole.{Turns, rest, next, all_events_of}
use cs_system_lab.Server.Loop.Replies.{Replied, server_replies}
use cs_system_lab.Tests.Server.{get}
use cs_system_lab.Tests.Exchange.{first_turn, first_turn-IsTurn, get_kept}
use cs_system_lab.Tests.Loop.{
  opening, setup, s1, hang_up, run, slot8, slot7, interest8, slot8-Held, first-IsReported,
  second-IsReported,
}

abbrev pub read1 : Event
read1 = read_event first_turn.answer first_turn.first_read

abbrev pub read2 : Event
read2 = read_event first_turn.answer (drop 10 (render get []))

abbrev pub write : Event
write = record read1 {
  revents = 0x4;
  read = got [];
  write = would_block;
  writes = first_turn.answers;
}

-- The request comes in two turns, in the first of which the other client hangs up, and the socket
-- takes the rest of the answer in the third.
abbrev batch1 : List Item
batch1 = reported (pos 7) 20 hang_up ∷ reported (pos 8) 30 read1 ∷ []

abbrev batch2 : List Item
batch2 = reported (pos 8) 30 read2 ∷ []

abbrev batch3 : List Item
batch3 = reported (pos 8) 30 write ∷ []

abbrev left : Server
left = written_back 20 s1 (dispatch setup hang_up (world s1 slot7))

-- The connection's slot, and the server, behind each turn.
abbrev x1 : World
x1 = dispatch setup read1 (world left slot8)

abbrev t1 : Server
t1 = end_turn (written_back 30 left x1)

abbrev x2 : World
x2 = dispatch setup read2 (world t1 (slot_of x1))

abbrev t2 : Server
t2 = end_turn (written_back 30 t1 x2)

abbrev x3 : World
x3 = dispatch setup write (world t2 (slot_of x2))

abbrev t3 : Server
t3 = end_turn (written_back 30 t2 x3)

batch1-IsBatch : IsBatch s1 batch1
unfolding eq_int
batch1-IsBatch = (first-IsReported, (refl, tt), (second-IsReported, tt, tt))

turn1 : server_turn setup batch1 s1 ≡ some t1
unfolding server_turn handle end_turn do_pending_functors admit keep_connection open_server
    find_connection new_connection open_loop put_connection eq_int written_back
turn1 = refl

events_are :
    all_events_of (pos 8) (batch1 ∷ batch2 ∷ batch3 ∷ [])
    ≡ turns_events setup (first_turn ∷ []) (world s1 slot8)
unfolding eq_int turns_events turn_events run_events dispatch run_callback on_read after_parse
    send_message after_send response_to to_message new_connection run_parse keep_alive handle_event
    enable_reading enable_writing set_body set_keep_alive decimal decimal_int render queue_in_loop
events_are = refl

turn2 : server_turn setup batch2 t1 ≡ some t2
unfolding server_turn handle end_turn do_pending_functors admit keep_connection open_server
    find_connection new_connection open_loop put_connection eq_int written_back dispatch
    run_callback on_read remove_connection handle_event disable_all enable_reading after_parse
    run_parse open_acceptor render queue_in_loop drop_connection
turn2 = refl

turn3 : server_turn setup batch3 t2 ≡ some t3
unfolding server_turn handle end_turn do_pending_functors admit keep_connection open_server
    find_connection new_connection open_loop put_connection eq_int written_back dispatch
    run_callback on_read remove_connection handle_event disable_all enable_reading after_parse
    run_parse open_acceptor render decimal send_message after_send to_message decimal_int
    response_to set_keep_alive set_body keep_alive queue_in_loop
turn3 = refl

eight_not_three : pos 8 ≢ pos 3
eight_not_three h = absurd (cc)

eight_not_five : pos 8 ≢ pos 5
eight_not_five h = absurd (cc)

t1-IsReported : IsReported t1 (pos 8) 30
unfolding open_server open_loop open_acceptor interest enable_reading new_connection admit end_turn
    do_pending_functors eq_int written_back dispatch run_callback on_read remove_connection
    handle_event disable_all after_parse run_parse render queue_in_loop
t1-IsReported = record {
  events = 1;
  registered = refl;
  not_listening = eight_not_three;
  not_eventfd = eight_not_five;
}

t2-IsReported : IsReported t2 (pos 8) 30
unfolding open_server open_loop open_acceptor interest enable_reading enable_writing new_connection
    admit end_turn do_pending_functors eq_int written_back dispatch run_callback on_read
    remove_connection handle_event disable_all after_parse run_parse send_message after_send
    response_to to_message keep_alive set_body set_keep_alive decimal decimal_int render
    queue_in_loop
t2-IsReported = record {
  events = 5;
  registered = refl;
  not_listening = eight_not_three;
  not_eventfd = eight_not_five;
}

slot8-IsIdle : IsIdle (world s1 slot8)
unfolding new_connection enable_reading
slot8-IsIdle = record {
  no_request = refl;
  nothing_waits = refl;
  nothing_sent = refl;
  open_yet = refl;
}

turns : Turns setup (batch1 ∷ batch2 ∷ batch3 ∷ []) s1 t3
turns =
    next batch1 batch1-IsBatch turn1
      (next batch2 (t1-IsReported, tt, tt) turn2 (next batch3 (t2-IsReported, tt, tt) turn3 rest))

server_replies_example : Replied (pos 8) 30 t3 (replies setup (first_turn ∷ []))
unfolding eq_int
server_replies_example =
    server_replies setup opening (batch1 ∷ batch2 ∷ batch3 ∷ []) s1 t3 (pos 8) 30 slot8 interest8
      (first_turn ∷ []) (λ h. absurd (cc)) run turns slot8-Held slot8-IsIdle
      ((first_turn-IsTurn, get_kept), tt) events_are
