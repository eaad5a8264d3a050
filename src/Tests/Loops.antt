-- ===== src/Tests/Loops.antt =====
-- Server/Threads/Replies and Server/Hello/Pages at a concrete interleaving.
use cs_system_lab.Prelude.{◌≡◌, refl, true, false, List, [], ◌∷◌, ◌++◌}
use cs_system_lab.Prelude.Bytes.{eq_bytes}
use cs_system_lab.Prelude.Map.{insert}
use cs_system_lab.Prelude.Int.{pos, eq_int}
use cs_system_lab.Reactor.Channel.{
  enable_reading, enable_writing, disable_writing, disable_all, handle_event,
}
use cs_system_lab.Http.Request.{keep_alive}
use cs_system_lab.Http.Request.Chunks.{run_parse}
use cs_system_lab.Http.Request.Render.{render}
use cs_system_lab.Http.Response.{
  to_message, set_body, set_keep_alive, set_status_code, set_content_type,
}
use cs_system_lab.Http.Number.{decimal, decimal_int}
use cs_system_lab.Server.Connection.{
  World, Event, got, remove_connection, new_connection, dispatch, run_events, run_callback, on_read,
  on_write, after_parse, send_message, after_send, write_loop, write_round, finish_write,
  response_to,
}
use cs_system_lab.Server.Connection.Answer.{IsIdle}
use cs_system_lab.Server.Connection.Exchange.{replies}
use cs_system_lab.Server.Connection.Serving.{turn_events, turns_events}
use cs_system_lab.Server.Loop.{Slot}
use cs_system_lab.Server.Loop.Alone.{slot_of}
use cs_system_lab.Server.Threads.{
  nothing_yet, hand_over, make_connection, store_connection, begin_remove,
}
use cs_system_lab.Server.Threads.Objects.{
  Memory, nothing_made, Surroundings, world_in, with_object, with_system, Act, silent, handled,
  Move, Moves, accepts, makes, stores, handles, removes, rest, next, events_on, Serves,
}
use cs_system_lab.Server.Threads.Closing.{Closed, threads-Closed}
use cs_system_lab.Server.Threads.Replies.{threads-alone, Answers, threads_replies}
use cs_system_lab.Server.Hello.{hello, hello_setup}
use cs_system_lab.Server.Hello.Pages.{asked, Paged, hello_pages}
use cs_system_lab.Tests.Exchange.{first_turn, first_turn-IsTurn, get_kept}
use cs_system_lab.Tests.Replies.{read1, read2, write}

abbrev around : Surroundings
around = record {
  loop = record {
    quit = false;
    wakeup_fd = pos 5;
    wakeups = 0;
    pending_functors = [];
    thread_id = 3;
  };
  epoll = record { calls = [] };
}

abbrev born : World
born = new_connection 20 (pos 7) around.loop around.epoll

-- A connection is made on loop 4.
abbrev made : Memory
made =
    with_system (make_connection 4 (pos 7) 20 [] (hand_over (pos 7) 4 nothing_yet))
      (with_object 20 born (with_system (hand_over (pos 7) 4 nothing_yet) nothing_made))

abbrev stored : Memory
stored = with_system (store_connection 4 (pos 7) 20 made.system) made

before : Moves hello_setup (silent ∷ silent ∷ silent ∷ []) nothing_made stored
unfolding hand_over make_connection store_connection eq_int
before = next silent (accepts (pos 7) 4 refl refl) (
    next silent (makes 4 (pos 7) 20 [] around refl refl refl)
      (next silent (stores 4 (pos 7) 20 refl) rest))

abbrev x0 : Slot
x0 = slot_of born

abbrev w1 : World
w1 = dispatch hello_setup read1 (world_in around x0)

abbrev w2 : World
w2 = dispatch hello_setup read2 (world_in around (slot_of w1))

abbrev w3 : World
w3 = dispatch hello_setup write (world_in around (slot_of w2))

-- Between its events another connection is accepted for loop 5 and made there.
abbrev m1 : Memory
m1 = with_object 20 w1 stored

abbrev m2 : Memory
m2 = with_system (hand_over (pos 8) 5 m1.system) m1

abbrev m3 : Memory
m3 = with_object 20 w2 m2

abbrev m4 : Memory
m4 =
    with_system (make_connection 5 (pos 8) 21 [] m3.system)
      (with_object 21 (new_connection 21 (pos 8) around.loop around.epoll) m3)

abbrev m5 : Memory
m5 = with_object 20 w3 m4

abbrev acts : List Act
acts = handled (pos 7) read1 ∷ silent ∷ handled (pos 7) read2 ∷ silent ∷ handled (pos 7) write ∷ []

open_1 : w1.conn.closing ≡ false
unfolding dispatch run_callback on_read after_parse send_message after_send response_to to_message
    new_connection run_parse keep_alive handle_event enable_reading enable_writing set_body
    set_keep_alive hello set_status_code set_content_type eq_bytes insert decimal decimal_int render
open_1 = refl

open_2 : w2.conn.closing ≡ false
unfolding dispatch run_callback on_read after_parse send_message after_send response_to to_message
    new_connection run_parse keep_alive handle_event enable_reading enable_writing set_body
    set_keep_alive hello set_status_code set_content_type eq_bytes insert decimal decimal_int render
open_2 = refl

open_3 : w3.conn.closing ≡ false
unfolding dispatch run_callback on_read after_parse send_message after_send response_to to_message
    new_connection run_parse keep_alive handle_event enable_reading enable_writing set_body
    set_keep_alive hello set_status_code set_content_type eq_bytes insert decimal decimal_int render
    on_write write_loop write_round finish_write
open_3 = refl

moves : Moves hello_setup acts stored m5
unfolding hand_over make_connection store_connection eq_int
moves = next (handled (pos 7) read1) (handles 4 (pos 7) 20 x0 read1 around refl refl refl open_1) (
    next silent (accepts (pos 8) 5 refl refl) (
      next (handled (pos 7) read2)
        (handles 4 (pos 7) 20 (slot_of w1) read2 around refl refl refl open_2)
        (next silent (makes 5 (pos 8) 21 [] around refl refl refl) (
          next (handled (pos 7) write)
            (handles 4 (pos 7) 20 (slot_of w2) write around refl refl refl open_3) rest))))

x0-Serves : Serves 4 (pos 7) 20 x0 stored
unfolding hand_over make_connection store_connection eq_int
x0-Serves = record { watched = refl; content = refl }

x0-IsIdle : IsIdle (world_in around x0)
unfolding new_connection enable_reading
x0-IsIdle = record { no_request = refl; nothing_waits = refl; nothing_sent = refl; open_yet = refl }

events_are :
    events_on (pos 7) acts ≡ turns_events hello_setup (first_turn ∷ []) (world_in around x0)
unfolding eq_int turns_events turn_events run_events dispatch run_callback on_read after_parse
    send_message after_send response_to to_message new_connection run_parse keep_alive handle_event
    enable_reading enable_writing set_body set_keep_alive hello set_status_code set_content_type
    eq_bytes insert decimal decimal_int render
events_are = refl

threads_replies_example : Answers 4 (pos 7) 20 m5 (replies hello_setup (first_turn ∷ []))
unfolding to_message new_connection
threads_replies_example =
    threads_replies hello_setup around (silent ∷ silent ∷ silent ∷ []) acts stored m5 4 (pos 7) 20
      x0 (first_turn ∷ []) before moves x0-Serves x0-IsIdle ((first_turn-IsTurn, get_kept), tt)
      events_are

still_open :
    (run_events hello_setup (events_on (pos 7) acts) (world_in around x0)).conn.closing ≡ false
unfolding eq_int run_events dispatch run_callback on_read after_parse send_message after_send
    response_to to_message new_connection run_parse keep_alive handle_event enable_reading
    enable_writing set_body set_keep_alive hello set_status_code set_content_type eq_bytes insert
    decimal decimal_int render on_write write_loop write_round finish_write
still_open = refl

threads-alone_example :
    Serves 4
      (pos 7)
      20
      (slot_of (run_events hello_setup (events_on (pos 7) acts) (world_in around x0)))
      m5
threads-alone_example =
    threads-alone hello_setup around (silent ∷ silent ∷ silent ∷ []) acts stored m5 4 (pos 7) 20 x0
      before moves x0-Serves still_open

hello_pages_example : Paged 4 (pos 7) 20 x0 m5 (asked (first_turn ∷ []))
hello_pages_example =
    hello_pages around (silent ∷ silent ∷ silent ∷ []) acts stored m5 4 (pos 7) 20 x0
      (first_turn ∷ []) before moves x0-Serves x0-IsIdle ((first_turn-IsTurn, get_kept), tt)
      events_are

-- The client hangs up.
abbrev hang_up : Event
hang_up = record read1 { read = got [] }

abbrev w4 : World
w4 = dispatch hello_setup hang_up (world_in around (slot_of w3))

shut_4 : w4.conn.closing ≡ true
unfolding eq_int run_events dispatch run_callback on_read after_parse send_message after_send
    response_to to_message new_connection run_parse keep_alive handle_event enable_reading
    enable_writing disable_writing disable_all set_body set_keep_alive hello set_status_code
    set_content_type eq_bytes insert decimal decimal_int render on_write write_loop write_round
    finish_write remove_connection
shut_4 = refl

abbrev m6 : Memory
m6 = with_system (begin_remove 4 (pos 7) 20 m5.system) (with_object 20 w4 m5)

last : Move hello_setup m5 (handled (pos 7) hang_up) m6
unfolding hand_over make_connection store_connection eq_int
last = removes 4 (pos 7) 20 (slot_of w3) hang_up around refl refl refl shut_4

all_shut :
    (run_events hello_setup
      (events_on (pos 7) acts ++ hang_up ∷ [])
      (world_in around x0)).conn.closing
    ≡ true
unfolding eq_int run_events dispatch run_callback on_read after_parse send_message after_send
    response_to to_message new_connection run_parse keep_alive handle_event enable_reading
    enable_writing disable_writing disable_all set_body set_keep_alive hello set_status_code
    set_content_type eq_bytes insert decimal decimal_int render on_write write_loop write_round
    finish_write remove_connection
all_shut = refl

threads-Closed_example :
    Closed 4
      (pos 7)
      20
      (slot_of
        (run_events hello_setup (events_on (pos 7) acts ++ hang_up ∷ []) (world_in around x0)))
      m6
threads-Closed_example =
    threads-Closed hello_setup around (silent ∷ silent ∷ silent ∷ []) acts hang_up stored m5 m6 4
      (pos 7) 20 x0 before moves last x0-Serves still_open all_shut
