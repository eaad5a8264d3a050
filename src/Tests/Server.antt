-- ===== src/Tests/Server.antt =====
-- Server/Connection at a concrete connection.
use cs_system_lab.Prelude.{ℕ, ◌≡◌, refl, true, false, List, [], ◌∷◌, ◌++◌, some, zero, suc, arith}
use cs_system_lab.Prelude.Bytes.{Bytes, codes}
use cs_system_lab.Http.Request.Render.{Message}
use cs_system_lab.Server.Connection.Watching.{Live, IsRegistered}
use cs_system_lab.Server.Connection.Registering.{dispatch-IsRegistered, new_connection-Live}
use cs_system_lab.Server.Connection.Rejecting.{bad_text, on_read-rejected}
use cs_system_lab.Prelude.Int.{ℤ, pos}
use cs_system_lab.Http.Request.{fresh, HttpRequest, keep_alive, reset}
use cs_system_lab.Http.Response.{
  HttpResponse, set_body, set_keep_alive, set_status_code, to_message,
}
use cs_system_lab.Http.Number.{decimal, decimal_int}
use cs_system_lab.Reactor.Channel.{
  handle_event, enable_reading, enable_writing, disable_writing, disable_all,
}
use cs_system_lab.Reactor.Epoll.{interest}
use cs_system_lab.Reactor.EventLoop.{EventLoop}
use cs_system_lab.Server.Connection.{
  World, Setup, Event, WriteResult, got, wrote, would_block, new_connection, send_message, on_write,
  run_events, dispatch, run_callback, on_read, after_parse, after_send, write_loop, write_round,
  finish_write, remove_connection, response_to, bad_request,
}
use cs_system_lab.Http.Request.Chunks.{run_parse}
use cs_system_lab.Server.Connection.Closing.{
  ClosedOnce, run_events-ClosedOnce, new_connection-ClosedOnce,
}
use cs_system_lab.Server.Connection.Writing.{stream}
use cs_system_lab.Server.Connection.Output.{on_writes, message_whole}

abbrev pub loop : EventLoop ℤ
loop = record { quit = false; wakeup_fd = pos 5; wakeups = 0; pending_functors = []; thread_id = 3 }

abbrev pub opened : World
opened = new_connection 9 (pos 7) loop (record { calls = [] })

abbrev pub greet : HttpRequest → HttpResponse → HttpResponse
greet r resp = set_body resp (codes "hello\n")

abbrev pub setup : Setup
setup = record { callback = some greet; iterate = λ h. h }

abbrev pub get : Message
get = record {
  method = codes "GET";
  path = codes "/";
  version = codes "HTTP/1.1";
  fields = [];
  body = [];
}

abbrev pub bye : Message
bye = record get { fields = (codes "Connection", codes "close") ∷ [] }

-- A request; then the rest of its response; then the end of the stream, twice.
abbrev ask : Event
ask = record {
  revents = 0x1;
  read = got (codes "GET / HTTP/1.1\r\n\r\n");
  write = wrote 10;
  writes = λ _. would_block;
}

abbrev flush : Event
flush = record ask { revents = 0x4; writes = λ _. wrote 50 }

abbrev hang_up : Event
hang_up = record ask { revents = 0x2001; read = got [] }

abbrev session : List Event
session = ask ∷ flush ∷ hang_up ∷ hang_up ∷ []

session_wire :
    (run_events setup session opened).wire
    ≡ codes "HTTP/1.1 200 OK\r\nContent-Length: 6\r\nConnection: keep-alive\r\n\r\nhello\n"
unfolding run_events dispatch run_callback on_read after_parse send_message after_send on_write
    write_loop write_round finish_write remove_connection response_to to_message new_connection
    run_parse keep_alive handle_event enable_reading enable_writing disable_writing disable_all
    set_body set_keep_alive reset decimal decimal_int
session_wire = refl

-- A request with a bad header, and room for a part of the answer only; then room for the rest.
abbrev spoil : Event
spoil = record ask { read = got (codes "GET / HTTP/1.1\r\nno colon\r\n\r\n") }

abbrev fill : Event
fill = record flush { writes = λ _. wrote 4096 }

-- The answer says that the connection is closed, and it stays open.
spoiled_open :
    ((run_events setup (spoil ∷ fill ∷ []) opened).wire
      ≡ codes
          "HTTP/1.1 400 Bad Request\r\nContent-Length: 12\r\nConnection: close\r\n\r\nBad Request\n")
    × ((run_events setup (spoil ∷ fill ∷ []) opened).conn.closing ≡ false)
unfolding run_events dispatch run_callback on_read after_parse send_message after_send on_write
    write_loop write_round finish_write remove_connection bad_request to_message new_connection
    run_parse keep_alive handle_event enable_reading enable_writing disable_writing set_body
    set_status_code reset decimal decimal_int
spoiled_open = (refl, refl)

-- With room for the whole answer, the connection is closed.
spoiled_closed :
    (run_events setup (record spoil { write = wrote 4096 } ∷ []) opened).conn.closing ≡ true
unfolding run_events dispatch run_callback on_read after_parse send_message after_send
    remove_connection bad_request to_message new_connection run_parse handle_event enable_reading
    disable_all set_body set_status_code decimal decimal_int
spoiled_closed = refl

-- Input on a connection whose answer is not out yet: a second answer replaces the rest of the first.
abbrev again : Event
again = record ask { read = got (codes "x"); write = would_block }

answer_torn :
    stream (run_events setup (ask ∷ again ∷ []) opened)
    ≡ codes
        "HTTP/1.1 2HTTP/1.1 200 OK\r\nContent-Length: 6\r\nConnection: keep-alive\r\n\r\nhello\n"
unfolding run_events dispatch run_callback on_read after_parse send_message after_send response_to
    to_message new_connection run_parse keep_alive handle_event enable_reading enable_writing
    set_body set_keep_alive decimal decimal_int
answer_torn = refl

run_events-ClosedOnce_example : ClosedOnce (pos 7) [] (run_events setup session opened)
run_events-ClosedOnce_example =
    run_events-ClosedOnce setup session opened (pos 7) []
      (new_connection-ClosedOnce 9 (pos 7) loop (record { calls = [] }))

-- A connection with bytes of which the first two are sent.
abbrev halfway : World
halfway = record {
  conn = record opened.conn { write_buf = codes "abcdefgh"; write_sent = 2 };
  loop = loop;
  epoll = opened.epoll;
  wire = codes "ab";
  closed = [];
}

-- Three bytes, and then the socket is full.
abbrev three : ℕ → WriteResult
three zero = wrote 3
three (suc i) = would_block

abbrev two_at_a_time : ℕ → WriteResult
two_at_a_time _ = wrote 2

message_whole_example :
    stream (
      on_writes (three ∷ two_at_a_time ∷ []) (send_message (wrote 1) true (codes "message") opened))
    ≡ codes "message"
unfolding new_connection
message_whole_example =
    message_whole (wrote 1) true (codes "message") (three ∷ two_at_a_time ∷ []) opened refl (cc)

opened-Live : Live opened
unfolding interest
opened-Live = new_connection-Live 9 (pos 7) loop (record { calls = [] }) refl tt

dispatch-IsRegistered_example : IsRegistered (dispatch setup ask opened)
dispatch-IsRegistered_example = dispatch-IsRegistered setup ask opened opened-Live

-- A request line without a blank.
abbrev nonsense : Bytes
nonsense = codes "nonsense\r\n"

nonsense_rejected : run_parse opened.conn.request nonsense ≡ (fresh, false)
unfolding run_parse new_connection
nonsense_rejected = refl

-- Ten bytes at once, and the rest when there is room.
on_read-rejected_example :
    (stream (on_writes (three ∷ []) (on_read setup (got nonsense) (wrote 10) opened))
      ≡ opened.wire ++ bad_text)
    × ((on_read setup (got nonsense) (wrote 10) opened).conn.closing ≡ false)
unfolding new_connection
on_read-rejected_example =
    on_read-rejected setup nonsense (wrote 10) (three ∷ []) opened fresh refl
      (omega arith, omega arith) nonsense_rejected refl refl
