-- ===== src/Server/Connection.antt =====
-- HttpServer: one connection, on the thread of its loop. `Connection` is the record of
-- HttpServer.h; a `World` holds it with what its handlers act on: the loop, its epoll, the bytes
-- written to the socket and the descriptors closed. A handler takes the answers of the system calls
-- as arguments and returns the world after it.
pub mod Preserving
pub mod Sharing
pub mod Alone
pub mod Closing
pub mod Watching
pub mod Registering
pub mod Writing
pub mod Output
pub mod Partial
pub mod Answer
pub mod Rejecting
pub mod Exchange
pub mod Serving
use mathlib.Core.Option
use cs_system_lab.Prelude.{
  ℕ, zero, suc, ◌+◌, ◌-◌, min, Bool, true, false, not, ◌&&◌, List, [], ◌∷◌, ◌++◌, Option, none,
  some, length, take, drop, ltb, leb, ◌==◌, if◌then◌else◌,
}
use cs_system_lab.Prelude.Bytes.{Bytes, codes}
use cs_system_lab.Prelude.Int.{ℤ, pos}
use cs_system_lab.Prelude.Map.{Headers}
use cs_system_lab.Http.Request.{HttpRequest, fresh, reset, has_got_all, keep_alive}
use cs_system_lab.Http.Request.Chunks.{run_parse}
use cs_system_lab.Http.Response.{
  HttpResponse, initial, set_status_code, set_body, set_keep_alive, to_message,
}
use cs_system_lab.Reactor.Epoll.{Epoll}
use cs_system_lab.Reactor.Channel
use cs_system_lab.Reactor.Channel.{
  Channel, enable_reading, enable_writing, disable_writing, disable_all, handle_event,
}
use cs_system_lab.Reactor.EventLoop.{EventLoop, queue_in_loop}

-- The callbacks that `onNewConnection` sets; each calls the handler of that name.
pub data Callback : Type 0 where
  on_read_callback on_write_callback on_close_callback : Callback

pub record Connection : Type 0 where
  pub channel : Channel Callback
  pub request : HttpRequest
  pub write_buf : Bytes
  pub write_sent : ℕ
  pub closing : Bool

-- A functor of the loop is the descriptor that it erases from `connections_`.
pub record World : Type 0 where
  pub conn : Connection
  pub loop : EventLoop ℤ
  pub epoll : Epoll
  pub wire : Bytes
  pub closed : List ℤ

-- The answer to `read`: bytes, none at the end of the stream, or a failure.
pub data ReadResult : Type 0 where
  got : Bytes → ReadResult
  read_failed : ReadResult

-- The answer to `write`: it takes so many of the bytes that it was offered, or fails with EAGAIN
-- (on Linux the same as EWOULDBLOCK) or otherwise.
pub data WriteResult : Type 0 where
  wrote : ℕ → WriteResult
  would_block : WriteResult
  write_failed : WriteResult

abbrev pub buffer_size : ℕ
buffer_size = 4096

-- The connection that `onNewConnection` makes in the thread of the loop.
unfoldable pub new_connection : ℕ → ℤ → EventLoop ℤ → Epoll → World
new_connection self fd loop epoll =
    let channel : Channel Callback = record (Channel.make self fd) {
      read_callback = some on_read_callback;
      write_callback = some on_write_callback;
      close_callback = some on_close_callback;
    } in
    let (epoll', channel') = enable_reading epoll channel in
    record {
      conn = record {
        channel = channel';
        request = fresh;
        write_buf = [];
        write_sent = 0;
        closing = false;
      };
      loop = loop;
      epoll = epoll';
      wire = [];
      closed = [];
    }

-- `removeConnection`
unfoldable pub remove_connection : World → World
remove_connection w =
    if w.conn.closing
    then w
    else (let (epoll, channel) = disable_all w.epoll w.conn.channel in
        record w {
          conn = record w.conn { closing = true; channel = channel };
          epoll = epoll;
          closed = w.conn.channel.fd ∷ w.closed;
          loop = queue_in_loop w.loop w.conn.channel.fd;
        })

-- Some bytes went out.
abbrev pub put : World → Bytes → World
put w bytes = record w { wire = w.wire ++ bytes }

abbrev pub with_request : World → HttpRequest → World
with_request w r = record w { conn = record w.conn { request = r } }

-- `sendResponse` behind its `write`, of which `sent` bytes went out.
unfoldable pub after_send : World → Bool → Bytes → ℕ → World
after_send w keep msg sent =
    if ltb sent (length msg)
    then (let (epoll, channel) = enable_writing w.epoll w.conn.channel in
        record w {
          conn = record w.conn { write_buf = drop sent msg; write_sent = 0; channel = channel };
          epoll = epoll;
          wire = w.wire ++ take sent msg;
        })
    else (let w' : World = put w (take sent msg) in
        if keep then with_request w' (reset w'.conn.request) else remove_connection w')

-- `sendResponse`, for the message of a response.
unfoldable pub send_message : WriteResult → Bool → Bytes → World → World
send_message (wrote n) keep msg w = after_send w keep msg (min n (length msg))
send_message would_block keep msg w = after_send w keep msg 0
send_message write_failed keep msg w = remove_connection w

-- One round of the write loop of `onWrite`, with `remaining` bytes to write; `rest` is the rounds
-- behind it. The Boolean tells whether all was written; if not, the handler returns.
unfoldable pub write_round : (ℕ → World → World × Bool) → WriteResult → ℕ → World → World × Bool
write_round rest (wrote zero) remaining w = (remove_connection w, false)
write_round rest (wrote (suc n)) remaining w =
    let count = min (suc n) remaining in
    rest (remaining - count) (record w {
      conn = record w.conn { write_sent = w.conn.write_sent + count };
      wire = w.wire ++ take count (drop w.conn.write_sent w.conn.write_buf);
    })
write_round rest would_block remaining w = (w, false)
write_round rest write_failed remaining w = (remove_connection w, false)

-- The loop: `answers i` is the answer to the `write` of round `i`. The first argument is fuel; a
-- round writes a byte at least, so that it suffices where it is not below `remaining`.
unfoldable pub write_loop : ℕ → (ℕ → WriteResult) → ℕ → ℕ → World → World × Bool
write_loop zero answers i remaining w = (w, true)
write_loop (suc f) answers i remaining w =
    if remaining == 0
    then (w, true)
    else write_round (write_loop f answers (i + 1)) (answers i) remaining w

-- The write buffer is empty again, and EPOLLOUT is switched off.
abbrev pub drained : World → World
drained w =
    let (epoll, channel) = disable_writing w.epoll w.conn.channel in
    record w {
      conn = record w.conn { write_buf = []; write_sent = 0; channel = channel };
      epoll = epoll;
    }

-- The end of `onWrite`, when all was written.
unfoldable pub finish_write : World → World
finish_write w =
    let w' = drained w in
    if keep_alive w'.conn.request
    then with_request w' (reset w'.conn.request)
    else remove_connection w'

abbrev pub finish_if : World × Bool → World
finish_if (w, true) = finish_write w
finish_if (w, false) = w

-- `onWrite`. `write_sent` stays within `write_buf`, so that the difference is exact.
unfoldable pub on_write : (ℕ → WriteResult) → World → World
on_write answers w =
    let remaining = length w.conn.write_buf - w.conn.write_sent in
    finish_if (write_loop remaining answers 0 remaining w)

-- `onClose`
unfoldable pub on_close : World → World
on_close w = remove_connection w

-- What the server is set up with: the user's callback, if any, and the order in which a map of
-- headers is iterated.
pub record Setup : Type 0 where
  pub callback : Option (HttpRequest → HttpResponse → HttpResponse)
  pub iterate : Headers → Headers

-- An event on the connection, with the answers to the system calls that its handler makes.
pub record Event : Type 0 where
  pub revents : ℕ
  pub read : ReadResult
  pub write : WriteResult
  pub writes : ℕ → WriteResult

module _ (setup : Setup) where
  open setup use {callback, iterate}

  -- `sendResponse`
  abbrev pub send_response : WriteResult → HttpResponse → World → World
  send_response answer resp w =
      send_message answer resp.keep_alive (to_message resp (iterate resp.headers)) w

  unfoldable pub bad_request : HttpResponse
  bad_request = set_body (set_status_code initial (pos 400)) (codes "Bad Request\n")

  abbrev answered : Option (HttpRequest → HttpResponse → HttpResponse) → HttpRequest → HttpResponse
  answered none r = set_body initial (codes "OK\n")
  answered (some f) r = f r initial

  -- The response to a complete request.
  unfoldable pub response_to : HttpRequest → HttpResponse
  response_to r = set_keep_alive (answered callback r) (keep_alive r)

  -- `onRead` behind a `read` that got bytes, and behind its call of `parse`.
  unfoldable pub after_parse : WriteResult → World → HttpRequest × Bool → World
  after_parse answer w (r, false) = send_response answer bad_request (with_request w r)
  after_parse answer w (r, true) =
      if not (has_got_all r)
      then with_request w r
      else send_response answer (response_to r) (with_request w r)

  -- `onRead`; `answer` is the answer to the `write` of `sendResponse`, if it is called.
  unfoldable pub on_read : ReadResult → WriteResult → World → World
  on_read read_failed answer w = w
  on_read (got []) answer w = remove_connection w
  on_read (got (b ∷ bytes)) answer w =
      after_parse answer w (run_parse w.conn.request (take buffer_size (b ∷ bytes)))

  unfoldable pub run_callback : Event → Option Callback → World → World
  run_callback ev none w = w
  run_callback ev (some on_read_callback) w = on_read ev.read ev.write w
  run_callback ev (some on_write_callback) w = on_write ev.writes w
  run_callback ev (some on_close_callback) w = on_close w

  -- The body of the event loop for one event: `setRevents` and `handleEvent`.
  unfoldable pub dispatch : Event → World → World
  dispatch ev w =
      let c : Channel Callback = record w.conn.channel { revents = ev.revents } in
      run_callback ev (handle_event c) (record w { conn = record w.conn { channel = c } })

  -- The events on the connection, in the order in which the loop sees them.
  unfoldable pub run_events : List Event → World → World
  run_events [] w = w
  run_events (ev ∷ evs) w = run_events evs (dispatch ev w)
