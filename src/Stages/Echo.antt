-- ===== src/Stages/Echo.antt =====
-- main_stage2.cpp: a server on one epoll, which closes each connection behind its first answer.
pub mod Tidy
pub mod Events
use cs_system_lab.Prelude.{
  ℕ, zero, suc, Bool, true, false, not, List, [], ◌∷◌, ◌++◌, take, Option, none, some, ◌==◌,
  if◌then◌else◌, ◌>>=◌,
}
use cs_system_lab.Prelude.Bytes.{Bytes}
use cs_system_lab.Prelude.Heap.{at_address, destroyed}
use cs_system_lab.Prelude.Int.{ℤ, negsuc, is_negative}
use cs_system_lab.Reactor.Epoll.{Epoll}
use cs_system_lab.Reactor.Channel
use cs_system_lab.Reactor.Channel.{Channel, enable_reading, disable_all, handle_event}
use cs_system_lab.Reactor.EventLoop.{EventLoop, handle_wakeup}
use cs_system_lab.Reactor.EventLoop.Lifetime.{WakeupCallback, open_loop}
use cs_system_lab.Net.Acceptor.{AcceptCallback, on_accept_callback}
use cs_system_lab.Net.Socket.{Socket, wrap, release}
use cs_system_lab.Server.Registry.{find_connection, put_connection, erase_connection}
use cs_system_lab.Stages.{response}

-- The callbacks of a connection's channel.
pub data ClientCallback : Type 0 where
  on_read_callback on_close_callback : ClientCallback

-- `clients_` holds the addresses of the channels that it owns, which are alive just if they are in
-- `heap`. Next to the members stand what has gone out, by descriptor, and what was closed, in order.
pub record EchoServer : Type 0 where
  pub loop : EventLoop Unit
  pub epoll : Epoll
  pub wakeup_channel : Channel WakeupCallback
  pub listen_socket : Socket
  pub accept_channel : Channel AcceptCallback
  pub heap : ℕ → Option (Channel ClientCallback)
  pub clients : List (ℤ × ℕ)
  pub sent : List (ℤ × Bytes)
  pub closed : List ℤ

-- The constructor, with the answers of `eventfd`, for the member `loop_`, and of `socket`. The loop
-- registers the channel of its eventfd in its own, new epoll.
unfoldable pub create : ℕ → ℤ → ℕ → ℕ → ℤ → EchoServer
unfolding open_loop
create wakeup_self wakeup_fd thread self fd =
    let (loop, epoll, channel) = open_loop wakeup_self wakeup_fd thread (record { calls = [] }) in
    record {
      loop = loop;
      epoll = epoll;
      wakeup_channel = channel;
      listen_socket = wrap fd;
      accept_channel = Channel.make self (negsuc 0);
      heap = λ a. none;
      clients = [];
      sent = [];
      closed = [];
    }

-- `start`, with the answers of `bind` and `listen`. The channel that is assigned over
-- `acceptChannel_` takes its place and so its address.
unfoldable pub start : Bool → Bool → EchoServer → EchoServer × Bool
start bound listening s =
    let channel : Channel AcceptCallback =
      record (Channel.make s.accept_channel.self s.listen_socket.fd) {
        read_callback = some on_accept_callback;
      } in
    let (epoll, channel') = enable_reading s.epoll channel in
    if is_negative s.listen_socket.fd
    then (s, false)
    else if not bound
    then (s, false)
    else if not listening
    then (s, false)
    else (record s { epoll = epoll; accept_channel = channel' }, true)

-- The body of the loop of `onAccept`, for a descriptor; `new` gives the channel the address `self`.
-- The local Socket releases the descriptor before its destructor runs.
unfoldable pub add_client : ℤ → ℕ → EchoServer → EchoServer
add_client fd self s =
    let channel : Channel ClientCallback = record (Channel.make self fd) {
      read_callback = some on_read_callback;
      close_callback = some on_close_callback;
    } in
    let (epoll, channel') = enable_reading s.epoll channel in
    record s {
      epoll = epoll;
      heap = at_address self (some channel') (destroyed (find_connection fd s.clients) s.heap);
      clients = put_connection fd self s.clients;
    }

-- `onAccept`: the answers of `accept`, each with the address that `new` gives next.
unfoldable pub on_accept : List (ℤ × ℕ) → EchoServer → EchoServer
on_accept [] s = s
on_accept ((fd, self) ∷ rest) s =
    let s' = on_accept rest (add_client fd self s) in if is_negative fd then s else s'

-- The three lines that end a connection.
unfoldable pub drop_client : Channel ClientCallback → EchoServer → EchoServer
drop_client ch s =
    let (epoll, channel) = disable_all s.epoll ch in
    record s {
      epoll = epoll;
      heap = destroyed (find_connection ch.fd s.clients) s.heap;
      clients = erase_connection ch.fd s.clients;
      closed = s.closed ++ ch.fd ∷ [];
    }

-- The answer to `read`: so many bytes, none at the end of the stream; EAGAIN; or another error.
pub data ReadAnswer : Type 0 where
  received : ℕ → ReadAnswer
  no_data : ReadAnswer
  broken : ReadAnswer

-- `onRead`; `taken` is the number of bytes that `write` takes, 0 also where it fails.
unfoldable pub on_read : ReadAnswer → ℕ → Channel ClientCallback → EchoServer → EchoServer
on_read (received zero) taken ch s = drop_client ch s
on_read (received (suc n)) taken ch s =
    drop_client ch (record s { sent = s.sent ++ (ch.fd, take taken response) ∷ [] })
on_read no_data taken ch s = s
on_read broken taken ch s = drop_client ch s

-- `onClose`
unfoldable pub on_close : Channel ClientCallback → EchoServer → EchoServer
on_close ch s = drop_client ch s

-- What the loop brings: an event of the eventfd; one of the listening socket, with the answers of
-- `accept`; or one of a connection, with its pointer and the answers that its handler gets.
pub data EchoEvent : Type 0 where
  woken : EchoEvent
  incoming : List (ℤ × ℕ) → EchoEvent
  client_event : ℕ → ℕ → ReadAnswer → ℕ → EchoEvent

abbrev pub run_client_callback :
    ReadAnswer → ℕ → Channel ClientCallback → Option ClientCallback → EchoServer → EchoServer
run_client_callback r taken ch none s = s
run_client_callback r taken ch (some on_read_callback) s = on_read r taken ch s
run_client_callback r taken ch (some on_close_callback) s = on_close ch s

-- `setRevents` and `handleEvent` of a channel, if it is alive.
unfoldable pub handle_client :
    ℕ → ReadAnswer → ℕ → EchoServer → Option (Channel ClientCallback) → Option EchoServer
handle_client revents r taken s none = none
handle_client revents r taken s (some ch) =
    let ch' : Channel ClientCallback = record ch { revents = revents } in
    some (
      run_client_callback r taken ch' (handle_event ch')
        (record s { heap = at_address ch.self (some ch') s.heap }))

unfoldable pub echo_event : EchoEvent → EchoServer → Option EchoServer
echo_event woken s = some (record s { loop = handle_wakeup s.loop })
echo_event (incoming answers) s = some (on_accept answers s)
echo_event (client_event ptr revents r taken) s = handle_client revents r taken s (s.heap ptr)

unfoldable pub echo_events : List EchoEvent → EchoServer → Option EchoServer
echo_events [] s = some s
echo_events (e ∷ es) s = do s' ← echo_event e s; echo_events es s'
