-- ===== src/Reactor/EventLoop/Lifetime.antt =====
-- The constructor and the destructor of EventLoop (EventLoop.cpp), with its epoll and the channel of
-- its eventfd.
use cs_system_lab.Prelude.{ℕ, false, List, [], ◌∷◌, some, if◌then◌else◌}
use cs_system_lab.Prelude.Int.{ℤ, is_negative}
use cs_system_lab.Reactor.Epoll.{Epoll}
use cs_system_lab.Reactor.Channel.{Channel, make, enable_reading, disable_all}
use cs_system_lab.Reactor.EventLoop.{EventLoop}

-- The one callback of the channel.
pub data WakeupCallback : Type 0 where
  on_wakeup_callback : WakeupCallback

-- The constructor in the thread `thread`, with the answer of `eventfd`.
unfoldable pub open_loop :
    {F : Type 0} → ℕ → ℤ → ℕ → Epoll → EventLoop F × Epoll × Channel WakeupCallback
unfolding enable_reading
open_loop self fd thread epoll =
    let (epoll', channel) =
      enable_reading epoll (record (make self fd) { read_callback = some on_wakeup_callback }) in
    (
      record {
        quit = false;
        wakeup_fd = fd;
        wakeups = 0;
        pending_functors = [];
        thread_id = thread;
      },
      epoll',
      channel,
    )

-- The destructor: the epoll, and the descriptors closed.
unfoldable pub close_loop :
    {F : Type 0} → EventLoop F → Epoll → Channel WakeupCallback → List ℤ → Epoll × List ℤ
unfolding disable_all
close_loop l epoll channel closed = (
  (disable_all epoll channel).0,
  if is_negative l.wakeup_fd then closed else l.wakeup_fd ∷ closed,
)
