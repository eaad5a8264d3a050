-- ===== src/Reactor/Channel.antt =====
-- epoll-http-server/src/Channel.h and Channel.cpp, with `EventLoop::updateChannel`, which is what a
-- channel's `update` calls. A callback is a value of a type that the user chooses; an empty
-- `std::function` is `none`. `self` stands for the address of the object.
pub mod Registration
mod Dispatch
use Prim.Native.Nat.{bit_and, bit_or}
use cs_system_lab.Prelude.{
  ℕ, ◌-◌, ◌^◌, Bool, true, false, not, ◌&&◌, List, [], ◌∷◌, Option, none, some, ◌==◌, if◌then◌else◌,
}
use cs_system_lab.Prelude.Int.{ℤ}
use cs_system_lab.Reactor.Epoll.{Epoll, add_fd, mod_fd, del_fd}

abbrev pub epollin : ℕ
epollin = 0x1

abbrev pub epollout : ℕ
epollout = 0x4

abbrev pub epollerr : ℕ
epollerr = 0x8

abbrev pub epollhup : ℕ
epollhup = 0x10

abbrev pub epollrdhup : ℕ
epollrdhup = 0x2000

pub record Channel (A : Type 0) : Type 0 where
  pub self : ℕ
  pub fd : ℤ
  pub events : ℕ
  pub revents : ℕ
  pub added_to_epoll : Bool
  pub read_callback : Option A
  pub write_callback : Option A
  pub close_callback : Option A
  pub error_callback : Option A

-- `x & mask` as a condition.
abbrev pub has : ℕ → ℕ → Bool
has x mask = not (bit_and x mask == 0)

-- `~mask` on 32 bits.
abbrev complement : ℕ → ℕ
complement mask = 2 ^ 32 - 1 - mask

module _ {A : Type 0} where
  -- The constructor.
  abbrev pub make : ℕ → ℤ → Channel A
  make self fd = record {
    self = self;
    fd = fd;
    events = 0;
    revents = 0;
    added_to_epoll = false;
    read_callback = none;
    write_callback = none;
    close_callback = none;
    error_callback = none;
  }

  -- `EventLoop::updateChannel`
  unfoldable pub update_channel : Epoll → Channel A → Epoll × Channel A
  unfolding add_fd mod_fd del_fd
  update_channel e c =
      if c.events == 0
      then (if c.added_to_epoll
          then (del_fd e c.fd, record c { added_to_epoll = false })
          else (e, c))
      else if not c.added_to_epoll
      then (add_fd e c.fd c.events c.self, record c { added_to_epoll = true })
      else (mod_fd e c.fd c.events c.self, c)

  unfoldable pub enable_reading : Epoll → Channel A → Epoll × Channel A
  unfolding update_channel
  enable_reading e c = update_channel e (record c { events = bit_or c.events epollin })

  unfoldable pub enable_writing : Epoll → Channel A → Epoll × Channel A
  unfolding update_channel
  enable_writing e c = update_channel e (record c { events = bit_or c.events epollout })

  unfoldable pub disable_reading : Epoll → Channel A → Epoll × Channel A
  unfolding update_channel
  disable_reading e c =
      update_channel e (record c { events = bit_and c.events (complement epollin) })

  unfoldable pub disable_writing : Epoll → Channel A → Epoll × Channel A
  unfolding update_channel
  disable_writing e c =
      update_channel e (record c { events = bit_and c.events (complement epollout) })

  unfoldable pub disable_all : Epoll → Channel A → Epoll × Channel A
  unfolding update_channel
  disable_all e c = update_channel e (record c { events = 0 })

  abbrev is_set : Option A → Bool
  is_set none = false
  is_set (some a) = true

  -- `handleEvent`: the callback that it runs, if any.
  unfoldable pub handle_event : Channel A → Option A
  handle_event c =
      if has c.revents epollout && is_set c.write_callback
      then c.write_callback
      else if has c.revents epollin && is_set c.read_callback
      then c.read_callback
      else if has c.revents (bit_or epollhup epollrdhup) && is_set c.close_callback
      then c.close_callback
      else if has c.revents epollerr && is_set c.error_callback
      then c.error_callback
      else none
