-- ===== src/Reactor/LoopThread.antt =====
-- epoll-http-server/src/EventLoopThread.h and EventLoopThread.cpp, with the part of
-- `EventLoop::loop` and `EventLoop::quit` that starting and stopping a loop takes: an owner, who
-- calls `startLoop` and later the destructor, and the thread that it starts. No event but the
-- wakeup comes to the loop.
pub mod Stopping
use cs_system_lab.Prelude.{ℕ, zero, suc, ◌+◌, ◌<◌, ◌≡◌, ◌≢◌, Bool, true, false}

-- Where `threadFunc` is: before its first step; with its loop built; with `loop_` set; at the test
-- of `while (!quit_.load())`; in `epoll_wait`; behind `loop()`; at its end.
pub data Worker : Type 0 where
  begun built published testing waiting left ended : Worker

-- Where the owner is: in `cond_.wait`; with the loop that `startLoop` returned; in the destructor
-- between the two lines of `quit()`; at `thread_.join()`; behind it; or behind a use of a loop that is
-- destroyed, where nothing is said of what comes.
pub data Owner : Type 0 where
  starting started quitting joining joined undefined : Owner

-- `loop_set` tells whether `loop_` is not null, `wakeups` is the counter of the eventfd.
pub record Shared : Type 0 where
  pub worker : Worker
  pub owner : Owner
  pub loop_set : Bool
  pub quit : Bool
  pub wakeups : ℕ

abbrev pub initially : Shared
initially = record { worker = begun; owner = starting; loop_set = false; quit = false; wakeups = 0 }

pub data Step (s : Shared) : Shared → Type 0 where
  -- `EventLoop loop;`
  build : s.worker ≡ begun → Step s (record s { worker = built })
  -- `loop_ = &loop; cond_.notify_one();`
  publish : s.worker ≡ built → Step s (record s { worker = published; loop_set = true })
  -- `quit_.store(false);`
  enter : s.worker ≡ published → Step s (record s { worker = testing; quit = false })
  -- the test of the loop
  go_on : s.worker ≡ testing → s.quit ≡ false → Step s (record s { worker = waiting })
  leave : s.worker ≡ testing → s.quit ≡ true → Step s (record s { worker = left })
  -- `epoll_wait` returns, and `handleWakeup` reads the eventfd.
  wake : s.worker ≡ waiting → 0 < s.wakeups → Step s (record s { worker = testing; wakeups = 0 })
  -- `loop_ = nullptr;` and the end of `threadFunc`, which destroys the loop.
  clear : s.worker ≡ left → Step s (record s { worker = ended; loop_set = false })
  -- `cond_.wait` returns.
  return_loop : s.owner ≡ starting → s.loop_set ≡ true → Step s (record s { owner = started })
  -- `if (loop_) loop_->quit();`
  store_quit :
      s.owner ≡ started → s.loop_set ≡ true → Step s (record s { owner = quitting; quit = true })
  -- `wakeup()`, on a loop that is still there
  write_wakeup :
      s.owner ≡ quitting
      → s.worker ≢ ended
      → Step s (record s { owner = joining; wakeups = s.wakeups + 1 })
  -- `wakeup()`, when `threadFunc` has returned and its loop, a local object, is destroyed
  use_destroyed : s.owner ≡ quitting → s.worker ≡ ended → Step s (record s { owner = undefined })
  no_loop : s.owner ≡ started → s.loop_set ≡ false → Step s (record s { owner = joining })
  -- `thread_.join();`
  join : s.owner ≡ joining → s.worker ≡ ended → Step s (record s { owner = joined })

pub data Steps (s : Shared) : Shared → Type 0 where
  here : Steps s s
  next : {t u : Shared} → Steps s t → Step t u → Steps s u
