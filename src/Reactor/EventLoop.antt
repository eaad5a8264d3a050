-- ===== src/Reactor/EventLoop.antt =====
-- epoll-http-server/src/EventLoop.h and EventLoop.cpp: the queue of functors and the wakeups. The
-- registration of channels, `updateChannel`, is in Channel.
-- `wakeups` is the counter of the eventfd. A functor is a value of a type that the user chooses;
-- what it does is a function on the loop and the rest of the program's state.
pub mod Interleaving
pub mod Lifetime
pub mod Generations
use cs_system_lab.Prelude.{
  ℕ, zero, suc, ◌+◌, ◌-◌, ◌^◌, ◌≡◌, refl, sym, ap, ◌∙◌, Bool, true, false, not, List, [], ◌∷◌, ◌++◌,
  append-nil, append_assoc, ltb, ◌==◌, if◌then◌else◌,
}
use cs_system_lab.Prelude.Int.{ℤ, is_negative}

pub record EventLoop (F : Type 0) : Type 0 where
  pub quit : Bool
  pub wakeup_fd : ℤ
  pub wakeups : ℕ
  pub pending_functors : List F
  pub thread_id : ℕ

-- The greatest value of an eventfd; a write that would pass it fails with EAGAIN.
abbrev pub eventfd_max : ℕ
eventfd_max = 2 ^ 64 - 2

-- `write(wakeupFd_, &one, sizeof(one))` on the counter.
unfoldable pub add_wakeup : ℕ → ℕ
add_wakeup n = if ltb n eventfd_max then n + 1 else n

module _ {F : Type 0} where
  unfoldable pub wakeup : EventLoop F → EventLoop F
  unfolding add_wakeup
  wakeup l = if is_negative l.wakeup_fd then l else record l { wakeups = add_wakeup l.wakeups }

  -- A read sets the counter to 0.
  unfoldable pub handle_wakeup : EventLoop F → EventLoop F
  handle_wakeup l = if is_negative l.wakeup_fd then l else record l { wakeups = 0 }

  unfoldable pub set_quit : EventLoop F → EventLoop F
  unfolding wakeup
  set_quit l = wakeup (record l { quit = true })

  unfoldable pub queue_in_loop : EventLoop F → F → EventLoop F
  unfolding wakeup
  queue_in_loop l cb = wakeup (record l { pending_functors = l.pending_functors ++ cb ∷ [] })

module _ {F S : Type 0} (exec : F → EventLoop F × S → EventLoop F × S) where
  -- `runInLoop`, called by the thread `caller`.
  unfoldable pub run_in_loop : ℕ → F → EventLoop F × S → EventLoop F × S
  unfolding queue_in_loop
  run_in_loop caller cb (l, s) =
      if caller == l.thread_id then exec cb (l, s) else (queue_in_loop l cb, s)

  unfoldable pub run_all : List F → EventLoop F × S → EventLoop F × S
  run_all [] w = w
  run_all (f ∷ fs) w = run_all fs (exec f w)

  unfoldable pub do_pending_functors : EventLoop F × S → EventLoop F × S
  unfolding run_all
  do_pending_functors (l, s) = run_all l.pending_functors (record l { pending_functors = [] }, s)
