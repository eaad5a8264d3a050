-- ===== src/Tests/Threads.antt =====
-- Reactor/LoopThread at concrete runs.
use cs_system_lab.Prelude.{◌≡◌, ◌⊎◌, refl, inl, true, false, arith}
use cs_system_lab.Reactor.LoopThread.{
  published, testing, waiting, ended, started, quitting, joining, Shared, initially, Step, build,
  publish, enter, go_on, leave, wake, clear, return_loop, store_quit, write_wakeup, use_destroyed,
  no_loop, join, Steps, here, next,
}
use cs_system_lab.Reactor.LoopThread.Stopping.{
  IsRunning, is_too_late, Joins, stop-Joins, started_loop,
}

abbrev returned : Shared
returned = record {
  worker = published;
  owner = started;
  loop_set = true;
  quit = false;
  wakeups = 0;
}

returned-Steps : Steps initially returned
returned-Steps = next (next (next here (build refl)) (publish refl)) (return_loop refl refl)

started_loop_example :
    (returned.loop_set ≡ true)
    × ((returned.worker ≡ published) ⊎ (returned.worker ≡ testing) ⊎ (returned.worker ≡ waiting))
started_loop_example = started_loop returned-Steps refl

abbrev turns : Shared
turns = record returned { worker = testing }

abbrev sleeps : Shared
sleeps = record returned { worker = waiting }

turns-IsRunning : IsRunning turns
turns-IsRunning = record {
  in_wait_or_test = inl refl;
  owner_idle = refl;
  loop_there = refl;
  not_quit = refl;
}

turns-Steps : Steps turns sleeps
turns-Steps = next here (go_on refl refl)

stop-Joins_example : (is_too_late sleeps.owner sleeps.worker ≡ true) ⊎ Joins sleeps
stop-Joins_example = stop-Joins turns-IsRunning turns-Steps

-- The destructor comes between `cond_.notify_one()` and `quit_.store(false)`: its quit is undone,
-- and no step is left, with the destructor in `join`.
abbrev stuck : Shared
stuck = record sleeps { owner = joining }

stuck-Steps : Steps returned stuck
stuck-Steps =
    next
      (next
        (next
          (next (next (next here (store_quit refl refl)) (write_wakeup refl (λ e. cc)))
            (enter refl))
          (go_on refl refl))
        (wake refl (omega arith)))
      (go_on refl refl)

stuck_for_good : {t : Shared} → Step stuck t → ⊥
stuck_for_good (build e) = cc
stuck_for_good (publish e) = cc
stuck_for_good (enter e) = cc
stuck_for_good (go_on e h) = cc
stuck_for_good (leave e h) = cc
stuck_for_good (wake e h) = omega arith
stuck_for_good (clear e) = cc
stuck_for_good (return_loop e h) = cc
stuck_for_good (store_quit e h) = cc
stuck_for_good (write_wakeup e n) = cc
stuck_for_good (use_destroyed e d) = cc
stuck_for_good (no_loop e h) = cc
stuck_for_good (join e h) = cc

-- The thread may leave, and destroy the loop, between the two lines of `quit()`.
abbrev gone : Shared
gone = record { worker = ended; owner = quitting; loop_set = false; quit = true; wakeups = 0 }

gone-Steps : Steps returned gone
gone-Steps =
    next (next (next (next here (enter refl)) (store_quit refl refl)) (leave refl refl))
      (clear refl)
