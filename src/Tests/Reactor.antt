-- ===== src/Tests/Reactor.antt =====
-- Reactor at concrete channels, pools and interleavings.
use cs_system_lab.Prelude.{
  ℕ, ◌+◌, ◌<◌, ◌≡◌, refl, false, List, [], ◌∷◌, ◌++◌, some, arith, map, length,
}
use cs_system_lab.Prelude.Int.{pos, is_negative}
use cs_system_lab.Reactor.Epoll.{Epoll, interest, add, modify, del, AllGranted}
use cs_system_lab.Reactor.Epoll.Waiting.{
  WaitAnswer, ready, interrupted, waits, open_epoll, close_epoll, reported_by, max_events,
  waits-open_epoll,
}
use cs_system_lab.Reactor.Channel.{Channel, make, handle_event}
use cs_system_lab.Reactor.Channel.Registration.{
  Op, read_on, write_on, write_off, all_off, Follows, nothing, wishes, run, run-Follows,
}
use cs_system_lab.Reactor.ThreadPool
use cs_system_lab.Reactor.ThreadPool.{turn, turn-start}
use cs_system_lab.Reactor.EventLoop.{EventLoop, add_wakeup}
use cs_system_lab.Reactor.EventLoop.Generations.{turns, turns-generations}
use cs_system_lab.Reactor.EventLoop.Interleaving.{
  System, Steps, LoopSteps, start, here, next, push, wake, in_hand, wakeup_not_lost,
  functors_in_order, pending_all_run,
}

abbrev empty : Epoll
empty = record { calls = [] }

abbrev channel : Channel ℕ
channel = record (make 9 (pos 7)) { read_callback = some 1; write_callback = some 2 }

abbrev ops : List Op
ops = read_on ∷ write_on ∷ write_off ∷ all_off ∷ write_on ∷ []

run_calls :
    (run ops empty channel).0.calls
    ≡ add (pos 7) 4 9 ∷ del (pos 7) ∷ modify (pos 7) 1 9 ∷ modify (pos 7) 5 9 ∷ add (pos 7) 1 9 ∷ []
unfolding run
run_calls = refl

run-Follows_example :
    Follows (wishes ops nothing) (run ops empty channel).0 (run ops empty channel).1
    × AllGranted (run ops empty channel).0.calls
unfolding interest
run-Follows_example =
    run-Follows ops nothing empty channel (record { events = refl; flag = refl; known = refl }) tt

abbrev ready_channel : Channel ℕ
ready_channel = record channel { revents = 0x2015 }

ready_runs : handle_event ready_channel ≡ some 2
unfolding handle_event
ready_runs = refl

turn-start_example : turn 5 (ThreadPool.start (λ i. i + 100) (ThreadPool.make 1 (pos 4))) ≡ some 101
turn-start_example = turn-start (λ i. i + 100) 1 4 5 (omega arith)

abbrev loop : EventLoop ℕ
loop = record {
  quit = false;
  wakeup_fd = pos 5;
  wakeups = 0;
  pending_functors = 1 ∷ 2 ∷ [];
  thread_id = 3;
}

-- Each functor queues another one.
abbrev one_more : ℕ → List ℕ
one_more f = (f + 10) ∷ []

turns-generations_example :
    ((turns one_more 2 (loop, [])).1 ≡ 1 ∷ 2 ∷ 11 ∷ 12 ∷ [])
    × ((turns one_more 2 (loop, [])).0.pending_functors ≡ 21 ∷ 22 ∷ [])
turns-generations_example = turns-generations one_more 2 loop []

-- One push, with its wakeup.
abbrev pushed_one : System
pushed_one = record start { pending = 7 ∷ []; pushed = 7 ∷ []; wakeups = 1 }

pushed_one-Steps : Steps start pushed_one
unfolding add_wakeup
pushed_one-Steps = next (next here (push start 7)) (wake _ 0 refl)

wakeup_not_lost_example : 0 < pushed_one.wakeups
wakeup_not_lost_example = wakeup_not_lost pushed_one-Steps refl refl (cc)

functors_in_order_example :
    (pushed_one.done ++ in_hand pushed_one.place) ++ pushed_one.pending ≡ 7 ∷ []
functors_in_order_example = functors_in_order pushed_one-Steps

pending_all_run_example : (t : System) × LoopSteps pushed_one t × (t.done ≡ 7 ∷ [])
pending_all_run_example = pending_all_run pushed_one-Steps refl refl (cc)

-- Two events, then none, then one.
abbrev waited : List WaitAnswer
waited =
    ready (record { events = 1; ptr = 20 } ∷ record { events = 4; ptr = 30 } ∷ [])
    ∷ interrupted
    ∷ ready (record { events = 5; ptr = 30 } ∷ [])
    ∷ []

waits-open_epoll_example :
    let (w, ess) = waits waited (open_epoll (pos 4)) in
    (ess ≡ map reported_by waited)
    × (length w.events ≡ max_events)
    × (close_epoll w [] ≡ pos 4 ∷ [])
unfolding is_negative
waits-open_epoll_example = waits-open_epoll (pos 4) waited [] (omega arith, (tt, (omega arith, tt)))
