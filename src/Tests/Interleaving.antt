-- ===== src/Tests/Interleaving.antt =====
-- Server/Threads at concrete interleavings.
use cs_system_lab.Prelude.{◌≡◌, refl, true, false, [], some}
use cs_system_lab.Prelude.Int.{ℤ, pos, eq_int}
use cs_system_lab.Server.Threads.{
  System, nothing_yet, hand_over, make_connection, store_connection, begin_remove, close_connection,
  queue_erasure, run_erasure, Reach, begins, steps, accepts, makes, stores, removes, closes, queues,
  erases, IsUnmapped, Anything,
}
use cs_system_lab.Server.Threads.Ending.{Ended, removal-Ended}
use cs_system_lab.Server.Threads.Safety.{Safe, server-Safe}

-- A connection on loop 4, up to the close.
abbrev stored : System
stored =
    store_connection 4 (pos 7) 20
      (make_connection 4 (pos 7) 20 [] (hand_over (pos 7) 4 nothing_yet))

abbrev shut_down : System
shut_down =
    queue_erasure 4 (pos 7) (close_connection 4 (pos 7) 20 (begin_remove 4 (pos 7) 20 stored))

shut_down-Reach :
    (Allowed : System → ℤ → Type 0) → Allowed nothing_yet (pos 7) → Reach Allowed shut_down
unfolding hand_over make_connection store_connection begin_remove close_connection eq_int
shut_down-Reach Allowed ok =
    steps
      (steps
        (steps
          (steps
            (steps (steps begins (accepts (pos 7) 4 refl ok))
              (makes 4 (pos 7) 20 [] refl refl refl))
            (stores 4 (pos 7) 20 refl))
          (removes 4 (pos 7) 20 refl refl))
        (closes 4 (pos 7) 20 refl))
      (queues 4 (pos 7) 20 refl)

server-Safe_example : Safe shut_down
server-Safe_example = server-Safe (shut_down-Reach IsUnmapped refl)

abbrev removing : System
removing = begin_remove 4 (pos 7) 20 stored

removing-Reach : Reach IsUnmapped removing
unfolding hand_over make_connection store_connection begin_remove eq_int
removing-Reach =
    steps
      (steps
        (steps (steps begins (accepts (pos 7) 4 refl refl)) (makes 4 (pos 7) 20 [] refl refl refl))
        (stores 4 (pos 7) 20 refl))
      (removes 4 (pos 7) 20 refl refl)

removal-Ended_example : (t : System) × Ended 4 (pos 7) 20 removing t
unfolding begin_remove
removal-Ended_example = removal-Ended 4 (pos 7) 20 removing-Reach refl

-- The kernel gives the descriptor to the next connection before loop 4 erases the entry. Loop 5
-- stores the new connection over the old one, and then loop 4 erases the new one: its epoll points
-- at a connection that was destroyed.
abbrev reused : System
reused =
    store_connection 5 (pos 7) 21 (make_connection 5 (pos 7) 21 [] (hand_over (pos 7) 5 shut_down))

abbrev dangling : System
dangling = run_erasure 4 (pos 7) [] reused

dangling-Reach : Reach Anything dangling
unfolding hand_over make_connection store_connection begin_remove close_connection queue_erasure
    eq_int
dangling-Reach =
    steps
      (steps
        (steps (steps (shut_down-Reach Anything tt) (accepts (pos 7) 5 refl tt))
          (makes 5 (pos 7) 21 [] refl refl refl))
        (stores 5 (pos 7) 21 refl))
      (erases 4 (pos 7) [] refl refl)

dangling_pointer :
    (dangling.registered 5 (pos 7) ≡ some 21)
    × (dangling.alive 21 ≡ false)
    × (dangling.opened (pos 7) ≡ true)
unfolding hand_over make_connection store_connection begin_remove close_connection queue_erasure
    run_erasure eq_int
dangling_pointer = (refl, refl, refl)
