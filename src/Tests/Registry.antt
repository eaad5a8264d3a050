-- ===== src/Tests/Registry.antt =====
-- Server/Registry at concrete turns.
use cs_system_lab.Prelude.{ℕ, ◌≡◌, refl, List, [], ◌∷◌, none, some}
use cs_system_lab.Prelude.Int.{ℤ, pos, eq_int}
use cs_system_lab.Server.Registry.{
  Happening, arrives, leaves, find_connection, put_connection, erase_connection, erase_all, happen,
  happen_all, loop_turn, opens,
}

abbrev before : List (ℤ × ℕ)
before = (pos 7, 20) ∷ (pos 8, 30) ∷ []

abbrev busy : List Happening
busy = arrives (pos 9) 40 ∷ leaves (pos 7) ∷ leaves (pos 9) ∷ []

-- The kernel gives a descriptor that was closed in this turn to the next connection: the erasure
-- for the old one takes the new one away.
abbrev reuse : List Happening
reuse = leaves (pos 7) ∷ arrives (pos 7) 21 ∷ []

reuse_lost :
    (find_connection
        (pos 7)
        (loop_turn reuse (record { connections = before; pending_functors = [] })).connections
      ≡ none)
    × (opens reuse (λ fd. find_connection fd before) (pos 7) ≡ some 21)
unfolding loop_turn happen_all happen erase_all find_connection put_connection erase_connection
    eq_int
reuse_lost = (refl, refl)
