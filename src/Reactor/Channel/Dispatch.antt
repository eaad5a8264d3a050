-- ===== src/Reactor/Channel/Dispatch.antt =====
-- Which callback an event runs.
use Prim.Native.Nat.{bit_or}
use cs_system_lab.Prelude.{◌≡◌, Bool, List, [], ◌∷◌, Option, none, some, if◌then◌else◌, arith}
use cs_system_lab.Reactor.Channel.{
  Channel, epollin, epollout, epollerr, epollhup, epollrdhup, has, handle_event,
}

-- The first callback of a table that is set and whose events occurred.
abbrev first_ready {ℓ} : {A : Type ℓ} → List (Bool × Option A) → Option A
first_ready [] = none
first_ready ((ready, none) ∷ rows) = first_ready rows
first_ready ((ready, some a) ∷ rows) = if ready then some a else first_ready rows

-- An event runs one callback at most: that for output before that for input before that for a
-- closed peer before that for an error, of those that are set.
handle_event-first_ready :
    {A : Type 0} (c : Channel A)
    → handle_event c
      ≡ first_ready (
          (has c.revents epollout, c.write_callback)
          ∷ (has c.revents epollin, c.read_callback)
          ∷ (has c.revents (bit_or epollhup epollrdhup), c.close_callback)
          ∷ (has c.revents epollerr, c.error_callback)
          ∷ [])
unfolding handle_event
handle_event-first_ready c = ground arith
