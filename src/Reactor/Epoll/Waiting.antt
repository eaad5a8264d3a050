-- ===== src/Reactor/Epoll/Waiting.antt =====
-- The constructor, the destructor and `wait` of Epoll (Epoll.h, Epoll.cpp), with its descriptor and
-- the buffer of events that each call of `epoll_wait` writes to.
use cs_system_lab.Prelude.{
  ℕ, zero, suc, ◌≤◌, ◌≡◌, refl, ap, ◌∙◌, List, [], ◌∷◌, ◌++◌, map, arith, length, take, drop,
  length-append, length-drop, take-append_length, All, if◌then◌else◌,
}
use cs_system_lab.Prelude.Int.{ℤ, is_negative}

-- `struct epoll_event`.
pub record EpollEvent : Type 0 where
  pub events : ℕ
  pub ptr : ℕ

pub record Waiter : Type 0 where
  pub epfd : ℤ
  pub events : List EpollEvent

abbrev pub max_events : ℕ
max_events = 4096

-- `resize` of an empty vector.
unfoldable pub zeros : ℕ → List EpollEvent
zeros zero = []
zeros (suc n) = record { events = 0; ptr = 0 } ∷ zeros n

-- The constructor, with the answer of `epoll_create1`.
unfoldable pub open_epoll : ℤ → Waiter
open_epoll fd = record { epfd = fd; events = zeros max_events }

-- The destructor: the descriptors closed.
unfoldable pub close_epoll : Waiter → List ℤ → List ℤ
close_epoll w closed = if is_negative w.epfd then closed else w.epfd ∷ closed

-- What `epoll_wait` does: it writes some events to the front of the buffer and returns their number,
-- or it fails, with EINTR or another error.
pub data WaitAnswer : Type 0 where
  ready : List EpollEvent → WaitAnswer
  interrupted wait_failed : WaitAnswer

unfoldable pub wait : WaitAnswer → Waiter → Waiter × List EpollEvent
wait (ready es) w =
    let buffer = es ++ drop (length es) w.events in
    (record w { events = buffer }, take (length es) buffer)
wait interrupted w = (w, [])
wait wait_failed w = (w, [])

-- Some calls of `wait`, with what each returns.
unfoldable pub waits : List WaitAnswer → Waiter → Waiter × List (List EpollEvent)
waits [] w = (w, [])
waits (a ∷ answers) w =
    let (w', es) = wait a w in let (w'', ess) = waits answers w' in (w'', es ∷ ess)

-- `epoll_wait` reports no more events than it is asked for.
abbrev pub IsDocumented : WaitAnswer → Type 0
IsDocumented (ready es) = length es ≤ max_events
IsDocumented interrupted = Unit
IsDocumented wait_failed = Unit

abbrev pub reported_by : WaitAnswer → List EpollEvent
reported_by (ready es) = es
reported_by interrupted = []
reported_by wait_failed = []

length-zeros : (n : ℕ) → length (zeros n) ≡ n
unfolding zeros
length-zeros zero = refl
length-zeros (suc n) = omega (arith, length-zeros n)

-- The buffer keeps its size, so that the next call may write as much.
wait_lem :
    (a : WaitAnswer) (w : Waiter)
    → IsDocumented a
    → length w.events ≡ max_events
    → ((wait a w).1 ≡ reported_by a)
      × ((wait a w).0.epfd ≡ w.epfd)
      × (length (wait a w).0.events ≡ max_events)
unfolding wait
wait_lem (ready es) w d size = (
  take-append_length es (drop (length es) w.events),
  refl,
  omega (
    arith,
    d,
    size,
    length-append es (drop (length es) w.events),
    length-drop (length es) w.events,
  ),
)
wait_lem interrupted w d size = (refl, refl, size)
wait_lem wait_failed w d size = (refl, refl, size)

waits_lem :
    (answers : List WaitAnswer) (w : Waiter)
    → All IsDocumented answers
    → length w.events ≡ max_events
    → ((waits answers w).1 ≡ map reported_by answers)
      × ((waits answers w).0.epfd ≡ w.epfd)
      × (length (waits answers w).0.events ≡ max_events)
unfolding waits
waits_lem [] w d size = (refl, refl, size)
waits_lem (a ∷ answers) w (d, ds) size =
    let (e, same, size') = wait_lem a w d size in
    let (es, sames, size'') = waits_lem answers (wait a w).0 ds size' in
    (ap (λ x. (wait a w).1 ∷ x) es ∙ ap (λ x. x ∷ map reported_by answers) e, sames ∙ same, size'')

-- As long as `epoll_wait` reports at most the 4096 events that it is asked for, each call of `wait`
-- on a new object returns the events that are reported to it and none that an earlier call left in
-- the buffer, and none where `epoll_wait` fails. The buffer has room for 4096 events behind the
-- calls, and the destructor closes the descriptor that the constructor got, if it got one.
pub waits-open_epoll :
    (fd : ℤ) (answers : List WaitAnswer) (closed : List ℤ)
    → All IsDocumented answers
    → let (w, ess) = waits answers (open_epoll fd) in
      (ess ≡ map reported_by answers)
      × (length w.events ≡ max_events)
      × (close_epoll w closed ≡ (if is_negative fd then closed else fd ∷ closed))
unfolding open_epoll close_epoll
waits-open_epoll fd answers closed d =
    let (es, same, size) = waits_lem answers (open_epoll fd) d (length-zeros max_events) in
    (es, size, ap (λ d. if is_negative d then closed else d ∷ closed) same)
