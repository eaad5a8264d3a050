-- ===== src/Reactor/LoopThread/Stopping.antt =====
-- Starting and stopping a loop's thread.
use cs_system_lab.Prelude.{
  ◌+◌, ◌≡◌, ◌≢◌, refl, ◌⊎◌, Bool-cases, inl, inr, Bool, true, false, arith, not, ◌&&◌, ◌||◌, ltb,
  if◌then◌else◌,
}
use cs_system_lab.Reactor.LoopThread.{
  Worker, begun, built, published, testing, waiting, left, ended, Owner, starting, started,
  quitting, joining, joined, undefined, Shared, initially, Step, build, publish, enter, go_on,
  leave, wake, clear, return_loop, store_quit, write_wakeup, use_destroyed, no_loop, join, Steps,
  here, next,
}

-- The states from which the owner can stop the thread: those in which it has entered its loop.
abbrev turning : Worker → Bool
turning testing = true
turning waiting = true
turning _ = false

abbrev in_loop : Worker → Bool
in_loop left = true
in_loop ended = true
in_loop w = turning w

abbrev is_waiting : Worker → Bool
is_waiting waiting = true
is_waiting _ = false

abbrev good : Owner → Worker → Bool → Bool → Bool → Bool
good starting w set quit woken = false
good started w set quit woken = turning w && (set && not quit)
good quitting w set quit woken = in_loop w && quit
good joining w set quit woken = in_loop w && (quit && (not (is_waiting w) || woken))
good joined w set quit woken = true
good undefined w set quit woken = true

abbrev IsGood : Shared → Type 0
IsGood s = good s.owner s.worker s.loop_set s.quit (ltb 0 s.wakeups) ≡ true

Step-IsGood : {s t : Shared} → Step s t → IsGood s → IsGood t
Step-IsGood (build e) v = ground arith
Step-IsGood (publish e) v = ground arith
Step-IsGood (enter e) v = ground arith
Step-IsGood (go_on e q) v = ground arith
Step-IsGood (leave e q) v = ground arith
Step-IsGood (wake e h) v = ground arith
Step-IsGood (clear e) v = ground arith
Step-IsGood (return_loop e h) v = ground arith
Step-IsGood (store_quit e h) v = ground arith
Step-IsGood (write_wakeup e n) v = ground arith
Step-IsGood (use_destroyed e d) v = ground arith
Step-IsGood (no_loop e h) v = ground arith
Step-IsGood (join e h) v = ground arith

Steps-IsGood : {s t : Shared} → Steps s t → IsGood s → IsGood t
Steps-IsGood here v = v
Steps-IsGood (next r st) v = Step-IsGood st (Steps-IsGood r v)

-- There are steps that bring the owner behind `join`.
abbrev pub Joins : Shared → Type 0
Joins s = (u : Shared) × Steps s u × (u.owner ≡ joined)

Steps-trans : {s t u : Shared} → Steps s t → Steps t u → Steps s u
Steps-trans r here = r
Steps-trans r (next q st) = next (Steps-trans r q) st

first : {s t : Shared} → Step s t → Joins t → Joins s
first st (u, r, e) = (u, Steps-trans (next here st) r, e)

from_ended : (s : Shared) → s.owner ≡ joining → s.worker ≡ ended → Joins s
from_ended s o w = (record s { owner = joined }, next here (join o w), refl)

from_left : (s : Shared) → s.owner ≡ joining → s.worker ≡ left → Joins s
from_left s o w =
    first (clear w) (from_ended (record s { worker = ended; loop_set = false }) o refl)

from_testing : (s : Shared) → s.owner ≡ joining → s.worker ≡ testing → s.quit ≡ true → Joins s
from_testing s o w q = first (leave w q) (from_left (record s { worker = left }) o refl)

from_joining : (w : Worker) (s : Shared) → s.worker ≡ w → s.owner ≡ joining → IsGood s → Joins s
from_joining ended s e o v = from_ended s o e
from_joining left s e o v = from_left s o e
from_joining testing s e o v = from_testing s o e (ground arith)
from_joining waiting s e o v =
    first (wake e (ground arith))
      (from_testing (record s { worker = testing; wakeups = 0 }) o refl (ground arith))
from_joining begun s e o v = absurd (ground arith)
from_joining built s e o v = absurd (ground arith)
from_joining published s e o v = absurd (ground arith)

from_quitting : (s : Shared) → s.owner ≡ quitting → s.worker ≢ ended → IsGood s → Joins s
from_quitting s o n v = first (write_wakeup o n) (
    from_joining s.worker (record s { owner = joining; wakeups = s.wakeups + 1 }) refl refl
      (Step-IsGood (write_wakeup o n) v))

-- The loop is destroyed while the owner is inside its `quit()`, or it has been used after that.
abbrev pub is_too_late : Owner → Worker → Bool
is_too_late quitting ended = true
is_too_late undefined w = true
is_too_late _ _ = false

from_good :
    (o : Owner) (s : Shared)
    → s.owner ≡ o
    → IsGood s
    → is_too_late s.owner s.worker ≡ false
    → Joins s
from_good starting s e v n = absurd (ground arith)
from_good started s e v n =
    let set : s.loop_set ≡ true = ground arith in
    let there : s.worker ≢ ended = (λ k. ground arith) in
    first (store_quit e set) (
      from_quitting (record s { owner = quitting; quit = true }) refl there
        (Step-IsGood (store_quit e set) v))
from_good quitting s e v n = from_quitting s e (λ k. ground arith) v
from_good joining s e v n = from_joining s.worker s refl e v
from_good joined s e v n = (s, here, e)
from_good undefined s e v n = absurd (ground arith)

-- The thread has entered its loop, and the owner has not begun to stop it.
pub record IsRunning (s : Shared) : Type 0 where
  pub in_wait_or_test : (s.worker ≡ testing) ⊎ (s.worker ≡ waiting)
  pub owner_idle : s.owner ≡ started
  pub loop_there : s.loop_set ≡ true
  pub not_quit : s.quit ≡ false

IsRunning-IsGood : (s : Shared) → IsRunning s → IsGood s
IsRunning-IsGood s v = elim v.in_wait_or_test [
  | inl e ↦ ground (arith, v.owner_idle, v.loop_there, v.not_quit)
  | inr e ↦ ground (arith, v.owner_idle, v.loop_there, v.not_quit)
]

-- Once the thread has entered its loop and the owner has not begun to stop it, whatever steps the
-- thread and the owner take, in every state that they come to one of two things holds: the loop was
-- destroyed while the owner was inside its `quit()`; or there are steps that end the thread and
-- bring the destructor behind `join`, with no use of a destroyed loop.
pub stop-Joins :
    {s t : Shared} → IsRunning s → Steps s t → (is_too_late t.owner t.worker ≡ true) ⊎ Joins t
stop-Joins {s} {t} v r = elim (Bool-cases (is_too_late t.owner t.worker)) [
  | inl late ↦ inl late
  | inr n ↦ inr (from_good t.owner t refl (Steps-IsGood r (IsRunning-IsGood s v)) n)
]

abbrev early : Worker → Bool
early begun = true
early built = true
early _ = false

abbrev running : Worker → Bool
running published = true
running w = turning w

abbrev agreed : Owner → Worker → Bool → Bool → Bool
agreed starting w set quit = not quit && (if early w then not set else (running w && set))
agreed started w set quit = not quit && (running w && set)
agreed _ w set quit = true

abbrev IsAgreed : Shared → Type 0
IsAgreed s = agreed s.owner s.worker s.loop_set s.quit ≡ true

Step-IsAgreed : {s t : Shared} → Step s t → IsAgreed s → IsAgreed t
Step-IsAgreed (build e) v = ground arith
Step-IsAgreed (publish e) v = ground arith
Step-IsAgreed (enter e) v = ground arith
Step-IsAgreed (go_on e q) v = ground arith
Step-IsAgreed (leave e q) v = ground arith
Step-IsAgreed (wake e h) v = ground arith
Step-IsAgreed (clear e) v = ground arith
Step-IsAgreed (return_loop e h) v = ground arith
Step-IsAgreed (store_quit e h) v = ground arith
Step-IsAgreed (write_wakeup e n) v = ground arith
Step-IsAgreed (use_destroyed e d) v = ground arith
Step-IsAgreed (no_loop e h) v = ground arith
Step-IsAgreed (join e h) v = ground arith

Steps-IsAgreed : {s t : Shared} → Steps s t → IsAgreed s → IsAgreed t
Steps-IsAgreed here v = v
Steps-IsAgreed (next r st) v = Step-IsAgreed st (Steps-IsAgreed r v)

running_cases : (w : Worker) → running w ≡ true → (w ≡ published) ⊎ (w ≡ testing) ⊎ (w ≡ waiting)
running_cases published h = inl refl
running_cases testing h = inr (inl refl)
running_cases waiting h = inr (inr refl)
running_cases begun h = absurd (cc)
running_cases built h = absurd (cc)
running_cases left h = absurd (cc)
running_cases ended h = absurd (cc)

-- From the return of `startLoop` to the destructor `loop_` is not null, and its loop is built and
-- is not left.
pub started_loop :
    {s : Shared}
    → Steps initially s
    → s.owner ≡ started
    → (s.loop_set ≡ true) × ((s.worker ≡ published) ⊎ (s.worker ≡ testing) ⊎ (s.worker ≡ waiting))
started_loop {s} r e =
    let v : IsAgreed s = Steps-IsAgreed r refl in
    (ground arith, running_cases s.worker (ground arith))
