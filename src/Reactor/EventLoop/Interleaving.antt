-- ===== src/Reactor/EventLoop/Interleaving.antt =====
-- The loop thread, `loop`, among threads that queue functors: `queueInLoop` is two steps, the push
-- under the mutex and the write to the eventfd, between which any thread may run. The eventfd was
-- opened, and nobody calls `quit`.
use cs_system_lab.Prelude.{
  ℕ, suc, ◌<◌, ◌≡◌, ◌≢◌, ◌⊎◌, refl, sym, ap, subst, ◌∙◌, Bool, true, false, inl, inr, List, [], ◌∷◌,
  ◌++◌, append-nil, append_assoc, arith,
}
use cs_system_lab.Reactor.EventLoop.{add_wakeup}

-- Where the loop thread is: in `epoll_wait`; running the channels of the events, with the wakeup
-- channel still among them or not; running the functors that it swapped out.
pub data Place : Type 0 where
  waiting : Place
  dispatching : Bool → Place
  running : List ℕ → Place

-- `between` counts the threads that have pushed and not written yet; `pushed` and `done` are the
-- functors pushed and run so far, by number.
pub record System : Type 0 where
  pub place : Place
  pub pending : List ℕ
  pub wakeups : ℕ
  pub between : ℕ
  pub pushed : List ℕ
  pub done : List ℕ

-- The steps of the loop thread that need no event but the wakeup.
pub data LoopStep : System → System → Type 0 where
  -- `epoll_wait` returns, since the eventfd is readable.
  return_woken :
      (s : System)
      → s.place ≡ waiting
      → 0 < s.wakeups
      → LoopStep s (record s { place = dispatching true })
  -- `handleWakeup()`
  read_wakeup :
      (s : System)
      → s.place ≡ dispatching true
      → LoopStep s (record s { place = dispatching false; wakeups = 0 })
  -- `functors.swap(pendingFunctors_)`
  swap :
      (s : System)
      → s.place ≡ dispatching false
      → LoopStep s (record s { place = running s.pending; pending = [] })
  -- `f()`
  run_one :
      (s : System) (f : ℕ) (fs : List ℕ)
      → s.place ≡ running (f ∷ fs)
      → LoopStep s (record s { place = running fs; done = s.done ++ f ∷ [] })
  -- the next round of `while (!quit_.load())`
  again : (s : System) → s.place ≡ running [] → LoopStep s (record s { place = waiting })

pub data Step : System → System → Type 0 where
  by_loop : {s t : System} → LoopStep s t → Step s t
  -- `pendingFunctors_.push_back(cb)`
  push :
      (s : System) (f : ℕ)
      → Step s (record s {
        pending = s.pending ++ f ∷ [];
        between = suc s.between;
        pushed = s.pushed ++ f ∷ [];
      })
  -- `wakeup()` behind it
  wake :
      (s : System) (n : ℕ)
      → s.between ≡ suc n
      → Step s (record s { between = n; wakeups = add_wakeup s.wakeups })
  -- `epoll_wait` returns with other descriptors ready only.
  return_other : (s : System) → s.place ≡ waiting → Step s (record s { place = dispatching false })

pub data LoopSteps (s : System) : System → Type 0 where
  stop : LoopSteps s s
  then_step : {t u : System} → LoopSteps s t → LoopStep t u → LoopSteps s u

pub data Steps (s : System) : System → Type 0 where
  here : Steps s s
  next : {t u : System} → Steps s t → Step t u → Steps s u

abbrev pub start : System
start = record { place = waiting; pending = []; wakeups = 0; between = 0; pushed = []; done = [] }

-- The functors that were swapped out and did not run yet.
abbrev pub in_hand : Place → List ℕ
in_hand (running fs) = fs
in_hand _ = []

abbrev IsDispatching : Place → Type 0
IsDispatching (dispatching b) = Unit
IsDispatching _ = ⊥

-- A functor that waits has a wakeup on its way, or the loop is about to swap; and the functors
-- run, in hand and pending are those pushed, in order.
pub record Inv (s : System) : Type 0 where
  pub awake : (s.pending ≡ []) ⊎ (0 < s.wakeups) ⊎ (0 < s.between) ⊎ IsDispatching s.place
  pub in_order : (s.done ++ in_hand s.place) ++ s.pending ≡ s.pushed

add_wakeup_pos : (n : ℕ) → 0 < add_wakeup n
unfolding add_wakeup
add_wakeup_pos n = ground arith

swapped :
    (s : System)
    → s.place ≡ dispatching false
    → (s.done ++ in_hand s.place) ++ s.pending ≡ s.pushed
    → (s.done ++ s.pending) ++ [] ≡ s.pushed
swapped s e h =
    append-nil (s.done ++ s.pending)
    ∙ ap (λ xs. xs ++ s.pending) (sym (append-nil s.done))
    ∙ ap (λ p. (s.done ++ in_hand p) ++ s.pending) (sym e)
    ∙ h

LoopStep-Inv : {s t : System} → LoopStep s t → Inv s → Inv t
LoopStep-Inv (return_woken s e h) v = record {
  awake = inr (inr (inr tt));
  in_order = rw e at v.in_order;
}
LoopStep-Inv (read_wakeup s e) v = record {
  awake = inr (inr (inr tt));
  in_order = rw e at v.in_order;
}
LoopStep-Inv (swap s e) v = record { awake = inl refl; in_order = swapped s e v.in_order }
LoopStep-Inv (run_one s f fs e) v = record {
  awake = rw e at v.awake;
  in_order = ap (λ xs. xs ++ s.pending) (append_assoc s.done (f ∷ []) fs) ∙ rw e at v.in_order;
}
LoopStep-Inv (again s e) v = record { awake = rw e at v.awake; in_order = rw e at v.in_order }

Step-Inv : {s t : System} → Step s t → Inv s → Inv t
Step-Inv (by_loop st) v = LoopStep-Inv st v
Step-Inv (push s f) v = record {
  awake = inr (inr (inl (omega arith)));
  in_order =
      sym (append_assoc (s.done ++ in_hand s.place) s.pending (f ∷ []))
      ∙ ap (λ xs. xs ++ f ∷ []) v.in_order;
}
Step-Inv (wake s n e) v = record {
  awake = inr (inl (add_wakeup_pos s.wakeups));
  in_order = v.in_order;
}
Step-Inv (return_other s e) v = record { awake = inr (inr (inr tt)); in_order = rw e at v.in_order }

pub Steps-Inv : {s t : System} → Inv s → Steps s t → Inv t
Steps-Inv v here = v
Steps-Inv v (next r st) = Step-Inv st (Steps-Inv v r)

start-Inv : Inv start
start-Inv = record { awake = inl refl; in_order = refl }

-- No wakeup is lost, however the threads interleave: where the loop thread waits, every thread
-- that pushed has written, and a functor is pending, the eventfd is readable, so that `epoll_wait`
-- returns.
pub wakeup_not_lost :
    {s : System}
    → Steps start s
    → s.place ≡ waiting
    → s.between ≡ 0
    → s.pending ≢ []
    → 0 < s.wakeups
wakeup_not_lost r e none_between p = elim (Steps-Inv start-Inv r).awake [
  | inl nil ↦ absurd (p nil)
  | inr (inl w) ↦ w
  | inr (inr (inl b)) ↦ absurd (omega arith)
  | inr (inr (inr d)) ↦ absurd (subst IsDispatching e d)
]

-- No functor is lost, run twice or run out of order: those run, those swapped out and those
-- pending are, in this order, those pushed.
pub functors_in_order :
    {s : System} → Steps start s → (s.done ++ in_hand s.place) ++ s.pending ≡ s.pushed
functors_in_order r = (Steps-Inv start-Inv r).in_order

LoopSteps-trans : {s t u : System} → LoopSteps s t → LoopSteps t u → LoopSteps s u
LoopSteps-trans r stop = r
LoopSteps-trans r (then_step q st) = then_step (LoopSteps-trans r q) st

-- The thread of the loop runs what it has in hand.
run_in_hand :
    (fs : List ℕ) (s : System)
    → s.place ≡ running fs
    → (t : System) × LoopSteps s t × (t.done ≡ s.done ++ fs)
run_in_hand [] s e = (s, stop, sym (append-nil s.done))
run_in_hand (f ∷ fs) s e =
    let s' : System = record s { place = running fs; done = s.done ++ f ∷ [] } in
    let (t, r, d) = run_in_hand fs s' refl in
    (t, LoopSteps-trans (then_step stop (run_one s f fs e)) r, d ∙ append_assoc s.done (f ∷ []) fs)

-- Where the loop thread waits, every thread that pushed has written, and a functor is pending,
-- the loop thread, with no help from another thread or another descriptor, comes to a state in
-- which it has run every functor that was pushed, in the order of the pushes.
pub pending_all_run :
    {s : System}
    → Steps start s
    → s.place ≡ waiting
    → s.between ≡ 0
    → s.pending ≢ []
    → (t : System) × LoopSteps s t × (t.done ≡ s.pushed)
pending_all_run {s} r e none_between p =
    let s1 : System = record s { place = dispatching true } in
    let s2 : System = record s1 { place = dispatching false; wakeups = 0 } in
    let s3 : System = record s2 { place = running s.pending; pending = [] } in
    let (t, q, d) = run_in_hand s.pending s3 refl in
    let woken = return_woken s e (wakeup_not_lost r e none_between p) in
    let first : LoopSteps s s3 =
      then_step (then_step (then_step stop woken) (read_wakeup s1 refl)) (swap s2 refl) in
    (t, LoopSteps-trans first q, d ∙ all_pushed)
  where
    all_pushed : s.done ++ s.pending ≡ s.pushed
    all_pushed =
        ap (λ xs. xs ++ s.pending) (sym (append-nil s.done))
        ∙ ap (λ q. (s.done ++ in_hand q) ++ s.pending) (sym e)
        ∙ functors_in_order r
