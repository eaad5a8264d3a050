-- ===== src/Reactor/EventLoop/Generations.antt =====
-- `doPendingFunctors` turn by turn, with functors that queue other functors.
use cs_system_lab.Prelude.{
  ℕ, zero, suc, ◌≡◌, refl, sym, ap, ◌∙◌, List, [], ◌∷◌, ◌++◌, map, concat, append-nil, append_assoc,
  arith,
}
use cs_system_lab.Reactor.EventLoop.{EventLoop, wakeup, queue_in_loop, run_all, do_pending_functors}

module _ {F : Type 0} (spawn : F → List F) where
  unfoldable pub queue_all : List F → EventLoop F → EventLoop F
  queue_all [] l = l
  queue_all (f ∷ fs) l = queue_all fs (queue_in_loop l f)

  -- A functor that leaves its trace and queues others.
  abbrev pub spawning : F → EventLoop F × List F → EventLoop F × List F
  spawning f (l, done) = (queue_all (spawn f) l, done ++ f ∷ [])

  -- So many turns of the loop.
  unfoldable pub turns : ℕ → EventLoop F × List F → EventLoop F × List F
  turns zero w = w
  turns (suc n) w = turns n (do_pending_functors spawning w)

  abbrev pub spawned : List F → List F
  spawned fs = concat (map spawn fs)

  -- Some functors, those that they queue, and so on.
  abbrev pub generation : ℕ → List F → List F
  generation zero fs = fs
  generation (suc n) fs = generation n (spawned fs)

  abbrev pub generations : ℕ → List F → List F
  generations zero fs = []
  generations (suc n) fs = fs ++ generations n (spawned fs)

  queue_in_loop-pending :
      (f : F) (l : EventLoop F)
      → (queue_in_loop l f).pending_functors ≡ l.pending_functors ++ f ∷ []
  unfolding queue_in_loop wakeup
  queue_in_loop-pending f l = ground arith

  queue_all-pending :
      (fs : List F) (l : EventLoop F) → (queue_all fs l).pending_functors ≡ l.pending_functors ++ fs
  unfolding queue_all
  queue_all-pending [] l = sym (append-nil l.pending_functors)
  queue_all-pending (f ∷ fs) l =
      queue_all-pending fs (queue_in_loop l f)
      ∙ ap (λ gs. gs ++ fs) (queue_in_loop-pending f l)
      ∙ append_assoc l.pending_functors (f ∷ []) fs

  run_all-spawning :
      (fs : List F) (l : EventLoop F) (done : List F)
      → ((run_all spawning fs (l, done)).1 ≡ done ++ fs)
        × ((run_all spawning fs (l, done)).0.pending_functors ≡ l.pending_functors ++ spawned fs)
  unfolding run_all
  run_all-spawning [] l done = (sym (append-nil done), sym (append-nil l.pending_functors))
  run_all-spawning (f ∷ fs) l done =
      let (ran, left) = run_all-spawning fs (queue_all (spawn f) l) (done ++ f ∷ []) in
      (
        ran ∙ append_assoc done (f ∷ []) fs,
        left
            ∙ ap (λ gs. gs ++ spawned fs) (queue_all-pending (spawn f) l)
            ∙ append_assoc l.pending_functors (spawn f) (spawned fs),
      )

  -- Where each functor queues some others, a number of turns runs, each once, the functors that were
  -- queued, then those that these queued, and so on, one generation to a turn, each in the order in
  -- which it was queued; and what is queued then is the next generation.
  pub turns-generations :
      (n : ℕ) (l : EventLoop F) (done : List F)
      → ((turns n (l, done)).1 ≡ done ++ generations n l.pending_functors)
        × ((turns n (l, done)).0.pending_functors ≡ generation n l.pending_functors)
  unfolding turns do_pending_functors
  turns-generations zero l done = (sym (append-nil done), refl)
  turns-generations (suc n) l done =
      let emptied : EventLoop F = record l { pending_functors = [] } in
      let fs = l.pending_functors in
      let w = run_all spawning fs (emptied, done) in
      let (ran, left) = run_all-spawning fs emptied done in
      let (trace, queue) = turns-generations n w.0 w.1 in
      (
        trace
            ∙ ap (λ gs. w.1 ++ generations n gs) left
            ∙ ap (λ gs. gs ++ generations n (spawned fs)) ran
            ∙ append_assoc done fs (generations n (spawned fs)),
        queue ∙ ap (generation n) left,
      )
