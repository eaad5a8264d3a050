-- ===== src/Reactor/ThreadPool.antt =====
-- epoll-http-server/src/EventLoopThreadPool.h and EventLoopThreadPool.cpp. A loop is known by a
-- number, its address.
use mathlib.Core.Option
use native.Mathlib.Nat.{mod-add-mod}
use cs_system_lab.Prelude.Int.{ℤ, pos, negsuc}
use cs_system_lab.Prelude.{
  ℕ, sym, zero, suc, ◌+◌, ◌%◌, ◌<◌, ◌≡◌, refl, ap, ◌∙◌, List, [], ◌∷◌, ◌++◌, Option, none, some,
  length, get_elem?, append-nil, append_assoc, arith,
}

pub record ThreadPool : Type 0 where
  pub base_loop : ℕ
  pub num_threads : ℤ
  pub next : ℕ
  pub loops : List ℕ

-- The constructor.
abbrev pub make : ℕ → ℤ → ThreadPool
make base n = record { base_loop = base; num_threads = n; next = 0; loops = [] }

abbrev rounds : ℤ → ℕ
rounds (pos n) = n
rounds (negsuc n) = 0

-- The loops that the threads of the rounds from `i` on hand over.
abbrev pub started : (ℕ → ℕ) → ℕ → ℕ → List ℕ → List ℕ
started new_loop zero i loops = loops
started new_loop (suc n) i loops = started new_loop n (i + 1) (loops ++ new_loop i ∷ [])

-- `start`: `new_loop i` is the loop that the thread of round `i` hands over.
unfoldable pub start : (ℕ → ℕ) → ThreadPool → ThreadPool
start new_loop p = record p { loops = started new_loop (rounds p.num_threads) 0 p.loops }

-- `getNextLoop`: the pool after the call and the loop; `none` is a read out of bounds.
abbrev step_next : List ℕ → ThreadPool → Option (ThreadPool × ℕ)
step_next [] p = some (p, p.base_loop)
step_next (l ∷ ls) p =
    Option.map (λ loop. (record p { next = (p.next + 1) % length p.loops }, loop))
      (get_elem? p.loops p.next)

unfoldable pub get_next_loop : ThreadPool → Option (ThreadPool × ℕ)
get_next_loop p = step_next p.loops p

-- The loop that the call after `k` others returns.
abbrev pub turn_after : (ThreadPool → Option ℕ) → Option (ThreadPool × ℕ) → Option ℕ
turn_after next none = none
turn_after next (some (p, l)) = next p

unfoldable pub turn : ℕ → ThreadPool → Option ℕ
unfolding get_next_loop
turn zero p = Option.map (λ q. q.1) (get_next_loop p)
turn (suc k) p = turn_after (turn k) (get_next_loop p)

get_elem?_lt : (xs : List ℕ) (i : ℕ) → i < length xs → (x : ℕ) × (get_elem? xs i ≡ some x)
get_elem?_lt [] i h = absurd (omega arith)
get_elem?_lt (x ∷ xs) zero h = (x, refl)
get_elem?_lt (x ∷ xs) (suc i) h = get_elem?_lt xs i (omega arith)

step_next_lem :
    (ls : List ℕ) (p : ThreadPool) (x : ℕ)
    → 0 < length ls
    → get_elem? p.loops p.next ≡ some x
    → step_next ls p ≡ some (record p { next = (p.next + 1) % length p.loops }, x)
step_next_lem [] p x h e = absurd (omega arith)
step_next_lem (l ∷ ls) p x h e = rw e

-- With loops, no call reads out of bounds, and the calls go round.
turn_round :
    (k : ℕ) (p : ThreadPool)
    → p.next < length p.loops
    → turn k p ≡ get_elem? p.loops ((p.next + k) % length p.loops)
unfolding turn get_next_loop
turn_round zero p h =
    let (x, e) = get_elem?_lt p.loops p.next h in
    let same : (p.next + 0) % length p.loops ≡ p.next = grind arith in
    rw (step_next_lem p.loops p x (omega arith) e, same) (sym e)
turn_round (suc k) p h =
    let (x, e) = get_elem?_lt p.loops p.next h in
    let q : ThreadPool = record p { next = (p.next + 1) % length p.loops } in
    let regrouped : p.next + 1 + k ≡ p.next + suc k = omega arith in
    rw (step_next_lem p.loops p x (omega arith) e) (
      turn_round k q (omega arith)
      ∙ ap (get_elem? p.loops)
          (mod-add-mod (p.next + 1) (length p.loops) k ∙ ap (λ n. n % length p.loops) regrouped))

step_next_base : (ls : List ℕ) (p : ThreadPool) → ls ≡ [] → step_next ls p ≡ some (p, p.base_loop)
step_next_base [] p h = refl
step_next_base (l ∷ ls) p h = absurd (cc)

-- Without loops every call returns the loop of the main thread.
pub turn_base : (k : ℕ) (p : ThreadPool) → p.loops ≡ [] → turn k p ≡ some p.base_loop
unfolding turn get_next_loop
turn_base zero p h = rw (step_next_base p.loops p h)
turn_base (suc k) p h = rw (step_next_base p.loops p h) (turn_base k p h)

-- The loops of the rounds from `i` on.
abbrev loops_from : (ℕ → ℕ) → ℕ → ℕ → List ℕ
loops_from new_loop zero i = []
loops_from new_loop (suc n) i = new_loop i ∷ loops_from new_loop n (i + 1)

started_lem :
    (new_loop : ℕ → ℕ) (n i : ℕ) (loops : List ℕ)
    → started new_loop n i loops ≡ loops ++ loops_from new_loop n i
started_lem new_loop zero i loops = sym (append-nil loops)
started_lem new_loop (suc n) i loops =
    started_lem new_loop n (i + 1) (loops ++ new_loop i ∷ [])
    ∙ append_assoc loops (new_loop i ∷ []) (loops_from new_loop n (i + 1))

length-loops_from : (new_loop : ℕ → ℕ) (n i : ℕ) → length (loops_from new_loop n i) ≡ n
length-loops_from new_loop zero i = refl
length-loops_from new_loop (suc n) i = ap suc (length-loops_from new_loop n (i + 1))

get_elem?-loops_from :
    (new_loop : ℕ → ℕ) (n i k : ℕ)
    → k < n
    → get_elem? (loops_from new_loop n i) k ≡ some (new_loop (i + k))
get_elem?-loops_from new_loop zero i k h = absurd (omega arith)
get_elem?-loops_from new_loop (suc n) i zero h =
    let e : i ≡ i + 0 = omega arith in ap (λ j. some (new_loop j)) e
get_elem?-loops_from new_loop (suc n) i (suc k) h =
    let e : i + 1 + k ≡ i + suc k = omega arith in
    get_elem?-loops_from new_loop n (i + 1) k (omega arith) ∙ ap (λ j. some (new_loop j)) e

-- A started pool of `n` threads hands out their loops in turn: the call after `k` others returns
-- the loop of thread `k` modulo `n`.
pub turn-start :
    (new_loop : ℕ → ℕ) (base n k : ℕ)
    → 0 < n
    → turn k (start new_loop (make base (pos n))) ≡ some (new_loop (k % n))
unfolding start
turn-start new_loop base n k h =
    let p : ThreadPool = start new_loop (make base (pos n)) in
    let all : p.loops ≡ loops_from new_loop n 0 = started_lem new_loop n 0 [] in
    let count : length p.loops ≡ n = ap length all ∙ length-loops_from new_loop n 0 in
    let low : k % n < n = omega arith in
    let e : 0 + k ≡ k = omega arith in
    let e' : 0 + k % n ≡ k % n = omega arith in
    turn_round k p (omega arith)
    ∙ ap (λ (m : ℕ). get_elem? p.loops ((0 + k) % m)) count
    ∙ rw (e, all) (get_elem?-loops_from new_loop n 0 (k % n) low ∙ ap (λ j. some (new_loop j)) e')
