-- ===== src/Server/Accepting.antt =====
-- `HttpServer::onNewConnection`, in the thread of the acceptor: which loop gets a connection.
use cs_system_lab.Prelude.{
  Bool, true, false, not, ℕ, suc, ◌%◌, ◌<◌, ◌≡◌, refl, sym, ap, ◌∙◌, inl, inr, List, [], ◌∷◌, ◌++◌,
  Option, none, some, append-nil, append_assoc, if◌then◌else◌, Bool-cases,
}
use cs_system_lab.Prelude.Int.{ℤ, pos, is_negative}
use mathlib.Core.Option
use cs_system_lab.Reactor.ThreadPool
use cs_system_lab.Reactor.ThreadPool.{ThreadPool, get_next_loop, turn, turn_after, turn-start}
use cs_system_lab.Net.Acceptor.{Acceptor, on_accept}
use cs_system_lab.Net.Socket.{wrap, release, destroy, to_close}

-- `HttpServer::start`: the pool and the answer; `new_loop` is as for the pool.
unfoldable pub start_server : (ℕ → ℕ) → Acceptor → ThreadPool → ThreadPool × Bool
start_server new_loop a pool =
    if not a.started then (pool, false) else (ThreadPool.start new_loop pool, true)

-- The pool, and the functors that make the connections: each as its loop and its descriptor, in
-- the order in which they were handed to `runInLoop`. `dropped` are the descriptors that the local
-- Socket of `onNewConnection` closed when it went out of scope.
pub record Accepting : Type 0 where
  pub pool : ThreadPool
  pub handed : List (ℕ × ℤ)
  pub dropped : List ℤ

-- The rest of the member function behind its call of `getNextLoop`; `none` is a read out of bounds there.
abbrev with_loop : ℤ → Accepting → Option (ThreadPool × ℕ) → Accepting
with_loop fd w none = w
with_loop fd w (some (pool, loop)) = record w { pool = pool; handed = w.handed ++ (loop, fd) ∷ [] }

unfoldable pub on_new_connection : ℤ → Accepting → Accepting
on_new_connection fd w =
    let (sock, same) = release (wrap fd) in
    with_loop fd (record w { dropped = destroy sock w.dropped }) (get_next_loop w.pool)

released_kept : (fd : ℤ) (closed : List ℤ) → destroy (release (wrap fd)).0 closed ≡ closed
unfolding destroy to_close release
released_kept fd closed = refl

-- The answers of `accept` before the first failure.
abbrev pub accepted_fds : List ℤ → List ℤ
accepted_fds [] = []
accepted_fds (fd ∷ fds) = let rest = accepted_fds fds in if is_negative fd then [] else fd ∷ rest

-- Descriptor `i` of the list with loop `f i`.
abbrev pub shared : (ℕ → ℕ) → List ℤ → List (ℕ × ℤ)
shared f [] = []
shared f (fd ∷ fds) = (f 0, fd) ∷ shared (λ k. f (suc k)) fds

-- A pool whose next calls return `f 0`, `f 1` and so on.
abbrev pub Hands : (ℕ → ℕ) → ThreadPool → Type 0
Hands f p = (k : ℕ) → turn k p ≡ some (f k)

first_call :
    (f : ℕ → ℕ) (o : Option (ThreadPool × ℕ))
    → Option.map (λ q. q.1) o ≡ some (f 0)
    → ((k : ℕ) → turn_after (turn k) o ≡ some (f (suc k)))
    → (q : ThreadPool) × (o ≡ some (q, f 0)) × Hands (λ k. f (suc k)) q
first_call f none e h = absurd (cc)
first_call f (some (q, l)) e h = let same : l ≡ f 0 = cc in (q, ap (λ m. some (q, m)) same, h)

pub Hands-next :
    (f : ℕ → ℕ) (p : ThreadPool)
    → Hands f p
    → (q : ThreadPool) × (get_next_loop p ≡ some (q, f 0)) × Hands (λ k. f (suc k)) q
unfolding turn
Hands-next f p h = first_call f (get_next_loop p) (h 0) (λ k. h (suc k))

on_accept-handed :
    (f : ℕ → ℕ) (fds : List ℤ) (w : Accepting) (closed : List ℤ)
    → Hands f w.pool
    → ((on_accept (some on_new_connection) fds (w, closed)).0.handed
        ≡ w.handed ++ shared f (accepted_fds fds))
      × ((on_accept (some on_new_connection) fds (w, closed)).0.dropped ≡ w.dropped)
      × ((on_accept (some on_new_connection) fds (w, closed)).1 ≡ closed)
unfolding on_accept on_new_connection
on_accept-handed f [] w closed h = (sym (append-nil w.handed), refl, refl)
on_accept-handed f (fd ∷ fds) w closed h = elim (Bool-cases (is_negative fd)) [
  | inl e ↦ rw e (sym (append-nil w.handed), refl, refl)
  | inr e ↦
      let (q, next, rest) = Hands-next f w.pool h in
      let v : Accepting = record w { pool = q; handed = w.handed ++ (f 0, fd) ∷ [] } in
      let (handed, dropped, kept) = on_accept-handed (λ k. f (suc k)) fds v closed rest in
      rw (e, released_kept fd w.dropped, next)
        (
          handed
              ∙ append_assoc w.handed ((f 0, fd) ∷ []) (shared (λ k. f (suc k)) (accepted_fds fds)),
          dropped,
          kept,
        )
]

-- A server whose acceptor runs starts, and with `n` threads it hands the connections that `accept`
-- brings before its first failure to the loops of the threads in turn, connection `i` to that of
-- thread `i` modulo `n`, each once and in order; it closes none, and neither does the Socket that
-- wraps each of them for a while.
pub on_accept-start_server :
    (new_loop : ℕ → ℕ) (a : Acceptor) (base n : ℕ) (fds closed : List ℤ)
    → a.started ≡ true
    → 0 < n
    → let (pool, ok) = start_server new_loop a (ThreadPool.make base (pos n)) in
      let w : Accepting = record { pool = pool; handed = []; dropped = [] } in
      (ok ≡ true)
      × ((on_accept (some on_new_connection) fds (w, closed)).0.handed
          ≡ shared (λ i. new_loop (i % n)) (accepted_fds fds))
      × ((on_accept (some on_new_connection) fds (w, closed)).0.dropped ≡ [])
      × ((on_accept (some on_new_connection) fds (w, closed)).1 ≡ closed)
unfolding start_server
on_accept-start_server new_loop a base n fds closed e h =
    let (handed, dropped, kept) =
      on_accept-handed (λ i. new_loop (i % n)) fds _ closed (λ k. turn-start new_loop base n k h) in
    rw e (refl, handed, dropped, kept)
