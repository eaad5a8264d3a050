-- ===== src/Stages/SubReactors/Starting.antt =====
-- ReactorServer of main_stage3.cpp: its constructor, `start`, and how the thread of the acceptor
-- hands the connections to the loops.
use cs_system_lab.Prelude.{
  ℕ, suc, ◌%◌, ◌≡◌, refl, sym, ap, ◌∙◌, Bool, true, false, not, inl, inr, List, [], ◌∷◌, ◌++◌,
  Option, none, some, arith, append-nil, append_assoc, ◌==◌, ==_refl, if◌then◌else◌, Bool-cases,
}
use cs_system_lab.Prelude.Int.{ℤ, pos, is_negative}
use cs_system_lab.Reactor.Epoll.{Epoll}
use cs_system_lab.Reactor.ThreadPool
use cs_system_lab.Reactor.ThreadPool.{ThreadPool, get_next_loop, turn-start}
use cs_system_lab.Net.Acceptor.{Acceptor, open_acceptor, on_accept}
use cs_system_lab.Server.Accepting.{accepted_fds, shared, Hands, Hands-next}
use cs_system_lab.Stages.SubReactors.{System, nothing_yet, on_new_connection}

pub record ReactorServer : Type 0 where
  pub acceptor : Acceptor
  pub pool : ThreadPool

-- The argument of the constructor, by default and in `main`.
abbrev pub num_threads : ℤ
num_threads = pos 4

-- The constructor, with the address of the channel, the answers of `socket`, `bind` and `listen`,
-- and the loop of the main thread.
unfoldable pub create : ℕ → ℤ → Bool → Bool → ℕ → Epoll → Epoll × ReactorServer
create self fd bound listening base epoll =
    let (epoll', a) = open_acceptor self fd bound listening epoll in
    (epoll', record { acceptor = a; pool = ThreadPool.make base num_threads })

-- `start`; `new_loop` is as for the pool.
unfoldable pub start : (ℕ → ℕ) → ReactorServer → ReactorServer × Bool
start new_loop s =
    if not s.acceptor.started
    then (s, false)
    else (record s { pool = ThreadPool.start new_loop s.pool }, true)

-- `main`: its status, if it returns, or the server that runs.
unfoldable pub main : (ℕ → ℕ) → ReactorServer → Option ℕ × ReactorServer
main new_loop s = let (s', ok) = start new_loop s in if not ok then (some 1, s') else (none, s')

-- `onNewConnection`, with its call of `getNextLoop`.
abbrev with_loop : ℤ → ThreadPool × System → Option (ThreadPool × ℕ) → ThreadPool × System
with_loop fd w none = w
with_loop fd (p, s) (some (pool, l)) = (pool, on_new_connection fd l s)

unfoldable pub dispatch_client : ℤ → ThreadPool × System → ThreadPool × System
dispatch_client fd (p, s) = with_loop fd (p, s) (get_next_loop p)

-- The descriptors that are handed to one loop.
abbrev pub handed_to : ℕ → List (ℕ × ℤ) → List ℤ
handed_to l [] = []
handed_to l ((k, fd) ∷ pairs) = let rest = handed_to l pairs in if k == l then fd ∷ rest else rest

on_new_connection-handed :
    (l k : ℕ) (fd : ℤ) (s : System)
    → (on_new_connection fd k s).handed l ≡ s.handed l ++ handed_to l ((k, fd) ∷ [])
unfolding on_new_connection
on_new_connection-handed l k fd s = elim (Bool-cases (k == l)) [
  | inl e ↦ let same : k ≡ l = ground arith in rw (same, ==_refl l) refl
  | inr e ↦ rw (e, append-nil (s.handed l)) refl
]

handed_to-append :
    (l : ℕ) (xs ys : List (ℕ × ℤ)) → handed_to l (xs ++ ys) ≡ handed_to l xs ++ handed_to l ys
handed_to-append l [] ys = refl
handed_to-append l ((k, fd) ∷ xs) ys = elim (Bool-cases (k == l)) [
  | inl e ↦ rw (e, handed_to-append l xs ys) refl
  | inr e ↦ rw (e, handed_to-append l xs ys) refl
]

on_accept-handed :
    (l : ℕ) (f : ℕ → ℕ) (fds : List ℤ) (p : ThreadPool) (s : System) (closed : List ℤ)
    → Hands f p
    → ((on_accept (some dispatch_client) fds ((p, s), closed)).0.1.handed l
        ≡ s.handed l ++ handed_to l (shared f (accepted_fds fds)))
      × ((on_accept (some dispatch_client) fds ((p, s), closed)).1 ≡ closed)
unfolding on_accept dispatch_client
on_accept-handed l f [] p s closed h = (sym (append-nil (s.handed l)), refl)
on_accept-handed l f (fd ∷ fds) p s closed h = elim (Bool-cases (is_negative fd)) [
  | inl e ↦ rw e (sym (append-nil (s.handed l)), refl)
  | inr e ↦
      let (q, next, rest) = Hands-next f p h in
      let s' = on_new_connection fd (f 0) s in
      let later = shared (λ k. f (suc k)) (accepted_fds fds) in
      let (handed, kept) = on_accept-handed l (λ k. f (suc k)) fds q s' closed rest in
      rw (e, next)
        (
          handed
              ∙ ap (λ fs. fs ++ handed_to l later) (on_new_connection-handed l (f 0) fd s)
              ∙ append_assoc (s.handed l) (handed_to l ((f 0, fd) ∷ [])) (handed_to l later)
              ∙ ap (λ fs. s.handed l ++ fs) (sym (handed_to-append l ((f 0, fd) ∷ []) later)),
          kept,
        )
]

-- The program does not return where `socket`, `bind` and `listen` succeed. It then hands the
-- connections that `accept` brings before its first failure to its four threads in turn: the queue
-- of a loop holds in order those that are its turn, and no other; none is closed.
pub main-create :
    (self : ℕ) (fd : ℤ) (bound listening : Bool) (base : ℕ) (epoll : Epoll) (new_loop : ℕ → ℕ)
    (fds closed : List ℤ) (l : ℕ)
    → is_negative fd ≡ false
    → bound ≡ true
    → listening ≡ true
    → let (e, s) = create self fd bound listening base epoll in
      let (status, s') = main new_loop s in
      let ((p, t), closed') =
        on_accept (some dispatch_client) fds ((s'.pool, nothing_yet), closed) in
      (status ≡ none)
      × (t.handed l ≡ handed_to l (shared (λ i. new_loop (i % 4)) (accepted_fds fds)))
      × (closed' ≡ closed)
unfolding create start main open_acceptor
main-create self fd bound listening base epoll new_loop fds closed l up b h =
    let (handed, kept) =
      on_accept-handed l (λ i. new_loop (i % 4)) fds
        (ThreadPool.start new_loop (ThreadPool.make base num_threads)) nothing_yet closed
        (λ k. turn-start new_loop base 4 k (omega arith)) in
    rw (up, b, h) (refl, handed, kept)
