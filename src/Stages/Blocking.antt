-- ===== src/Stages/Blocking.antt =====
-- main_stage1.cpp: one connection after the other, with calls that block.
use cs_system_lab.Prelude.{
  ℕ, ◌≡◌, refl, ap, ◌∙◌, Bool, true, false, not, ◌&&◌, inl, inr, List, [], ◌∷◌, ◌++◌, take, arith,
  if◌then◌else◌, Bool-cases, append-nil, append_assoc,
}
use cs_system_lab.Prelude.Bytes.{Bytes}
use cs_system_lab.Prelude.Int.{ℤ, pos, negsuc, is_negative}
use cs_system_lab.Stages.{response}

-- What a round of the loop is answered: by `accept`, and by `write`, as the number of bytes that
-- it takes, 0 also where it fails. What `read` answers is only printed.
pub record Round : Type 0 where
  pub conn_fd : ℤ
  pub taken : ℕ

-- What has gone out, by descriptor, and what was closed, in order.
pub record Served : Type 0 where
  pub sent : List (ℤ × Bytes)
  pub closed : List ℤ

-- One round of `while (true)`.
unfoldable pub serve : Round → Served → Served
serve r s = if is_negative r.conn_fd then s else record {
  sent = s.sent ++ (r.conn_fd, take r.taken response) ∷ [];
  closed = s.closed ++ r.conn_fd ∷ [];
}

unfoldable pub serve_all : List Round → Served → Served
serve_all [] s = s
serve_all (r ∷ rs) s = serve_all rs (serve r s)

-- `main` returns with a status, or it serves for ever.
pub data Outcome : Type 0 where
  returned : ℕ → List ℤ → Outcome
  serving : Served → Outcome

-- `main`, with the answers of `socket`, `bind` and `listen`, up to some round of the loop.
unfoldable pub main : ℤ → Bool → Bool → List Round → Outcome
main listen_fd bound listening rounds =
    if is_negative listen_fd
    then returned 1 []
    else if not bound
    then returned 1 (listen_fd ∷ [])
    else if not listening
    then returned 1 (listen_fd ∷ [])
    else serving (serve_all rounds (record { sent = []; closed = [] }))

-- The rounds that got a connection.
abbrev pub visits : List Round → List Round
visits [] = []
visits (r ∷ rs) = let rest = visits rs in if is_negative r.conn_fd then rest else r ∷ rest

abbrev pub fds : List Round → List ℤ
fds [] = []
fds (r ∷ rs) = r.conn_fd ∷ fds rs

abbrev pub answers : List Round → List (ℤ × Bytes)
answers [] = []
answers (r ∷ rs) = (r.conn_fd, take r.taken response) ∷ answers rs

serve_all_lem :
    (rs : List Round) (s : Served)
    → serve_all rs s
      ≡ record { sent = s.sent ++ answers (visits rs); closed = s.closed ++ fds (visits rs) }
unfolding serve_all serve
serve_all_lem [] s = ground (arith, append-nil s.sent, append-nil s.closed)
serve_all_lem (r ∷ rs) s = elim (Bool-cases (is_negative r.conn_fd)) [
  | inl e ↦ rw e (serve_all_lem rs s)
  | inr e ↦ rw e (
      serve_all_lem rs _
      ∙ ap (λ x. record { sent = x; closed = (s.closed ++ r.conn_fd ∷ []) ++ fds (visits rs) })
          (append_assoc s.sent ((r.conn_fd, take r.taken response) ∷ []) (answers (visits rs)))
      ∙ ap (λ x. record { sent = s.sent ++ answers (r ∷ visits rs); closed = x })
          (append_assoc s.closed (r.conn_fd ∷ []) (fds (visits rs))))
]

-- The program serves just if all three calls succeed, and else returns 1, with the listening socket
-- closed if there was one. Serving, it has closed each descriptor that `accept` brought, once and
-- in order, and on each it has written as much of the response as one `write` took; where `accept`
-- failed it went on.
pub main_lem :
    (fd : ℤ) (bound listening : Bool) (rounds : List Round)
    → main fd bound listening rounds ≡ (
        if not (is_negative fd) && (bound && listening)
        then serving (record { sent = answers (visits rounds); closed = fds (visits rounds) })
        else returned 1 (if is_negative fd then [] else fd ∷ []))
unfolding main
main_lem (negsuc n) bound listening rounds = refl
main_lem (pos n) false listening rounds = refl
main_lem (pos n) true false rounds = refl
main_lem (pos n) true true rounds = ap serving (serve_all_lem rounds _)
