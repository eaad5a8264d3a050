-- ===== src/Reactor/Epoll.antt =====
-- epoll-http-server/src/Epoll.h and Epoll.cpp. The kernel is not modelled: an `Epoll` holds the
-- calls of `epoll_ctl` that were made on it, the newest first.
pub mod Waiting
use cs_system_lab.Prelude.{ℕ, ◌≡◌, List, [], ◌∷◌, Option, none, some, if◌then◌else◌}
use cs_system_lab.Prelude.Int.{ℤ, eq_int}

-- `EPOLL_CTL_ADD`, `EPOLL_CTL_MOD` and `EPOLL_CTL_DEL`, with the descriptor, the events and
-- `ev.data.ptr`.
pub data Ctl : Type 0 where
  add : ℤ → ℕ → ℕ → Ctl
  modify : ℤ → ℕ → ℕ → Ctl
  del : ℤ → Ctl

pub record Epoll : Type 0 where
  pub calls : List Ctl

unfoldable pub add_fd : Epoll → ℤ → ℕ → ℕ → Epoll
add_fd e fd events ptr = record { calls = add fd events ptr ∷ e.calls }

unfoldable pub mod_fd : Epoll → ℤ → ℕ → ℕ → Epoll
mod_fd e fd events ptr = record { calls = modify fd events ptr ∷ e.calls }

unfoldable pub del_fd : Epoll → ℤ → Epoll
del_fd e fd = record { calls = del fd ∷ e.calls }

-- What the kernel documents: the interest that a descriptor has after the calls.
pub record Interest : Type 0 where
  pub events : ℕ
  pub ptr : ℕ

unfoldable pub interest : List Ctl → ℤ → Option Interest
unfolding eq_int
interest [] fd = none
interest (add d events ptr ∷ calls) fd =
    if eq_int d fd then some (record { events = events; ptr = ptr }) else interest calls fd
interest (modify d events ptr ∷ calls) fd =
    if eq_int d fd then some (record { events = events; ptr = ptr }) else interest calls fd
interest (del d ∷ calls) fd = if eq_int d fd then none else interest calls fd

-- A call that the kernel does not refuse: ADD of a descriptor that is not there (else EEXIST), MOD
-- and DEL of one that is (else ENOENT).
abbrev pub IsGranted : List Ctl → Ctl → Type 0
IsGranted calls (add d events ptr) = interest calls d ≡ none
IsGranted calls (modify d events ptr) = (i : Interest) × (interest calls d ≡ some i)
IsGranted calls (del d) = (i : Interest) × (interest calls d ≡ some i)

abbrev pub AllGranted : List Ctl → Type 0
AllGranted [] = Unit
AllGranted (c ∷ calls) = IsGranted calls c × AllGranted calls
