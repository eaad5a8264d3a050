-- ===== src/Net/Socket.antt =====
-- epoll-http-server/src/Socket.h and Socket.cpp: which object closes which descriptor. What the
-- members ask of the system is in Calls. Next to the objects stand the descriptors that
-- were closed, the latest first.
pub mod Ownership
pub mod Calls
use cs_system_lab.Prelude.{
  ℕ, zero, suc, ◌+◌, Bool, true, false, not, ◌&&◌, List, [], ◌∷◌, ◌++◌, Option, none, some,
  get_elem?, ◌==◌, if◌then◌else◌,
}
use cs_system_lab.Prelude.Int.{ℤ, negsuc, is_negative}

pub record Socket : Type 0 where
  pub fd : ℤ
  pub owned : Bool

-- `Socket(int)`, and `Socket()` with the answer of `socket`.
abbrev pub wrap : ℤ → Socket
wrap fd = record { fd = fd; owned = true }

-- What a moved-from object is left with.
abbrev pub moved : Socket
moved = record { fd = negsuc 0; owned = false }

-- The descriptor that the destructor closes, if any.
unfoldable pub to_close : Socket → List ℤ
to_close s = if s.owned && not (is_negative s.fd) then s.fd ∷ [] else []

unfoldable pub destroy : Socket → List ℤ → List ℤ
destroy s closed = to_close s ++ closed

-- `Socket(Socket&&)`: the new object, and the other.
unfoldable pub move : Socket → Socket × Socket
move other = (record { fd = other.fd; owned = other.owned }, moved)

-- `operator=(Socket&&)` between two objects: this one, the other, and what is closed.
unfoldable pub move_assign : Socket → Socket → List ℤ → Socket × Socket × List ℤ
move_assign s other closed =
    (record { fd = other.fd; owned = other.owned }, moved, to_close s ++ closed)

-- `release()`: the object, and the descriptor that is returned.
unfoldable pub release : Socket → Socket × ℤ
release s = (record s { owned = false }, s.fd)
