-- ===== src/Net/Acceptor.antt =====
-- epoll-http-server/src/Acceptor.h and Acceptor.cpp.
use cs_system_lab.Prelude.{
  ℕ, ◌≡◌, refl, Bool, true, false, not, ◌&&◌, List, [], ◌∷◌, Option, none, some, arith,
  if◌then◌else◌,
}
use cs_system_lab.Prelude.Int.{ℤ, pos, negsuc, is_negative, eq_int_refl}
use cs_system_lab.Reactor.Epoll.{Epoll, interest}
use cs_system_lab.Reactor.Channel.{Channel, make, epollin, enable_reading, disable_all}
use cs_system_lab.Net.Socket.{Socket, wrap, destroy, to_close}

-- The one callback that the acceptor sets on its channel.
pub data AcceptCallback : Type 0 where
  on_accept_callback : AcceptCallback

pub record Acceptor : Type 0 where
  pub listen_socket : Socket
  pub accept_channel : Channel AcceptCallback
  pub started : Bool

-- The constructor, with the answers of `socket`, `bind` and `listen`.
unfoldable pub open_acceptor : ℕ → ℤ → Bool → Bool → Epoll → Epoll × Acceptor
open_acceptor self fd bound listening epoll =
    let a : Acceptor = record {
      listen_socket = wrap fd;
      accept_channel = make self fd;
      started = false;
    } in
    let (epoll', channel) =
      enable_reading epoll (record a.accept_channel { read_callback = some on_accept_callback }) in
    if is_negative fd
    then (epoll, a)
    else if not bound
    then (epoll, a)
    else if not listening
    then (epoll, a)
    else (epoll', record a { accept_channel = channel; started = true })

-- The destructor, and those of the members.
unfoldable pub close_acceptor : Epoll → Acceptor → List ℤ → Epoll × List ℤ
close_acceptor epoll a closed =
    ((disable_all epoll a.accept_channel).0, destroy a.listen_socket closed)

-- An acceptor whose descriptor the epoll does not know runs just if all three calls succeeded; the
-- epoll knows the descriptor, for input, just if it runs, and no longer when it is destroyed, and
-- then the descriptor is closed just if there is one.
open_acceptor_lem :
    (self : ℕ) (fd : ℤ) (bound listening : Bool) (epoll : Epoll) (closed : List ℤ)
    → interest epoll.calls fd ≡ none
    → let (e, a) = open_acceptor self fd bound listening epoll in
      let (e', closed') = close_acceptor e a closed in
      (a.started ≡ (not (is_negative fd) && (bound && listening)))
      × (interest e.calls fd
          ≡ (if a.started then some (record { events = epollin; ptr = self }) else none))
      × (interest e'.calls fd ≡ none)
      × (closed' ≡ (if is_negative fd then closed else fd ∷ closed))
unfolding open_acceptor close_acceptor interest enable_reading disable_all destroy to_close
open_acceptor_lem self (negsuc n) bound listening epoll closed h = (refl, h, h, refl)
open_acceptor_lem self (pos n) false listening epoll closed h = (refl, h, h, refl)
open_acceptor_lem self (pos n) true false epoll closed h = (refl, h, h, refl)
open_acceptor_lem self (pos n) true true epoll closed h =
    (refl, ground (arith, eq_int_refl (pos n)), ground (arith, eq_int_refl (pos n)), refl)

module _ {S : Type 0} (callback : Option (ℤ → S → S)) where
  -- One accepted descriptor; next to the callback's state stand the descriptors that were closed.
  abbrev accept_one : Option (ℤ → S → S) → ℤ → S × List ℤ → S × List ℤ
  accept_one (some f) fd (s, closed) = (f fd s, closed)
  accept_one none fd (s, closed) = (s, fd ∷ closed)

  -- `onAccept`: the answers of `accept`, in order; behind those of the list it fails.
  unfoldable pub on_accept : List ℤ → S × List ℤ → S × List ℤ
  on_accept [] w = w
  on_accept (fd ∷ fds) w =
      let rest = on_accept fds (accept_one callback fd w) in if is_negative fd then w else rest
