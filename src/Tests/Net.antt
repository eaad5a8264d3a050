-- ===== src/Tests/Net.antt =====
-- Net and Server/Accepting at concrete descriptors.
use cs_system_lab.Prelude.{false, ◌+◌, ◌≡◌, refl, true, List, [], ◌∷◌, none, some, arith}
use cs_system_lab.Prelude.Int.{ℤ, pos, negsuc}
use cs_system_lab.Reactor.Epoll.{Epoll}
use cs_system_lab.Reactor.ThreadPool
use cs_system_lab.Prelude.Bytes.{Bytes, codes}
use cs_system_lab.Net.Socket.Calls.{address, bind, bind_call, inaddr_any}
use cs_system_lab.Net.Socket.{wrap, destroy, to_close, move_assign, release}
use cs_system_lab.Net.Socket.Ownership.{
  Op, make_of, assign_to, release_of, destroy_of, step, steps, no_objects, count, owners,
  owners_balance,
}
use cs_system_lab.Net.Acceptor.{Acceptor, open_acceptor, on_accept}
use cs_system_lab.Server.Accepting.{
  Accepting, on_new_connection, start_server, on_accept-start_server,
}

-- Two sockets, one moved over the other, then released and destroyed.
abbrev ops : List Op
ops =
    make_of (pos 4)
    ∷ make_of (pos 5)
    ∷ assign_to 0 1
    ∷ release_of 0
    ∷ destroy_of 0
    ∷ destroy_of 1
    ∷ []

ops_result :
    ((steps ops no_objects).closed ≡ pos 4 ∷ []) × ((steps ops no_objects).released ≡ pos 5 ∷ [])
unfolding steps step destroy to_close move_assign release
ops_result = (refl, refl)

owners_balance_example :
    count (pos 4) (steps ops no_objects).opened
    ≡ count (pos 4) (steps ops no_objects).closed
      + count (pos 4) (steps ops no_objects).released
      + owners (pos 4) (steps ops no_objects).sockets
owners_balance_example = owners_balance 4 ops

abbrev empty : Epoll
empty = record { calls = [] }

-- A server with two threads.
abbrev listening : Acceptor
listening = (open_acceptor 9 (pos 3) true true empty).1

abbrev server : Accepting
server = record {
  pool = (start_server (λ i. i + 100) listening (ThreadPool.make 1 (pos 2))).0;
  handed = [];
  dropped = [];
}

abbrev answers : List ℤ
answers = pos 7 ∷ pos 8 ∷ pos 9 ∷ negsuc 0 ∷ []

on_accept-start_server_example :
    ((start_server (λ i. i + 100) listening (ThreadPool.make 1 (pos 2))).1 ≡ true)
    × ((on_accept (some on_new_connection) answers (server, [])).0.handed
        ≡ (100, pos 7) ∷ (101, pos 8) ∷ (100, pos 9) ∷ [])
    × ((on_accept (some on_new_connection) answers (server, [])).0.dropped ≡ [])
    × ((on_accept (some on_new_connection) answers (server, [])).1 ≡ [])
unfolding open_acceptor
on_accept-start_server_example =
    on_accept-start_server (λ i. i + 100) listening 1 2 answers [] refl (omega arith)

-- A text that is no address, which `inet_pton` leaves without a change.
abbrev no_address : Bytes → Bytes → Bytes
no_address text before = before

bind_any :
    bind no_address (pos 0) (some (codes "localhost")) (pos 8080) (wrap (pos 3))
    ≡ (bind_call (pos 3) (record { family = 2; port = 31 ∷ 144 ∷ []; host = inaddr_any }), true)
unfolding bind address
bind_any = refl

bind_refused : (bind no_address (negsuc 0) none (pos 80) (wrap (pos 3))).1 ≡ false
unfolding bind address
bind_refused = refl
