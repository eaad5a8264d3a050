-- ===== src/Server/Registry.antt =====
-- The map `connections_` of HttpServer, where the acceptor and the connections share one loop
-- (`numThreads` 0): `onNewConnection` stores a connection at once, and `removeConnection` queues its
-- erasure for the end of the turn of the loop.
use cs_system_lab.Prelude.{
  ℕ, ◌≡◌, refl, ◌∙◌, Bool, false, ◌||◌, List, [], ◌∷◌, ◌++◌, Option, none, some, arith,
  if◌then◌else◌,
}
use cs_system_lab.Prelude.Int.{ℤ, eq_int, eq_int_refl, eq_int→eq}

-- A connection is known by a number, its address.
pub record Registry : Type 0 where
  pub connections : List (ℤ × ℕ)
  pub pending_functors : List ℤ

unfoldable pub find_connection {ℓ} : {V : Type ℓ} → ℤ → List (ℤ × V) → Option V
find_connection fd [] = none
find_connection fd ((d, c) ∷ m) =
    let rest = find_connection fd m in if eq_int d fd then some c else rest

-- `connections_[fd] = c`
unfoldable pub put_connection {ℓ} : {V : Type ℓ} → ℤ → V → List (ℤ × V) → List (ℤ × V)
put_connection fd c [] = (fd, c) ∷ []
put_connection fd c ((d, e) ∷ m) =
    let rest = put_connection fd c m in if eq_int d fd then (d, c) ∷ m else (d, e) ∷ rest

-- `connections_.erase(fd)`
unfoldable pub erase_connection {ℓ} : {V : Type ℓ} → ℤ → List (ℤ × V) → List (ℤ × V)
erase_connection fd [] = []
erase_connection fd ((d, e) ∷ m) =
    let rest = erase_connection fd m in if eq_int d fd then rest else (d, e) ∷ rest

-- What handlers do in a turn: a connection is accepted and stored; `removeConnection` runs for one.
pub data Happening : Type 0 where
  arrives : ℤ → ℕ → Happening
  leaves : ℤ → Happening

unfoldable pub happen : Happening → Registry → Registry
happen (arrives fd c) r = record r { connections = put_connection fd c r.connections }
happen (leaves fd) r = record r { pending_functors = r.pending_functors ++ fd ∷ [] }

unfoldable pub happen_all : List Happening → Registry → Registry
happen_all [] r = r
happen_all (h ∷ hs) r = happen_all hs (happen h r)

unfoldable pub erase_all : List ℤ → List (ℤ × ℕ) → List (ℤ × ℕ)
erase_all [] m = m
erase_all (fd ∷ fds) m = erase_all fds (erase_connection fd m)

-- One turn of the loop.
unfoldable pub loop_turn : List Happening → Registry → Registry
loop_turn hs r =
    let r' = happen_all hs r in
    record { connections = erase_all r'.pending_functors r'.connections; pending_functors = [] }

-- The connections that are open, by descriptor.
abbrev pub opens : List Happening → (ℤ → Option ℕ) → ℤ → Option ℕ
opens [] m = m
opens (arrives fd c ∷ hs) m = opens hs (λ d. if eq_int fd d then some c else m d)
opens (leaves fd ∷ hs) m = opens hs (λ d. if eq_int fd d then none else m d)

unfoldable pub is_queued : ℤ → List ℤ → Bool
is_queued fd [] = false
is_queued fd (d ∷ ds) = eq_int d fd || is_queued fd ds

-- No descriptor arrives while its erasure is queued.
abbrev pub IsApart : List Happening → List ℤ → Type 0
IsApart [] queue = Unit
IsApart (arrives fd c ∷ hs) queue = (is_queued fd queue ≡ false) × IsApart hs queue
IsApart (leaves fd ∷ hs) queue = IsApart hs (queue ++ fd ∷ [])

pub find_connection-put_connection {ℓ} :
    {V : Type ℓ} (fd d : ℤ) (c : V) (m : List (ℤ × V))
    → find_connection d (put_connection fd c m)
      ≡ (if eq_int fd d then some c else find_connection d m)
unfolding find_connection put_connection
find_connection-put_connection fd d c [] = refl
find_connection-put_connection fd d c ((e, x) ∷ m) = ground (
  arith,
  eq_int→eq e fd,
  eq_int→eq e d,
  eq_int→eq fd d,
  eq_int_refl fd,
  eq_int_refl d,
  find_connection-put_connection fd d c m,
)

pub find_connection-erase_connection {ℓ} :
    {V : Type ℓ} (fd d : ℤ) (m : List (ℤ × V))
    → find_connection d (erase_connection fd m)
      ≡ (if eq_int fd d then none else find_connection d m)
unfolding find_connection erase_connection
find_connection-erase_connection fd d [] = ground arith
find_connection-erase_connection fd d ((e, x) ∷ m) = ground (
  arith,
  eq_int→eq e fd,
  eq_int→eq e d,
  eq_int→eq fd d,
  eq_int_refl fd,
  eq_int_refl d,
  find_connection-erase_connection fd d m,
)

pub is_queued-append :
    (d fd : ℤ) (queue : List ℤ)
    → is_queued d (queue ++ fd ∷ []) ≡ (is_queued d queue || eq_int fd d)
unfolding is_queued
is_queued-append d fd [] = ground arith
is_queued-append d fd (q ∷ queue) = ground (arith, is_queued-append d fd queue)

find_connection-erase_all :
    (d : ℤ) (queue : List ℤ) (m : List (ℤ × ℕ))
    → find_connection d (erase_all queue m)
      ≡ (if is_queued d queue then none else find_connection d m)
unfolding erase_all is_queued
find_connection-erase_all d [] m = refl
find_connection-erase_all d (q ∷ queue) m = ground (
  arith,
  find_connection-erase_all d queue (erase_connection q m),
  find_connection-erase_connection q d m,
)

-- In the course of a turn, what is stored and not queued is what is open.
abbrev Agrees : (ℤ → Option ℕ) → Registry → Type 0
Agrees m r =
    (d : ℤ)
    → (if is_queued d r.pending_functors then none else find_connection d r.connections) ≡ m d

happen_all-Agrees :
    (hs : List Happening) (r : Registry) (m : ℤ → Option ℕ)
    → IsApart hs r.pending_functors
    → Agrees m r
    → Agrees (opens hs m) (happen_all hs r)
unfolding happen_all happen
happen_all-Agrees [] r m a v = v
happen_all-Agrees (arrives fd c ∷ hs) r m (free, a) v = happen_all-Agrees hs _ _ a (λ d.
    ground (arith, v d, find_connection-put_connection fd d c r.connections, eq_int→eq fd d, free))
happen_all-Agrees (leaves fd ∷ hs) r m a v =
    happen_all-Agrees hs _ _ a (λ d. ground (arith, v d, is_queued-append d fd r.pending_functors))

-- After a turn that began with no erasure queued, the map holds the connections that are open and
-- no others, whatever arrived and left in it, provided that no descriptor arrived between its own
-- leaving and the end of the turn.
loop_turn-opens :
    (hs : List Happening) (connections : List (ℤ × ℕ)) (d : ℤ)
    → IsApart hs []
    → find_connection d
        (loop_turn hs (record { connections = connections; pending_functors = [] })).connections
      ≡ opens hs (λ fd. find_connection fd connections) d
unfolding loop_turn is_queued
loop_turn-opens hs connections d a =
    let r : Registry = record { connections = connections; pending_functors = [] } in
    find_connection-erase_all d (happen_all hs r).pending_functors (happen_all hs r).connections
    ∙ happen_all-Agrees hs r (λ fd. find_connection fd connections) a (λ fd. refl) d
