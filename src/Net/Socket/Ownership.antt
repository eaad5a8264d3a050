-- ===== src/Net/Socket/Ownership.antt =====
-- Programs that make, move, assign, release and destroy sockets, and the owners of a
-- descriptor.
use cs_system_lab.Prelude.{
  ℕ, zero, suc, ◌+◌, ◌≡◌, ◌≢◌, refl, ap, ◌∙◌, inl, inr, List, [], ◌∷◌, ◌++◌, Option, none, some,
  arith, get_elem?, ◌==◌, if◌then◌else◌, Bool-cases,
}
use cs_system_lab.Prelude.Int.{ℤ, pos, eq_int, eq_int→eq}
use cs_system_lab.Net.Socket.{Socket, wrap, moved, to_close, destroy, move, move_assign, release}

-- The objects of a program, by number; the slot of a destroyed object owns nothing. `opened`,
-- `closed` and `released` are the descriptors that were wrapped, closed, and given back to the
-- program by their owner.
pub record Objects : Type 0 where
  pub sockets : List Socket
  pub opened : List ℤ
  pub closed : List ℤ
  pub released : List ℤ

pub data Op : Type 0 where
  make_of : ℤ → Op
  move_of : ℕ → Op
  assign_to : ℕ → ℕ → Op
  release_of destroy_of : ℕ → Op

abbrev pub set_slot : ℕ → Socket → List Socket → List Socket
set_slot i s [] = []
set_slot zero s (t ∷ ss) = s ∷ ss
set_slot (suc i) s (t ∷ ss) = t ∷ set_slot i s ss

abbrev make_step : ℤ → Objects → Objects
make_step fd w = record w { sockets = w.sockets ++ wrap fd ∷ []; opened = fd ∷ w.opened }

-- A step on an object that is not there does nothing.
abbrev move_step : ℕ → Option Socket → Objects → Objects
move_step i none w = w
move_step i (some s) w =
    let (new, old) = move s in record w { sockets = set_slot i old w.sockets ++ new ∷ [] }

abbrev assign_step : ℕ → ℕ → Option Socket → Option Socket → Objects → Objects
assign_step i j (some s) (some t) w =
    let (s', t', closed) = move_assign s t w.closed in
    record w { sockets = set_slot j t' (set_slot i s' w.sockets); closed = closed }
assign_step i j _ _ w = w

abbrev release_step : ℕ → Option Socket → Objects → Objects
release_step i none w = w
release_step i (some s) w = record w {
  sockets = set_slot i (release s).0 w.sockets;
  released = if s.owned then (release s).1 ∷ w.released else w.released;
}

abbrev destroy_step : ℕ → Option Socket → Objects → Objects
destroy_step i none w = w
destroy_step i (some s) w = record w {
  sockets = set_slot i moved w.sockets;
  closed = destroy s w.closed;
}

unfoldable pub step : Op → Objects → Objects
step (make_of fd) w = make_step fd w
step (move_of i) w = move_step i (get_elem? w.sockets i) w
step (assign_to i j) w =
    if i == j then w else assign_step i j (get_elem? w.sockets i) (get_elem? w.sockets j) w
step (release_of i) w = release_step i (get_elem? w.sockets i) w
step (destroy_of i) w = destroy_step i (get_elem? w.sockets i) w

unfoldable pub steps : List Op → Objects → Objects
steps [] w = w
steps (op ∷ ops) w = steps ops (step op w)

-- How often a descriptor is in a list, and how many objects own it.
abbrev pub count : ℤ → List ℤ → ℕ
count fd [] = 0
count fd (d ∷ ds) = (if eq_int fd d then 1 else 0) + count fd ds

abbrev owns : ℤ → Socket → ℕ
owns fd s = if s.owned then (if eq_int fd s.fd then 1 else 0) else 0

abbrev pub owners : ℤ → List Socket → ℕ
owners fd [] = 0
owners fd (s ∷ ss) = owns fd s + owners fd ss

pub count-append : (fd : ℤ) (xs ys : List ℤ) → count fd (xs ++ ys) ≡ count fd xs + count fd ys
count-append fd [] ys = omega arith
count-append fd (x ∷ xs) ys = omega (arith, count-append fd xs ys)

-- The destructor closes what the object owns.
count-to_close : (n : ℕ) (s : Socket) → count (pos n) (to_close s) ≡ owns (pos n) s
unfolding to_close
count-to_close n s = ground (arith, eq_int→eq (pos n) s.fd)

module _ (fd : ℤ) where
  owners-append : (xs ys : List Socket) → owners fd (xs ++ ys) ≡ owners fd xs + owners fd ys
  owners-append [] ys = omega arith
  owners-append (x ∷ xs) ys = omega (arith, owners-append xs ys)

  owners-set_slot :
      (i : ℕ) (ss : List Socket) (s t : Socket)
      → get_elem? ss i ≡ some s
      → owners fd (set_slot i t ss) + owns fd s ≡ owners fd ss + owns fd t
  owners-set_slot i [] s t h = absurd (cc)
  owners-set_slot zero (u ∷ ss) s t h =
      let e : owns fd u ≡ owns fd s = (let same : u ≡ s = cc in ap (owns fd) same) in
      omega (arith, e)
  owners-set_slot (suc i) (u ∷ ss) s t h = omega (arith, owners-set_slot i ss s t h)

  -- No object owns a descriptor twice over, and none is lost.
  abbrev pub Balanced : Objects → Type 0
  Balanced w = count fd w.opened ≡ count fd w.closed + count fd w.released + owners fd w.sockets

get_elem?-set_slot :
    (i j : ℕ) (s : Socket) (ss : List Socket)
    → i ≢ j
    → get_elem? (set_slot i s ss) j ≡ get_elem? ss j
get_elem?-set_slot i j s [] h = refl
get_elem?-set_slot zero zero s (t ∷ ss) h = absurd (h refl)
get_elem?-set_slot zero (suc j) s (t ∷ ss) h = refl
get_elem?-set_slot (suc i) zero s (t ∷ ss) h = refl
get_elem?-set_slot (suc i) (suc j) s (t ∷ ss) h = get_elem?-set_slot i j s ss (omega arith)

module _ (n : ℕ) where
  abbrev fd : ℤ
  fd = pos n

  move_step-Balanced :
      (i : ℕ) (o : Option Socket) (w : Objects)
      → get_elem? w.sockets i ≡ o
      → Balanced fd w
      → Balanced fd (move_step i o w)
  unfolding move
  move_step-Balanced i none w h b = b
  move_step-Balanced i (some s) w h b = omega (
    arith,
    owners-set_slot fd i w.sockets s moved h,
    owners-append fd (set_slot i moved w.sockets) (s ∷ []),
  )

  assign_step-Balanced :
      (i j : ℕ) (o p : Option Socket) (w : Objects)
      → i ≢ j
      → get_elem? w.sockets i ≡ o
      → get_elem? w.sockets j ≡ p
      → Balanced fd w
      → Balanced fd (assign_step i j o p w)
  unfolding move_assign
  assign_step-Balanced i j none p w d h k b = b
  assign_step-Balanced i j (some s) none w d h k b = b
  assign_step-Balanced i j (some s) (some t) w d h k b = omega (
    arith,
    owners-set_slot fd i w.sockets s t h,
    owners-set_slot fd j (set_slot i t w.sockets) t moved
        (get_elem?-set_slot i j t w.sockets d ∙ k),
    count-append fd (to_close s) w.closed,
    count-to_close n s,
  )

  release_step-Balanced :
      (i : ℕ) (o : Option Socket) (w : Objects)
      → get_elem? w.sockets i ≡ o
      → Balanced fd w
      → Balanced fd (release_step i o w)
  unfolding release
  release_step-Balanced i none w h b = b
  release_step-Balanced i (some s) w h b =
      ground (arith, owners-set_slot fd i w.sockets s (release s).0 h)

  destroy_step-Balanced :
      (i : ℕ) (o : Option Socket) (w : Objects)
      → get_elem? w.sockets i ≡ o
      → Balanced fd w
      → Balanced fd (destroy_step i o w)
  unfolding destroy
  destroy_step-Balanced i none w h b = b
  destroy_step-Balanced i (some s) w h b = omega (
    arith,
    owners-set_slot fd i w.sockets s moved h,
    count-append fd (to_close s) w.closed,
    count-to_close n s,
  )

  step-Balanced : (op : Op) (w : Objects) → Balanced fd w → Balanced fd (step op w)
  unfolding step
  step-Balanced (make_of d) w b = omega (arith, owners-append fd w.sockets (wrap d ∷ []))
  step-Balanced (move_of i) w b = move_step-Balanced i _ w refl b
  step-Balanced (assign_to i j) w b = elim (Bool-cases (i == j)) [
    | inl e ↦ rw e b
    | inr e ↦ rw e (assign_step-Balanced i j _ _ w (ground arith) refl refl b)
  ]
  step-Balanced (release_of i) w b = release_step-Balanced i _ w refl b
  step-Balanced (destroy_of i) w b = destroy_step-Balanced i _ w refl b

  steps-Balanced : (ops : List Op) (w : Objects) → Balanced fd w → Balanced fd (steps ops w)
  unfolding steps
  steps-Balanced [] w b = b
  steps-Balanced (op ∷ ops) w b = steps-Balanced ops (step op w) (step-Balanced op w b)

abbrev pub no_objects : Objects
no_objects = record { sockets = []; opened = []; closed = []; released = [] }

-- Whatever a program does with its sockets: a descriptor that is not negative was closed, or was
-- given back by a `release` of its owner, or has an owner now, as often in all as it was wrapped; so
-- one that is wrapped once is never closed twice, nor closed after such a release, and it is not lost
-- without either.
pub owners_balance :
    (n : ℕ) (ops : List Op)
    → let w = steps ops no_objects in
      count (pos n) w.opened
      ≡ count (pos n) w.closed + count (pos n) w.released + owners (pos n) w.sockets
unfolding steps
owners_balance n ops = steps-Balanced n ops no_objects refl
