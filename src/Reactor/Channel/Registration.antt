-- ===== src/Reactor/Channel/Registration.antt =====
-- A channel and what the kernel knows of it, after a sequence of operations.
use Prim.Native.Nat.{bit_and, bit_or}
use cs_system_lab.Prelude.{
  ℕ, ◌+◌, ◌≡◌, ◌≢◌, refl, sym, ap, ◌∙◌, Bool, true, false, ◌||◌, List, [], ◌∷◌, none, some,
  if◌then◌else◌, arith,
}
use cs_system_lab.Prelude.Int.{ℤ, eq_int, eq_int_refl, eq_int→eq}
use cs_system_lab.Reactor.Epoll.{Epoll, interest, AllGranted}
use cs_system_lab.Reactor.Channel.{
  Channel, epollin, epollout, make, update_channel, enable_reading, enable_writing, disable_reading,
  disable_writing, disable_all,
}

-- The public operations that change the events of a channel.
pub data Op : Type 0 where
  read_on write_on read_off write_off all_off : Op

-- What a user wants of a channel: to hear of input, and of room for output.
pub record Wish : Type 0 where
  pub reads : Bool
  pub writes : Bool

abbrev pub wish : Op → Wish → Wish
wish read_on w = record w { reads = true }
wish write_on w = record w { writes = true }
wish read_off w = record w { reads = false }
wish write_off w = record w { writes = false }
wish all_off w = record { reads = false; writes = false }

abbrev pub wishes : List Op → Wish → Wish
wishes [] w = w
wishes (op ∷ ops) w = wishes ops (wish op w)

abbrev pub mask : Wish → ℕ
mask w = (if w.reads then epollin else 0) + (if w.writes then epollout else 0)

abbrev pub nothing : Wish
nothing = record { reads = false; writes = false }

-- The bit operations do to a mask what the wish says.
abbrev changed : Op → ℕ → ℕ
changed read_on m = bit_or m epollin
changed write_on m = bit_or m epollout
changed read_off m = bit_and m 0xffff_fffe
changed write_off m = bit_and m 0xffff_fffb
changed all_off m = 0

changed-mask :
    (op : Op) (r w : Bool)
    → changed op (mask (record { reads = r; writes = w }))
      ≡ mask (wish op (record { reads = r; writes = w }))
changed-mask read_on true true = refl
changed-mask read_on true false = refl
changed-mask read_on false true = refl
changed-mask read_on false false = refl
changed-mask write_on true true = refl
changed-mask write_on true false = refl
changed-mask write_on false true = refl
changed-mask write_on false false = refl
changed-mask read_off true true = refl
changed-mask read_off true false = refl
changed-mask read_off false true = refl
changed-mask read_off false false = refl
changed-mask write_off true true = refl
changed-mask write_off true false = refl
changed-mask write_off false true = refl
changed-mask write_off false false = refl
changed-mask all_off r w = refl

module _ {A : Type 0} where
  -- The kernel knows the descriptor exactly while something is wanted of it, with these events
  -- and this channel.
  pub record Follows (w : Wish) (e : Epoll) (c : Channel A) : Type 0 where
    pub events : c.events ≡ mask w
    pub flag : c.added_to_epoll ≡ (w.reads || w.writes)
    pub known :
        interest e.calls c.fd
        ≡ (if w.reads || w.writes then some (record { events = mask w; ptr = c.self }) else none)

  unfoldable pub apply : Op → Epoll → Channel A → Epoll × Channel A
  unfolding enable_reading enable_writing disable_reading disable_writing disable_all
  apply read_on e c = enable_reading e c
  apply write_on e c = enable_writing e c
  apply read_off e c = disable_reading e c
  apply write_off e c = disable_writing e c
  apply all_off e c = disable_all e c

  -- `update` with new events.
  update_channel-Follows :
      (w v : Wish) (e : Epoll) (c : Channel A)
      → Follows w e c
      → AllGranted e.calls
      → let q = update_channel e (record c { events = mask v }) in
        Follows v q.0 q.1 × AllGranted q.0.calls
  unfolding update_channel interest
  update_channel-Follows w v e c f g = (
    record { events = ground arith; flag = ground arith; known = ground (arith, eq_int_refl c.fd) },
    ground arith,
  )

  pub apply_lem :
      (op : Op) (e : Epoll) (c : Channel A)
      → apply op e c ≡ update_channel e (record c { events = changed op c.events })
  unfolding apply
  apply_lem read_on e c = refl
  apply_lem write_on e c = refl
  apply_lem read_off e c = refl
  apply_lem write_off e c = refl
  apply_lem all_off e c = refl

  pub apply-Follows :
      (op : Op) (w : Wish) (e : Epoll) (c : Channel A)
      → Follows w e c
      → AllGranted e.calls
      → Follows (wish op w) (apply op e c).0 (apply op e c).1 × AllGranted (apply op e c).0.calls
  apply-Follows op w e c f g =
      let same : changed op c.events ≡ mask (wish op w) =
        ap (changed op) f.events ∙ changed-mask op w.reads w.writes in
      rw (apply_lem op e c, same) (update_channel-Follows w (wish op w) e c f g)

  unfoldable pub run : List Op → Epoll → Channel A → Epoll × Channel A
  unfolding apply
  run [] e c = (e, c)
  run (op ∷ ops) e c = let (e', c') = apply op e c in run ops e' c'

  -- Whatever is switched on and off, the kernel knows the channel exactly while something is
  -- wanted of it, with the events that are wanted, and no `epoll_ctl` is refused.
  pub run-Follows :
      (ops : List Op) (w : Wish) (e : Epoll) (c : Channel A)
      → Follows w e c
      → AllGranted e.calls
      → Follows (wishes ops w) (run ops e c).0 (run ops e c).1 × AllGranted (run ops e c).0.calls
  unfolding run
  run-Follows [] w e c f g = (f, g)
  run-Follows (op ∷ ops) w e c f g =
      let (f', g') = apply-Follows op w e c f g in
      run-Follows ops (wish op w) (apply op e c).0 (apply op e c).1 f' g'

  -- A new channel, of a descriptor that the kernel does not know.
  pub make-Follows :
      (self : ℕ) (fd : ℤ) (e : Epoll)
      → interest e.calls fd ≡ none
      → Follows nothing e (make {A = A} self fd)
  make-Follows self fd e h = record { events = refl; flag = refl; known = h }

  -- The operations of a channel leave its descriptor, its address and its callbacks alone.
  pub apply_same :
      (op : Op) (e : Epoll) (c : Channel A)
      → ((apply op e c).1.fd ≡ c.fd) × ((apply op e c).1.self ≡ c.self)
  unfolding update_channel
  apply_same op e c = rw (apply_lem op e c) (ground arith)

  pub apply_other :
      (op : Op) (e : Epoll) (c : Channel A) (fd : ℤ)
      → eq_int c.fd fd ≡ false
      → interest (apply op e c).0.calls fd ≡ interest e.calls fd
  unfolding update_channel interest
  apply_other op e c fd h = rw (apply_lem op e c) (ground arith)

  -- No operation on a channel changes what the kernel knows of another descriptor.
  run_other :
      (ops : List Op) (e : Epoll) (c : Channel A) (fd : ℤ)
      → c.fd ≢ fd
      → interest (run ops e c).0.calls fd ≡ interest e.calls fd
  unfolding run
  run_other [] e c fd h = refl
  run_other (op ∷ ops) e c fd h =
      let differ : eq_int c.fd fd ≡ false = ground (arith, eq_int→eq c.fd fd) in
      run_other ops (apply op e c).0 (apply op e c).1 fd (λ k. h (sym (apply_same op e c).0 ∙ k))
      ∙ apply_other op e c fd differ
