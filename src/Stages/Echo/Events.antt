-- ===== src/Stages/Echo/Events.antt =====
-- The echo server from its start on, whatever events come.
use cs_system_lab.Prelude.{
  ℕ, zero, suc, ◌≡◌, refl, sym, ◌∙◌, Bool, true, false, inl, inr, List, [], ◌∷◌, Option, none, some,
  arith, Bool-cases, ◌==◌, ==_refl,
}
use cs_system_lab.Prelude.Bytes.{Bytes}
use cs_system_lab.Prelude.Heap.{at_address}
use cs_system_lab.Prelude.Int.{ℤ, pos, eq_int, is_negative}
use cs_system_lab.Reactor.Epoll.{Interest, interest}
use cs_system_lab.Reactor.Channel.{Channel, enable_reading, handle_event}
use cs_system_lab.Reactor.EventLoop.{handle_wakeup}
use cs_system_lab.Reactor.EventLoop.Lifetime.{open_loop}
use cs_system_lab.Server.Registry.{find_connection}
use cs_system_lab.Stages.Echo.{
  ClientCallback, on_read_callback, on_close_callback, EchoServer, create, start, add_client,
  on_accept, ReadAnswer, received, no_data, broken, on_read, on_close, EchoEvent, woken, incoming,
  client_event, run_client_callback, handle_client, echo_event, echo_events,
}
use cs_system_lab.Stages.Echo.Tidy.{
  is_own, interest_of, Kept, Tidy, IsNew, add_client-Tidy, drop_client-Tidy,
}

-- What `accept` answers, up to the first failure, is new each time.
abbrev pub AllNew : List (ℤ × ℕ) → EchoServer → Type 0
AllNew [] s = Unit
AllNew ((fd, a) ∷ rest) s = is_negative fd ≡ false → IsNew s fd a × AllNew rest (add_client fd a s)

-- An event of a connection is of a descriptor that is registered, other than the listening socket's
-- and the eventfd, with its pointer.
abbrev pub IsPossible : EchoEvent → EchoServer → Type 0
IsPossible woken s = Unit
IsPossible (incoming answers) s = AllNew answers s
IsPossible (client_event ptr revents r taken) s =
    (d : ℤ) × (events : ℕ) × (is_own s d ≡ false)
    × (interest s.epoll.calls d ≡ some (record { events = events; ptr = ptr }))

abbrev pub AllPossible : List EchoEvent → EchoServer → Type 0
AllPossible [] s = Unit
AllPossible (e ∷ es) s =
    IsPossible e s × ((t : EchoServer) → echo_event e s ≡ some t → AllPossible es t)

on_accept-Tidy :
    (answers : List (ℤ × ℕ)) (s : EchoServer)
    → AllNew answers s
    → Tidy s
    → Tidy (on_accept answers s)
unfolding on_accept
on_accept-Tidy [] s n t = t
on_accept-Tidy ((fd, a) ∷ rest) s n t = elim (Bool-cases (is_negative fd)) [
  | inl e ↦ rw e t
  | inr e ↦
      let (new, more) = n e in
      rw e (on_accept-Tidy rest (add_client fd a s) more (add_client-Tidy s fd a t new))
]

sent-Tidy : (s : EchoServer) (out : List (ℤ × Bytes)) → Tidy s → Tidy (record s { sent = out })
sent-Tidy s out t = record {
  granted = t.granted;
  kept = λ a c e.
      let k = t.kept a c e in
      record { entry = k.entry; self = k.self; events = k.events; added = k.added };
  stored = t.stored;
  apart = t.apart;
  wakeup_watched = t.wakeup_watched;
  known = t.known;
}

woken-Tidy : (s : EchoServer) → Tidy s → Tidy (record s { loop = handle_wakeup s.loop })
unfolding handle_wakeup
woken-Tidy s t = elim (Bool-cases (is_negative s.loop.wakeup_fd)) [
  | inl e ↦ rw e t
  | inr e ↦ rw e (record {
    granted = t.granted;
    kept = λ a c e.
        let k = t.kept a c e in
        record { entry = k.entry; self = k.self; events = k.events; added = k.added };
    stored = t.stored;
    apart = t.apart;
    wakeup_watched = t.wakeup_watched;
    known = t.known;
  })
]

module _ (s : EchoServer) (a : ℕ) (ch : Channel ClientCallback) (revents : ℕ) (t : Tidy s)
    (alive : s.heap a ≡ some ch) where
  abbrev marked : Channel ClientCallback
  marked = record ch { revents = revents }

  abbrev noted : EchoServer
  noted = record s { heap = at_address ch.self (some marked) s.heap }

  mine : Kept s a ch
  mine = t.kept a ch alive

  noted_alive : noted.heap a ≡ some marked
  noted_alive = rw (mine.self, ==_refl a) refl

  noted-Tidy : Tidy noted
  noted-Tidy = record {
    granted = t.granted;
    kept = λ b c e. elim (Bool-cases (ch.self == b)) [
      | inl k ↦
          let same : b ≡ a = ground (arith, mine.self) in
          let is : c ≡ marked = ground arith in
          rw (same, is)
            (record {
              entry = mine.entry;
              self = mine.self;
              events = mine.events;
              added = mine.added;
            })
      | inr k ↦
          let old = t.kept b c (ground arith) in
          record { entry = old.entry; self = old.self; events = old.events; added = old.added }
    ];
    stored = λ d b e.
        let (c, there, same) = t.stored d b e in
        elim (Bool-cases (ch.self == b)) [
          | inl k ↦ (marked, rw k refl, ground (arith, mine.self, alive, there, same))
          | inr k ↦ (c, rw k there, same)
        ];
    apart = t.apart;
    wakeup_watched = t.wakeup_watched;
    known = t.known;
  }

  on_read-Tidy : (r : ReadAnswer) (taken : ℕ) → Tidy (on_read r taken marked noted)
  unfolding on_read
  on_read-Tidy (received zero) taken = drop_client-Tidy noted a marked noted-Tidy noted_alive
  on_read-Tidy (received (suc n)) taken =
      drop_client-Tidy _ a marked (sent-Tidy noted _ noted-Tidy) noted_alive
  on_read-Tidy no_data taken = noted-Tidy
  on_read-Tidy broken taken = drop_client-Tidy noted a marked noted-Tidy noted_alive

  run_client_callback-Tidy :
      (r : ReadAnswer) (taken : ℕ) (cb : Option ClientCallback)
      → Tidy (run_client_callback r taken marked cb noted)
  unfolding on_close
  run_client_callback-Tidy r taken none = noted-Tidy
  run_client_callback-Tidy r taken (some on_read_callback) = on_read-Tidy r taken
  run_client_callback-Tidy r taken (some on_close_callback) =
      drop_client-Tidy noted a marked noted-Tidy noted_alive

-- The channel behind a registered pointer is alive.
registered_alive :
    (s : EchoServer) (d : ℤ) (i : Interest)
    → Tidy s
    → is_own s d ≡ false
    → interest s.epoll.calls d ≡ some i
    → (ch : Channel ClientCallback) × (s.heap i.ptr ≡ some ch)
registered_alive s d i t n e =
    entry_alive (find_connection d s.clients) refl (sym (t.known d n) ∙ e)
  where
    entry_alive :
        (o : Option ℕ)
        → find_connection d s.clients ≡ o
        → interest_of o ≡ some i
        → (ch : Channel ClientCallback) × (s.heap i.ptr ≡ some ch)
    entry_alive none f k = absurd (cc)
    entry_alive (some b) f k = let (ch, alive, same) = t.stored d b f in (ch, ground arith)

echo_event-Tidy :
    (e : EchoEvent) (s : EchoServer)
    → Tidy s
    → IsPossible e s
    → (t : EchoServer) × (echo_event e s ≡ some t) × Tidy t
unfolding echo_event handle_client
echo_event-Tidy woken s t p = (record s { loop = handle_wakeup s.loop }, refl, woken-Tidy s t)
echo_event-Tidy (incoming answers) s t p = (on_accept answers s, refl, on_accept-Tidy answers s p t)
echo_event-Tidy (client_event ptr revents r taken) s t (d, events, n, e) =
    let (ch, alive) = registered_alive s d (record { events = events; ptr = ptr }) t n e in
    (
      run_client_callback r taken (marked s ptr ch revents t alive)
          (handle_event (marked s ptr ch revents t alive)) (noted s ptr ch revents t alive),
      rw alive refl,
      run_client_callback-Tidy s ptr ch revents t alive r taken _,
    )

echo_events-Tidy :
    (es : List EchoEvent) (s : EchoServer)
    → Tidy s
    → AllPossible es s
    → (t : EchoServer) × (echo_events es s ≡ some t) × Tidy t
unfolding echo_events
echo_events-Tidy [] s t p = (s, refl, t)
echo_events-Tidy (e ∷ es) s t (p, ps) =
    let (u, first, v) = echo_event-Tidy e s t p in
    let (w, rest, x) = echo_events-Tidy es u v (ps u first) in (w, rw first rest, x)

module _ (wakeup_self w thread self : ℕ) (fd : ℤ) where
  -- The constructor, where `eventfd` answers a descriptor.
  abbrev pub created : EchoServer
  created = create wakeup_self (pos w) thread self fd

  start-Tidy :
      (bound listening : Bool)
      → eq_int fd (pos w) ≡ false
      → let (s, ok) = start bound listening created in ok ≡ true → Tidy s
  unfolding start create open_loop enable_reading interest find_connection
  start-Tidy bound listening other h = ground arith

-- A server that started, whose eventfd and listening socket are two descriptors, handles any events
-- without the use of a channel that was destroyed, where each event of a connection is of a
-- registered descriptor other than these two, with its pointer, and each accepted descriptor and new
-- address is free. Afterwards the channels that are alive are those that the map owns, each
-- registered for input under its own descriptor; the epoll watches the eventfd, with the channel of
-- the loop; and it knows no other descriptor but the listening socket.
pub echo_events-started :
    (wakeup_self w thread self : ℕ) (fd : ℤ) (bound listening : Bool) (es : List EchoEvent)
    → eq_int fd (pos w) ≡ false
    → (start bound listening (created wakeup_self w thread self fd)).1 ≡ true
    → AllPossible es (start bound listening (created wakeup_self w thread self fd)).0
    → (t : EchoServer) × (echo_events es
          (start bound listening (created wakeup_self w thread self fd)).0
        ≡ some t)
      × Tidy t
echo_events-started wakeup_self w thread self fd bound listening es other ok possible =
    echo_events-Tidy es _ (start-Tidy wakeup_self w thread self fd bound listening other ok)
      possible
