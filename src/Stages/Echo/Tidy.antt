-- ===== src/Stages/Echo/Tidy.antt =====
-- Which channels of the echo server are alive, and which the epoll points at.
use cs_system_lab.Prelude.{
  ℕ, ◌≡◌, refl, sym, ap, ◌∙◌, Bool, ◌||◌, true, false, inl, inr, Option, none, some, arith,
  Bool-cases, ◌==◌, ==_refl, if◌then◌else◌,
}
use cs_system_lab.Prelude.Int.{ℤ, eq_int, eq_int_refl, eq_int→eq}
use cs_system_lab.Reactor.Epoll.{Interest, interest, AllGranted}
use cs_system_lab.Reactor.Channel.{Channel, epollin, enable_reading, disable_all, update_channel}
use cs_system_lab.Server.Registry.{
  find_connection, find_connection-put_connection, find_connection-erase_connection,
}
use cs_system_lab.Stages.Echo.{
  ClientCallback, on_read_callback, on_close_callback, EchoServer, add_client, drop_client,
}

abbrev pub listen_fd : EchoServer → ℤ
listen_fd s = s.listen_socket.fd

-- The listening socket, or the eventfd of the loop.
abbrev pub is_own : EchoServer → ℤ → Bool
is_own s d = eq_int (listen_fd s) d || eq_int s.loop.wakeup_fd d

-- What the epoll knows of a descriptor, by the entry of the map.
abbrev pub interest_of : Option ℕ → Option Interest
interest_of none = none
interest_of (some a) = some (record { events = epollin; ptr = a })

-- The channel at `a` is that of an entry, and it is registered for input.
pub record Kept (s : EchoServer) (a : ℕ) (c : Channel ClientCallback) : Type 0 where
  pub entry : find_connection c.fd s.clients ≡ some a
  pub self : c.self ≡ a
  pub events : c.events ≡ epollin
  pub added : c.added_to_epoll ≡ true

pub record Tidy (s : EchoServer) : Type 0 where
  pub granted : AllGranted s.epoll.calls
  pub kept : (a : ℕ) (c : Channel ClientCallback) → s.heap a ≡ some c → Kept s a c
  pub stored :
      (d : ℤ) (a : ℕ)
      → find_connection d s.clients ≡ some a
      → (c : Channel ClientCallback) × (s.heap a ≡ some c) × (c.fd ≡ d)
  pub apart : (d : ℤ) → is_own s d ≡ true → find_connection d s.clients ≡ none
  pub wakeup_watched :
      interest s.epoll.calls s.loop.wakeup_fd
      ≡ some (record { events = epollin; ptr = s.wakeup_channel.self })
  pub known :
      (d : ℤ)
      → is_own s d ≡ false
      → interest s.epoll.calls d ≡ interest_of (find_connection d s.clients)

-- A descriptor and an address that the kernel and `new` can give.
pub record IsNew (s : EchoServer) (fd : ℤ) (a : ℕ) : Type 0 where
  pub no_entry : find_connection fd s.clients ≡ none
  pub not_own : is_own s fd ≡ false
  pub no_object : s.heap a ≡ none

abbrev client : ℕ → ℤ → Channel ClientCallback
client a fd = record {
  self = a;
  fd = fd;
  events = epollin;
  revents = 0;
  added_to_epoll = true;
  read_callback = some on_read_callback;
  write_callback = none;
  close_callback = some on_close_callback;
  error_callback = none;
}

module _ (s : EchoServer) (fd : ℤ) (a : ℕ) (t : Tidy s) (n : IsNew s fd a) where
  abbrev added : EchoServer
  added = add_client fd a s

  added-find :
      (d : ℤ)
      → find_connection d added.clients
        ≡ (if eq_int fd d then some a else find_connection d s.clients)
  unfolding add_client
  added-find d = find_connection-put_connection fd d a s.clients

  added-heap : (b : ℕ) → added.heap b ≡ (if a == b then some (client a fd) else s.heap b)
  unfolding add_client enable_reading
  added-heap b = rw n.no_entry (ground arith)

  added-interest :
      (d : ℤ)
      → interest added.epoll.calls d ≡ (
          if eq_int fd d
          then some (record { events = epollin; ptr = a })
          else interest s.epoll.calls d)
  unfolding add_client enable_reading interest
  added-interest d = ground arith

  added-granted : AllGranted added.epoll.calls
  unfolding add_client enable_reading interest
  added-granted = (t.known fd n.not_own ∙ ap interest_of n.no_entry, t.granted)

  added-own : (d : ℤ) → is_own added d ≡ is_own s d
  unfolding add_client
  added-own d = refl

  added-wakeup :
      interest added.epoll.calls added.loop.wakeup_fd
      ≡ some (record { events = epollin; ptr = added.wakeup_channel.self })
  unfolding add_client enable_reading interest
  added-wakeup =
      ground (arith, t.wakeup_watched, n.not_own, eq_int→eq fd s.loop.wakeup_fd, eq_int_refl fd)

  added-Kept : (b : ℕ) (c : Channel ClientCallback) → added.heap b ≡ some c → Kept added b c
  added-Kept b c e = elim (Bool-cases (a == b)) [
    | inl k ↦
        let same : c ≡ client a fd = ground (arith, added-heap b) in
        rw same (record {
          entry = rw (added-find fd, eq_int_refl fd) (ground arith);
          self = ground arith;
          events = refl;
          added = refl;
        })
    | inr k ↦
        let old = t.kept b c (ground (arith, added-heap b)) in
        record {
          entry = ground (arith, added-find c.fd, old.entry, eq_int→eq fd c.fd, n.no_entry);
          self = old.self;
          events = old.events;
          added = old.added;
        }
  ]

  pub add_client-Tidy : Tidy added
  add_client-Tidy = record {
    granted = added-granted;
    kept = added-Kept;
    stored = λ d b e. elim (Bool-cases (eq_int fd d)) [
      | inl k ↦ (client a fd, ground (arith, added-find d, added-heap b), eq_int→eq fd d k)
      | inr k ↦
          let (c, alive, same) = t.stored d b (ground (arith, added-find d)) in
          (c, ground (arith, added-heap b, n.no_object), same)
    ];
    apart = λ d h.
        let own : is_own s d ≡ true = sym (added-own d) ∙ h in
        ground (arith, added-find d, t.apart d own, eq_int→eq fd d, n.not_own, own);
    wakeup_watched = added-wakeup;
    known =
        λ d h. ground (arith, added-find d, added-interest d, t.known d (sym (added-own d) ∙ h));
  }

module _ (s : EchoServer) (a : ℕ) (ch : Channel ClientCallback) (t : Tidy s)
    (alive : s.heap a ≡ some ch) where
  abbrev dropped : EchoServer
  dropped = drop_client ch s

  mine : Kept s a ch
  mine = t.kept a ch alive

  dropped-find :
      (d : ℤ)
      → find_connection d dropped.clients
        ≡ (if eq_int ch.fd d then none else find_connection d s.clients)
  unfolding drop_client
  dropped-find d = find_connection-erase_connection ch.fd d s.clients

  dropped-heap : (b : ℕ) → dropped.heap b ≡ (if a == b then none else s.heap b)
  unfolding drop_client
  dropped-heap b = rw (mine.entry) refl

  not_own : is_own s ch.fd ≡ false
  not_own = elim (Bool-cases (is_own s ch.fd)) [
    | inl e ↦ absurd (ground (arith, t.apart ch.fd e, mine.entry))
    | inr e ↦ e
  ]

  watched : interest s.epoll.calls ch.fd ≡ some (record { events = epollin; ptr = a })
  watched = t.known ch.fd not_own ∙ ap interest_of mine.entry

  dropped-interest :
      (d : ℤ)
      → interest dropped.epoll.calls d ≡ (if eq_int ch.fd d then none else interest s.epoll.calls d)
  unfolding drop_client disable_all update_channel interest
  dropped-interest d = rw (mine.added) refl

  dropped-granted : AllGranted dropped.epoll.calls
  unfolding drop_client disable_all update_channel
  dropped-granted = rw (mine.added) ((record { events = epollin; ptr = a }, watched), t.granted)

  dropped-own : (d : ℤ) → is_own dropped d ≡ is_own s d
  unfolding drop_client
  dropped-own d = refl

  dropped-wakeup :
      interest dropped.epoll.calls s.loop.wakeup_fd
      ≡ some (record { events = epollin; ptr = s.wakeup_channel.self })
  dropped-wakeup = ground (
    arith,
    dropped-interest s.loop.wakeup_fd,
    t.wakeup_watched,
    not_own,
    eq_int→eq ch.fd s.loop.wakeup_fd,
    eq_int_refl ch.fd,
  )

  dropped-fields : (dropped.loop ≡ s.loop) × (dropped.wakeup_channel ≡ s.wakeup_channel)
  unfolding drop_client
  dropped-fields = (refl, refl)

  pub drop_client-Tidy : Tidy dropped
  drop_client-Tidy = record {
    granted = dropped-granted;
    kept = λ b c e.
        let old = t.kept b c (ground (arith, dropped-heap b)) in
        record {
          entry = ground (
            arith,
            dropped-find c.fd,
            dropped-heap b,
            old.entry,
            mine.entry,
            eq_int→eq ch.fd c.fd,
            ==_refl a,
          );
          self = old.self;
          events = old.events;
          added = old.added;
        };
    stored = λ d b e.
        let (c, there, same) = t.stored d b (ground (arith, dropped-find d)) in
        (
          c,
          ground (arith, dropped-heap b, dropped-find d, there, alive, same, eq_int_refl d),
          same,
        );
    apart = λ d h. ground (arith, dropped-find d, t.apart d (sym (dropped-own d) ∙ h));
    wakeup_watched = rw (dropped-fields.0, dropped-fields.1) dropped-wakeup;
    known = λ d h.
        ground (arith, dropped-find d, dropped-interest d, t.known d (sym (dropped-own d) ∙ h));
  }
