-- ===== src/Server/Loop/Batch.antt =====
-- What can happen in one turn of the server's loop, and that an item leaves the other items possible.
use cs_system_lab.Prelude.{ℕ, ◌≡◌, ◌≢◌, ◌∙◌, false, List, [], ◌∷◌, some, arith, ◌==◌}
use cs_system_lab.Prelude.Int.{ℤ, eq_int, eq_int→eq}
use cs_system_lab.Reactor.Epoll.{interest}
use cs_system_lab.Server.Registry.{find_connection, is_queued}
use cs_system_lab.Server.Loop.{Slot, Server, Item, reported, accepted, woken}
use cs_system_lab.Server.Loop.Admitting.{IsFree}

-- What the kernel may report of the server as `wait` finds it: an event of a descriptor that is
-- registered, with its pointer.
pub record IsReported (s : Server) (fd : ℤ) (ptr : ℕ) : Type 0 where
  pub events : ℕ
  pub registered : interest s.epoll.calls fd ≡ some (record { events = events; ptr = ptr })
  pub not_listening : fd ≢ s.listen_fd
  pub not_eventfd : fd ≢ s.loop.wakeup_fd

-- No item is about the descriptor.
abbrev pub Omits : ℤ → List Item → Type 0
Omits fd [] = Unit
Omits fd (reported d ptr ev ∷ items) = (eq_int d fd ≡ false) × Omits fd items
Omits fd (accepted d a ∷ items) = (eq_int d fd ≡ false) × Omits fd items
Omits fd (woken ∷ items) = Omits fd items

-- No connection is made at the address.
abbrev pub Spares : ℕ → List Item → Type 0
Spares a [] = Unit
Spares a (accepted d b ∷ items) = ((b == a) ≡ false) × Spares a items
Spares a (i ∷ items) = Spares a items

-- What can happen in a turn that begins with `s`: each descriptor is reported once at most; those
-- that are accepted are not open, and none of a connection that is closed in this turn.
abbrev pub IsBatch : Server → List Item → Type 0
IsBatch s [] = Unit
IsBatch s (reported fd ptr ev ∷ items) = IsReported s fd ptr × Omits fd items × IsBatch s items
IsBatch s (accepted fd a ∷ items) =
    IsFree s fd a × Omits fd items × Spares a items × IsBatch s items
IsBatch s (woken ∷ items) = IsBatch s items

-- The two differ in the connection of one descriptor and one address at most.
pub record Elsewhere (fd : ℤ) (a : ℕ) (s t : Server) : Type 0 where
  pub knows : (d : ℤ) → eq_int fd d ≡ false → interest t.epoll.calls d ≡ interest s.epoll.calls d
  pub finds :
      (d : ℤ)
      → eq_int fd d ≡ false
      → find_connection d t.store.connections ≡ find_connection d s.store.connections
  pub holds : (b : ℕ) → (a == b) ≡ false → t.store.heap b ≡ s.store.heap b
  pub queues :
      (d : ℤ)
      → eq_int fd d ≡ false
      → is_queued d t.loop.pending_functors ≡ is_queued d s.loop.pending_functors
  pub listens : t.listen_fd ≡ s.listen_fd
  pub wakes : t.loop.wakeup_fd ≡ s.loop.wakeup_fd

pub eq_int-flip : (c d : ℤ) → eq_int c d ≡ false → eq_int d c ≡ false
eq_int-flip c d h = ground (arith, eq_int→eq d c, h)

module _ (fd : ℤ) (a : ℕ) (s t : Server) (e : Elsewhere fd a s t) where
  IsReported-elsewhere :
      (d : ℤ) (ptr : ℕ) → eq_int fd d ≡ false → IsReported s d ptr → IsReported t d ptr
  IsReported-elsewhere d ptr n r = record {
    events = r.events;
    registered = e.knows d n ∙ r.registered;
    not_listening = λ h. r.not_listening (h ∙ e.listens);
    not_eventfd = λ h. r.not_eventfd (h ∙ e.wakes);
  }

  IsFree-elsewhere :
      (d : ℤ) (b : ℕ) → eq_int fd d ≡ false → (a == b) ≡ false → IsFree s d b → IsFree t d b
  IsFree-elsewhere d b n m f = record {
    no_entry = e.finds d n ∙ f.no_entry;
    not_listening = λ h. f.not_listening (h ∙ e.listens);
    not_eventfd = λ h. f.not_eventfd (h ∙ e.wakes);
    no_object = e.holds b m ∙ f.no_object;
  }

  pub IsBatch-elsewhere :
      (items : List Item) → Omits fd items → Spares a items → IsBatch s items → IsBatch t items
  IsBatch-elsewhere [] o k b = tt
  IsBatch-elsewhere (reported d ptr ev ∷ items) (n, o) k (r, other, b) =
      (IsReported-elsewhere d ptr (eq_int-flip d fd n) r, other, IsBatch-elsewhere items o k b)
  IsBatch-elsewhere (accepted d c ∷ items) (n, o) (m, k) (f, other, spared, b) = (
    IsFree-elsewhere d c (eq_int-flip d fd n) (ground arith) f,
    other,
    spared,
    IsBatch-elsewhere items o k b,
  )
  IsBatch-elsewhere (woken ∷ items) o k b = IsBatch-elsewhere items o k b

-- No connection is made where an object stands.
pub alive-Spares :
    (s : Server) (a : ℕ) (slot : Slot) (items : List Item)
    → s.store.heap a ≡ some slot
    → IsBatch s items
    → Spares a items
alive-Spares s a slot [] h b = tt
alive-Spares s a slot (reported d ptr ev ∷ items) h (r, o, b) = alive-Spares s a slot items h b
alive-Spares s a slot (accepted d c ∷ items) h (f, o, k, b) =
    (ground (arith, f.no_object), alive-Spares s a slot items h b)
alive-Spares s a slot (woken ∷ items) h b = alive-Spares s a slot items h b
