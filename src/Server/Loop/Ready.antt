-- ===== src/Server/Loop/Ready.antt =====
-- An item that the loop handles, with the object that it is of.
use cs_system_lab.Prelude.{ℕ, ◌≡◌, refl, false, inl, inr, some, arith}
use cs_system_lab.Prelude.Int.{ℤ}
use cs_system_lab.Server.Connection.{World}
use cs_system_lab.Server.Connection.Watching.{Live}
use cs_system_lab.Server.Registry.{is_queued}
use cs_system_lab.Server.Loop.{Slot, Server, world, written_back, admit}
use cs_system_lab.Server.Loop.Sound.{Sound}
use cs_system_lab.Server.Loop.Handling
use cs_system_lab.Server.Loop.Handling.{Handled, dispatch-Handled}
use cs_system_lab.Server.Loop.Admitting
use cs_system_lab.Server.Loop.Admitting.{IsFree}
use cs_system_lab.Server.Loop.Batch.{IsReported, Elsewhere}

-- The object behind a reported event: it is alive and open.
pub record Ready (s : Server) (fd : ℤ) (ptr : ℕ) : Type 0 where
  pub slot : Slot
  pub alive : s.store.heap ptr ≡ some slot
  pub fd_of : slot.conn.channel.fd ≡ fd
  pub opened : Live (world s slot)
  pub free : is_queued slot.conn.channel.fd s.loop.pending_functors ≡ false

pub IsReported-Ready :
    (s : Server) (fd : ℤ) (ptr : ℕ) → Sound s → IsReported s fd ptr → Ready s fd ptr
IsReported-Ready s fd ptr sound r = elim (sound.known fd _ r.registered) [
  | inl (inl o) ↦ absurd (r.not_listening o)
  | inl (inr o) ↦ absurd (r.not_eventfd o)
  | inr f ↦
      let o = sound.stored fd ptr f in
      elim (sound.owned ptr o.slot o.alive).watched [
        | inl (v, n) ↦ record {
          slot = o.slot;
          alive = o.alive;
          fd_of = o.fd_of;
          opened = v;
          free = n;
        }
        | inr (v, q) ↦ absurd (ground (arith, v.follows.known, o.fd_of, r.registered))
      ]
]

-- What an item leaves: a sound server, the same but for one connection.
pub record Handles (s : Server) (fd : ℤ) (a : ℕ) (t : Server) : Type 0 where
  pub sound : Sound t
  pub elsewhere : Elsewhere fd a s t

pub written_back-Handles :
    (s : Server) (a : ℕ) (slot : Slot) (w : World)
    → Sound s
    → s.store.heap a ≡ some slot
    → Handled s slot w
    → is_queued slot.conn.channel.fd s.loop.pending_functors ≡ false
    → Handles s slot.conn.channel.fd a (written_back a s w)
unfolding written_back
written_back-Handles s a slot w sound at h free = record {
  sound = Handling.after-Sound s a slot w sound at h free;
  elsewhere = record {
    knows = h.alike.elsewhere;
    finds = λ d n. refl;
    holds = λ b n. rw n refl;
    queues = Handling.after-other s a slot w sound at h free;
    listens = refl;
    wakes = h.alike.wakeup_fd;
  };
}

pub admit-Handles :
    (s : Server) (fd : ℤ) (a : ℕ) → Sound s → IsFree s fd a → Handles s fd a (admit fd a s)
admit-Handles s fd a sound free =
    let (same, listens) = Admitting.after-loop s fd a sound free in
    record {
      sound = Admitting.after-Sound s fd a sound free;
      elsewhere = record {
        knows = Admitting.after_elsewhere s fd a sound free;
        finds = λ d n. rw (Admitting.after-find s fd a sound free d, n) refl;
        holds = λ b n. rw (Admitting.after-heap s fd a sound free b, n) refl;
        queues = λ d n. rw same refl;
        listens = listens;
        wakes = rw same refl;
      };
    }
