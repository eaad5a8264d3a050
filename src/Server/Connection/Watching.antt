-- ===== src/Server/Connection/Watching.antt =====
-- When a connection is open, and when the epoll knows no longer of it.
use cs_system_lab.Prelude.{◌≡◌, ◌⊎◌, refl, ◌∙◌, Bool, true, false, [], ◌∷◌}
use cs_system_lab.Prelude.Bytes.{Bytes}
use cs_system_lab.Reactor.Epoll.{AllGranted}
use cs_system_lab.Reactor.Channel.Registration.{all_off, nothing, Follows, apply, apply-Follows}
use cs_system_lab.Server.Connection.{World, remove_connection}

abbrev pub is_nonempty : Bytes → Bool
is_nonempty [] = false
is_nonempty (b ∷ s) = true

-- Open: the epoll watches for input, and for room just while something is in the write buffer.
pub record Live (w : World) : Type 0 where
  pub open_yet : w.conn.closing ≡ false
  pub follows :
      Follows
        (record { reads = true; writes = is_nonempty w.conn.write_buf })
        w.epoll
        w.conn.channel
  pub granted : AllGranted w.epoll.calls

-- Closed: the epoll does not know the descriptor.
pub record Dead (w : World) : Type 0 where
  pub shut : w.conn.closing ≡ true
  pub follows : Follows nothing w.epoll w.conn.channel
  pub granted : AllGranted w.epoll.calls

abbrev pub IsRegistered : World → Type 0
IsRegistered w = Live w ⊎ Dead w

pub remove_connection-Dead : (w : World) → Live w → Dead (remove_connection w)
unfolding remove_connection apply
remove_connection-Dead w v =
    let (f, g) = apply-Follows all_off _ w.epoll w.conn.channel v.follows v.granted in
    rw v.open_yet (record { shut = refl; follows = f; granted = g })

-- A change of what the epoll does not see.
pub Live-same :
    {w w' : World}
    → Live w
    → w'.conn.closing ≡ w.conn.closing
    → w'.conn.write_buf ≡ w.conn.write_buf
    → w'.conn.channel ≡ w.conn.channel
    → w'.epoll ≡ w.epoll
    → Live w'
Live-same {w} {w'} v c b ch e = record {
  open_yet = c ∙ v.open_yet;
  follows = rw (b, ch, e) v.follows;
  granted = rw e v.granted;
}
