-- ===== src/Server/Hello/Pages.antt =====
-- The program of main_stage4.cpp as its clients see it: requests go in, pages come out.
use cs_system_lab.Prelude.{
  ℕ, zero, suc, ◌≡◌, refl, sym, ap, List, [], ◌∷◌, ◌++◌, map, Option, some, length, All, ◌>>=◌,
}
use cs_system_lab.Prelude.Bytes.{Bytes}
use cs_system_lab.Prelude.Int.{ℤ}
use cs_system_lab.Http.Request.Render.RoundTrip.{parsed}
use cs_system_lab.Http.Response.Reading.{read_reply}
use cs_system_lab.Http.Response.{to_message}
use cs_system_lab.Server.Connection.Partial.{response_to-owed}
use cs_system_lab.Server.Connection.Answer.{IsIdle}
use cs_system_lab.Server.Connection.Exchange.{Turn, IsKept, replies}
use cs_system_lab.Server.Connection.Serving.{turns_events}
use cs_system_lab.Server.Hello.{hello_setup, page_of, read_reply-hello}
use cs_system_lab.Server.Loop.{Slot}
use cs_system_lab.Server.Threads.Objects.{
  Memory, nothing_made, Surroundings, world_in, Act, Moves, events_on, Serves,
}
use cs_system_lab.Server.Threads.Replies.{threads_replies}

-- A client that reads some replies: their bodies, and what is behind them.
unfoldable pub read_pages : ℕ → Bytes → Option (List Bytes × Bytes)
read_pages zero s = some ([], s)
read_pages (suc n) s = do
  r ← read_reply s
  (pages, rest) ← read_pages n r.rest
  some (r.body ∷ pages, rest)

-- What the client asked for.
abbrev pub asked : List Turn → List Bytes
asked ts = map (λ t. page_of t.message.path) ts

read_pages-replies :
    (ts : List Turn) → read_pages (length ts) (replies hello_setup ts) ≡ some (asked ts, [])
unfolding read_pages
read_pages-replies [] = refl
read_pages-replies (t ∷ ts) =
    let first =
      ap (λ resp. to_message resp resp.headers) (sym (response_to-owed hello_setup t.message)) in
    rw
      (
        first,
        read_reply-hello (parsed t.message []) (replies hello_setup ts),
        read_pages-replies ts,
      )
      refl

length-asked : (ts : List Turn) → length (asked ts) ≡ length ts
length-asked [] = refl
length-asked (t ∷ ts) = ap suc (length-asked ts)

-- What was written to the connection behind `x`, as a client that reads so many replies takes it.
pub record Paged (l : ℕ) (fd : ℤ) (a : ℕ) (x : Slot) (m : Memory) (pages : List Bytes)
    : Type 0 where
  pub slot : Slot
  pub serves : Serves l fd a slot m
  pub sent : Bytes
  pub written : slot.wire ≡ x.wire ++ sent
  pub paged : read_pages (length pages) sent ≡ some (pages, [])

-- The program with its threads, where no descriptor is accepted that is still in the map: a client
-- whose connection is watched and idle writes requests as in `feed-render`, with Content-Length or,
-- where they have no body, without it, of at most 64 KB, that want the connection kept, the next one
-- when it has the answer to the last, however cut into reads; no first write of an answer fails, and
-- each later one takes a byte at least; and the events that the loops handle of its descriptor are
-- those that this makes, whatever the threads do in between. Then the client reads just as many
-- replies off its socket, in order the page of the path of each request, that for an unknown path
-- included, and nothing is left behind them.
pub hello_pages :
    (e : Surroundings) (before acts : List Act) (m n : Memory) (l : ℕ) (fd : ℤ) (a : ℕ) (x : Slot)
    (ts : List Turn)
    → Moves hello_setup before nothing_made m
    → Moves hello_setup acts m n
    → Serves l fd a x m
    → IsIdle (world_in e x)
    → All (IsKept hello_setup) ts
    → events_on fd acts ≡ turns_events hello_setup ts (world_in e x)
    → Paged l fd a x n (asked ts)
hello_pages e before acts m n l fd a x ts begun moves v idle kept events =
    let r =
      threads_replies hello_setup e before acts m n l fd a x ts begun moves v idle kept events in
    record {
      slot = r.slot;
      serves = r.serves;
      sent = replies hello_setup ts;
      written = r.written;
      paged = rw (length-asked ts) (read_pages-replies ts);
    }
