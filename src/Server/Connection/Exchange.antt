-- ===== src/Server/Connection/Exchange.antt =====
-- A client that writes requests, each after the answer to the last one: what it gets
-- back, and what becomes of its connection.
use cs_system_lab.Prelude.{
  ℕ, ◌≤◌, ◌≡◌, ◌≢◌, refl, sym, ap, ◌∙◌, true, List, [], ◌∷◌, ◌++◌, append-nil, append_assoc, length,
  All, concat,
}
use cs_system_lab.Prelude.Bytes.{Bytes}
use cs_system_lab.Http.Request.Chunks.{feed, accepted}
use cs_system_lab.Http.Request.Render.{Message, IsMessage, render, wants_keep}
use cs_system_lab.Http.Request.Render.Keeping.{keep_alive-parsed}
use cs_system_lab.Http.Request.Render.RoundTrip.{parsed, feed-render}
use cs_system_lab.Server.Connection.{
  World, WriteResult, write_failed, with_request, Setup, new_connection,
}
use cs_system_lab.Prelude.Int.{ℤ}
use cs_system_lab.Reactor.Epoll.{Epoll}
use cs_system_lab.Reactor.Channel.{enable_reading}
use cs_system_lab.Reactor.EventLoop.{EventLoop}
use cs_system_lab.Server.Connection.Partial.{IsRead, reply, on_reads, on_reads_lem}
use cs_system_lab.Http.Request.{max_request_size}
use cs_system_lab.Server.Connection.Answer.{
  IsIdle, Takes, flush, Answered, IsAsked, send_message_lem,
}

-- A request of the client, the reads that bring it, and the answers to the `write`s that its own
-- answer takes.
pub record Turn : Type 0 where
  pub message : Message
  pub first_read : Bytes
  pub later_reads : List Bytes
  pub answer : WriteResult
  pub answers : ℕ → WriteResult

pub record IsTurn (t : Turn) : Type 0 where
  pub well_formed : IsMessage t.message
  pub brought : concat (t.first_read ∷ t.later_reads) ≡ render t.message []
  pub reads : All IsRead (t.first_read ∷ t.later_reads)
  pub short : length (render t.message []) ≤ max_request_size
  pub no_failure : t.answer ≢ write_failed
  pub takes : Takes t.answers

module _ (setup : Setup) where
  -- The client's request is read, and its answer is written.
  unfoldable pub take_turn : Turn → World → World
  take_turn t w = flush t.answers (on_reads setup t.answer (t.first_read ∷ t.later_reads) w)

  unfoldable pub take_turns : List Turn → World → World
  take_turns [] w = w
  take_turns (t ∷ ts) w = take_turns ts (take_turn t w)

  -- A message whose sender wants the connection to be kept.
  abbrev pub IsKept : Turn → Type 0
  IsKept t = IsTurn t × (wants_keep t.message ≡ true)

  abbrev pub replies : List Turn → Bytes
  replies [] = []
  replies (t ∷ ts) = reply setup t.message ++ replies ts

  pub take_turn_lem :
      (t : Turn) (w : World)
      → IsTurn t
      → IsIdle w
      → Answered w (wants_keep t.message) (reply setup t.message) (take_turn t w)
  unfolding take_turn
  take_turn_lem t w v i =
      let fed =
        ap (λ r. accepted (feed r (t.first_read ∷ t.later_reads))) i.no_request
        ∙ feed-render t.message [] t.first_read t.later_reads v.well_formed v.brought v.short in
      let e = on_reads_lem setup t.later_reads t.first_read t.message t.answer w v.reads fed in
      let asked : IsAsked (with_request w (parsed t.message [])) (wants_keep t.message) = record {
        wanted = keep_alive-parsed t.message [];
        nothing_waits = i.nothing_waits;
        nothing_sent = i.nothing_sent;
        open_yet = i.open_yet;
      } in
      let a =
        send_message_lem t.answer (with_request w (parsed t.message [])) _ (reply setup t.message)
          t.answers asked v.no_failure v.takes in
      rw e (record { whole = a.whole; decided = a.decided; idle = a.idle })

  take_turns_lem :
      (ts : List Turn) (w : World)
      → All IsKept ts
      → IsIdle w
      → ((take_turns ts w).wire ≡ w.wire ++ replies ts) × IsIdle (take_turns ts w)
  unfolding take_turns
  take_turns_lem [] w v i = (sym (append-nil w.wire), i)
  take_turns_lem (t ∷ ts) w ((v, k), vs) i =
      let a = take_turn_lem t w v i in
      let (e, j) = take_turns_lem ts (take_turn t w) vs (a.idle k) in
      (
        e
            ∙ ap (λ s. s ++ replies ts) a.whole
            ∙ append_assoc w.wire (reply setup t.message) (replies ts),
        j,
      )

  -- A client writes requests as in `feed-render`, of at most 64 KB, to an idle connection, the next
  -- one when it has the answer to the last, however cut into reads; no first write of an answer
  -- fails, and each later one takes a byte at least. Then it gets, whole and in order, and nothing
  -- else, for each request the message of what the user's callback makes of the request's method,
  -- path, version, header fields and body and of an empty 200 response, or of an OK text where there
  -- is no callback, marked as keeping the connection just if the request wants it: by HTTP/1.1
  -- without `Connection: close`, or another version with `Connection: keep-alive`. After requests
  -- that want it kept, the connection is closed just if the last one does not; if it is not closed,
  -- it is idle again.
  pub exchanges-Answered :
      (ts : List Turn) (t : Turn) (w : World)
      → All IsKept ts
      → IsTurn t
      → IsIdle w
      → Answered w
          (wants_keep t.message)
          (replies ts ++ reply setup t.message)
          (take_turn t (take_turns ts w))
  exchanges-Answered ts t w vs v i =
      let (e, j) = take_turns_lem ts w vs i in
      let a = take_turn_lem t (take_turns ts w) v j in
      record {
        whole =
            a.whole
            ∙ ap (λ s. s ++ reply setup t.message) e
            ∙ append_assoc w.wire (replies ts) (reply setup t.message);
        decided = a.decided;
        idle = a.idle;
      }

pub new_connection-IsIdle :
    (self : ℕ) (fd : ℤ) (loop : EventLoop ℤ) (epoll : Epoll)
    → IsIdle (new_connection self fd loop epoll)
unfolding new_connection enable_reading
new_connection-IsIdle self fd loop epoll = record {
  no_request = refl;
  nothing_waits = refl;
  nothing_sent = refl;
  open_yet = refl;
}
