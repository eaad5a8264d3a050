-- ===== src/Server/Connection/Rejecting.antt =====
-- A request that the parser rejects.
use cs_system_lab.Prelude.{
  ℕ, ◌≡◌, refl, ap, ◌∙◌, inl, inr, Bool, true, false, List, [], ◌++◌, arith, ltb, leb, length,
  Bool-cases,
}
use cs_system_lab.Prelude.Bytes.{Bytes, codes}
use cs_system_lab.Http.Number.{decimal, decimal_int}
use cs_system_lab.Http.Request.{HttpRequest}
use cs_system_lab.Http.Request.Chunks.{run_parse}
use cs_system_lab.Http.Response.{set_status_code, set_body, to_message}
use cs_system_lab.Reactor.Channel.{enable_writing}
use cs_system_lab.Server.Connection.{
  World, WriteResult, wrote, would_block, write_failed, got, remove_connection, after_send,
  send_message, with_request, Setup, bad_request, after_parse, on_read,
}
use cs_system_lab.Server.Connection.Partial.{IsRead, on_read-got}
use cs_system_lab.Server.Connection.Answer.{remove_connection-closing}
use cs_system_lab.Server.Connection.Writing.{outstanding, stream, remove_connection-stream}
use cs_system_lab.Server.Connection.Output.{on_writes, on_writes-stream, message_whole}

-- What the peer is to read, byte for byte.
abbrev pub bad_text : Bytes
bad_text =
    codes "HTTP/1.1 400 Bad Request\r\nContent-Length: 12\r\nConnection: close\r\n\r\nBad Request\n"

-- By the answer to the first `write`: what the peer gets then and later, and whether the connection
-- is closed at once.
abbrev pub told : WriteResult → Bytes
told write_failed = []
told _ = bad_text

abbrev pub closes_now : WriteResult → Bool
closes_now (wrote n) = leb (length bad_text) n
closes_now would_block = false
closes_now write_failed = true

module _ (setup : Setup) where
  open setup use {iterate}

  bad_message-bad_text :
      iterate [] ≡ []
      → to_message (bad_request setup) (iterate (bad_request setup).headers) ≡ bad_text
  unfolding bad_request set_status_code set_body to_message decimal decimal_int
  bad_message-bad_text e = rw e refl

  on_read-bad_text :
      (bytes : Bytes) (answer : WriteResult) (w : World) (r : HttpRequest)
      → iterate [] ≡ []
      → IsRead bytes
      → run_parse w.conn.request bytes ≡ (r, false)
      → on_read setup (got bytes) answer w ≡ send_message answer false bad_text (with_request w r)
  unfolding after_parse bad_request set_status_code set_body
  on_read-bad_text bytes answer w r none v e =
      on_read-got setup bytes answer w v
      ∙ ap (λ p. after_parse setup answer w p) e
      ∙ ap (λ msg. send_message answer false msg (with_request w r)) (bad_message-bad_text none)

after_send-closing :
    (w : World) (msg : Bytes) (sent : ℕ)
    → w.conn.closing ≡ false
    → (after_send w false msg sent).conn.closing ≡ leb (length msg) sent
unfolding after_send enable_writing
after_send-closing w msg sent o = elim (Bool-cases (ltb sent (length msg))) [
  | inl l ↦ rw l (ground (arith, l))
  | inr l ↦ rw l (remove_connection-closing _ ∙ ground (arith, l))
]

send_message-closing :
    (answer : WriteResult) (w : World)
    → w.conn.closing ≡ false
    → (send_message answer false bad_text w).conn.closing ≡ closes_now answer
unfolding send_message
send_message-closing (wrote n) w o = after_send-closing w bad_text _ o ∙ ground arith
send_message-closing would_block w o = after_send-closing w bad_text 0 o
send_message-closing write_failed w o = remove_connection-closing w

send_message-told :
    (answer : WriteResult) (calls : List (ℕ → WriteResult)) (w : World)
    → outstanding w ≡ []
    → stream (on_writes calls (send_message answer false bad_text w)) ≡ w.wire ++ told answer
unfolding send_message
send_message-told (wrote n) calls w e = message_whole (wrote n) false bad_text calls w e (cc)
send_message-told would_block calls w e = message_whole would_block false bad_text calls w e (cc)
send_message-told write_failed calls w e =
    on_writes-stream calls (remove_connection w)
    ∙ remove_connection-stream w
    ∙ ap (λ s. w.wire ++ s) e

-- Where the parser rejects what was read on an open connection that has nothing to send, and the
-- server iterates over no headers as over none: unless the first `write` fails, what the peer gets
-- then and after any calls of `onWrite`, and what still waits, are together the whole 400 response,
-- byte for byte, behind what it got before; if it fails, the peer gets nothing more. The connection
-- is closed at once just if that `write` took all or failed.
pub on_read-rejected :
    (setup : Setup) (bytes : Bytes) (answer : WriteResult) (calls : List (ℕ → WriteResult))
    (w : World) (r : HttpRequest)
    → setup.iterate [] ≡ []
    → IsRead bytes
    → run_parse w.conn.request bytes ≡ (r, false)
    → outstanding w ≡ []
    → w.conn.closing ≡ false
    → (stream (on_writes calls (on_read setup (got bytes) answer w)) ≡ w.wire ++ told answer)
      × ((on_read setup (got bytes) answer w).conn.closing ≡ closes_now answer)
on_read-rejected setup bytes answer calls w r none v e empty o =
    rw (on_read-bad_text setup bytes answer w r none v e) (
      send_message-told answer calls (with_request w r) empty,
      send_message-closing answer (with_request w r) o,
    )
