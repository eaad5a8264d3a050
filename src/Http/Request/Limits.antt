-- ===== src/Http/Request/Limits.antt =====
-- The limits on a request: the buffer, the body and the number of headers.
use cs_system_lab.Prelude.{
  suc, ◌+◌, ◌≤◌, ◌<◌, ◌≡◌, Bool, true, false, List, [], ◌∷◌, ◌++◌, inl, inr, some, arith, length,
  length-append, ltb, Bool-cases, ltb→le,
}
use cs_system_lab.Prelude.Bytes.{Bytes}
use cs_system_lab.Http.Request.{
  HttpRequest, expect_body, round_in, loop, parse, appended, max_request_size,
}
use cs_system_lab.Http.Request.Chunks.{feed, parse-cases}
use cs_system_lab.Http.Request.Looping.{loop-le}

-- A read that would take the buffer over the limit is rejected, and leaves the object alone.
pub parse_too_long :
    (r : HttpRequest) (t : Bytes)
    → max_request_size < length r.buf + length t
    → parse r t ≡ some (r, false)
unfolding parse
parse_too_long r t h = ground arith

parse_waits :
    (r q : HttpRequest) (t : Bytes)
    → r.state ≡ expect_body
    → max_request_size < r.content_length
    → parse r t ≡ some (q, true)
    → (q.state ≡ expect_body) × (q.content_length ≡ r.content_length)
unfolding parse loop round_in
parse_waits r q t s h e = ground (arith, length-append r.buf t)

-- A request whose body is longer than the buffer may grow is never complete: whatever is read,
-- the parser goes on waiting for the body, until a read is rejected.
pub feed_oversized :
    (r q : HttpRequest) (reads : List Bytes)
    → r.state ≡ expect_body
    → max_request_size < r.content_length
    → feed r reads ≡ some (q, true)
    → q.state ≡ expect_body
unfolding feed
feed_oversized r q [] s h e = ground arith
feed_oversized r q (t ∷ reads) s h e = elim (parse-cases r t) [
  | inl (p, k) ↦
      let (ps, pl) = parse_waits r p t s h k in
      feed_oversized p q reads ps (omega arith) (rw k at e)
  | inr (p, k) ↦ absurd (ground arith)
]

parse_bounded :
    (r q : HttpRequest) (t : Bytes) (b : Bool)
    → length r.buf ≤ max_request_size
    → parse r t ≡ some (q, b)
    → length q.buf ≤ max_request_size
unfolding parse
parse_bounded r q t b h e = elim (Bool-cases (ltb max_request_size (length r.buf + length t))) [
  | inl k ↦ ground arith
  | inr k ↦ omega (
    arith,
    loop-le (suc (length (r.buf ++ t))) (appended r t) q b (ground arith),
    length-append r.buf t,
    ltb→le max_request_size (length r.buf + length t) k,
  )
]

-- Whatever is read, and accepted or not, the buffer keeps within 64 KB.
pub feed_bounded :
    (r q : HttpRequest) (reads : List Bytes) (b : Bool)
    → length r.buf ≤ max_request_size
    → feed r reads ≡ some (q, b)
    → length q.buf ≤ max_request_size
unfolding feed
feed_bounded r q [] b h e = ground arith
feed_bounded r q (t ∷ reads) b h e = elim (parse-cases r t) [
  | inl (p, k) ↦ feed_bounded p q reads b (parse_bounded r p t true h k) (rw k at e)
  | inr (p, k) ↦ let le = parse_bounded r p t false h k in ground arith
]
