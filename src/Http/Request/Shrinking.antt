-- ===== src/Http/Request/Shrinking.antt =====
-- What a round takes off the buffer of HttpRequest::parse (HttpRequest.cpp).
use cs_system_lab.Prelude.{
  ℕ, ◌+◌, ◌≤◌, ◌<◌, ◌≡◌, Bool, [], ◌∷◌, inl, inr, some, arith, length, take, length-drop,
  Option-cases,
}
use cs_system_lab.Prelude.Bytes.{Bytes, crlf, find}
use cs_system_lab.Prelude.Bytes.Search.{find-bound}
use cs_system_lab.Http.Request.{
  HttpRequest, State, expect_request_line, expect_headers, expect_body, got_all, parse_request_line,
  parse_header, header_line, round_in, round, continues, returns, cut,
}

parse_request_line-buf :
    (r : HttpRequest) (line : Bytes) → (parse_request_line r line).0.buf ≡ r.buf
unfolding parse_request_line
parse_request_line-buf r line = ground arith

parse_header-buf : (r : HttpRequest) (line : Bytes) → (parse_header r line).0.buf ≡ r.buf
unfolding parse_header
parse_header-buf r line = ground arith

header_line-buf :
    (r r' : HttpRequest) (line : Bytes) → header_line r line ≡ continues r' → r'.buf ≡ r.buf
unfolding header_line
header_line-buf r r' [] h = ground arith
header_line-buf r r' (c ∷ line) h = ground (arith, parse_header-buf r (c ∷ line))

cut_shorter :
    (r : HttpRequest) (eol : ℕ) → find crlf r.buf ≡ some eol → length (cut r eol).buf < length r.buf
cut_shorter r eol e = omega (arith, find-bound crlf r.buf eol e, length-drop (eol + 2) r.buf)

round_in-shorter :
    (s : State) (r r' : HttpRequest) → round_in s r ≡ continues r' → length r'.buf < length r.buf
unfolding round_in
round_in-shorter expect_request_line r r' h = elim (Option-cases (find crlf r.buf)) [
  | inl e ↦ absurd (ground arith)
  | inr (eol, e) ↦
      ground (arith, cut_shorter r eol e, parse_request_line-buf (cut r eol) (take eol r.buf))
]
round_in-shorter expect_headers r r' h = elim (Option-cases (find crlf r.buf)) [
  | inl e ↦ absurd (ground arith)
  | inr (eol, e) ↦
      ground (arith, cut_shorter r eol e, header_line-buf (cut r eol) r' (take eol r.buf))
]
round_in-shorter expect_body r r' h = ground arith
round_in-shorter got_all r r' h = cc

pub round-shorter : (r r' : HttpRequest) → round r ≡ continues r' → length r'.buf < length r.buf
round-shorter r r' h = round_in-shorter r.state r r' h

header_line-returns_buf :
    (r r' : HttpRequest) (b : Bool) (line : Bytes)
    → header_line r line ≡ returns r' b
    → r'.buf ≡ r.buf
unfolding header_line
header_line-returns_buf r r' b [] h = cc
header_line-returns_buf r r' b (c ∷ line) h = ground (arith, parse_header-buf r (c ∷ line))

round_in-returns_le :
    (s : State) (r r' : HttpRequest) (b : Bool)
    → round_in s r ≡ returns r' b
    → length r'.buf ≤ length r.buf
unfolding round_in
round_in-returns_le expect_request_line r r' b h = elim (Option-cases (find crlf r.buf)) [
  | inl e ↦ ground arith
  | inr (eol, e) ↦
      ground (arith, cut_shorter r eol e, parse_request_line-buf (cut r eol) (take eol r.buf))
]
round_in-returns_le expect_headers r r' b h = elim (Option-cases (find crlf r.buf)) [
  | inl e ↦ ground arith
  | inr (eol, e) ↦
      ground (arith, cut_shorter r eol e, header_line-returns_buf (cut r eol) r' b (take eol r.buf))
]
round_in-returns_le expect_body r r' b h = ground (arith, length-drop r.content_length r.buf)
round_in-returns_le got_all r r' b h = ground arith

pub round-returns_le :
    (r r' : HttpRequest) (b : Bool) → round r ≡ returns r' b → length r'.buf ≤ length r.buf
round-returns_le r r' b h = round_in-returns_le r.state r r' b h

-- To split on a round and keep the equation.
