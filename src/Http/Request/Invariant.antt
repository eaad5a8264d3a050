-- ===== src/Http/Request/Invariant.antt =====
-- What holds of a request object between two calls of `parse`.
use cs_system_lab.Prelude.{
  ℕ, zero, suc, ◌+◌, ◌≡◌, refl, ap, subst, ◌∙◌, Bool, true, false, List, [], ◌∷◌, ◌++◌, inl, inr,
  some, arith, length, take, drop, length-take, ltb, leb, Bool-cases, ltb→lt, Option-cases,
}
use cs_system_lab.Prelude.Bytes.{Bytes, crlf, find}
use cs_system_lab.Http.Request.{
  HttpRequest, State, expect_request_line, expect_headers, expect_body, got_all, parse_request_line,
  parse_header, header_line, checked, cut, round_in, round, continues, returns, loop, parse,
  appended, max_request_size,
}
use cs_system_lab.Http.Request.Rounds.{Round-cases, header_line-ne-returns}
use cs_system_lab.Http.Request.Chunks.{feed, parse-cases}
use cs_system_lab.Http.Request.Shape.{
  Inv, parse_request_line-Inv, parse_header-SameLine, counted-few, HasLine-same, Inv-at,
}

header_line-Inv :
    (r q : HttpRequest) (line : Bytes)
    → r.state ≡ expect_headers
    → Inv expect_headers r
    → header_line r line ≡ continues q
    → Inv q.state q
unfolding header_line
header_line-Inv r q [] s (v, b) h = elim (Bool-cases (ltb 0 r.content_length)) [
  | inl e ↦
      let to_body : q ≡ record r { state = expect_body } = ground arith in
      rw to_body (HasLine-same v refl refl v.few_headers v.long_length, b, ltb→lt _ _ e)
  | inr e ↦
      let to_all : q ≡ record r { state = got_all } = ground arith in
      rw to_all (HasLine-same v refl refl v.few_headers v.long_length, ground arith)
]
header_line-Inv r q (c ∷ line) s (v, b) h =
    let (same, few) = counted-few (parse_header r (c ∷ line)) q h in
    let (p1, p2, p3, p4, p5) = parse_header-SameLine r (c ∷ line) v.long_length in
    Inv-at expect_headers q (ap (λ (x : HttpRequest). x.state) same ∙ p4 ∙ s) (
      HasLine-same v (ap (λ (x : HttpRequest). x.path) same ∙ p1)
          (ap (λ (x : HttpRequest). x.version) same ∙ p2) few
          (omega (arith, ap (λ (x : HttpRequest). x.content_length) same)),
      ap (λ (x : HttpRequest). x.body) same ∙ p3 ∙ b,
    )

checked-Inv :
    (s : State) (p : HttpRequest × Bool) (q : HttpRequest)
    → checked s p ≡ continues q
    → (p.1 ≡ true → Inv s (record p.0 { state = s }))
    → Inv q.state q
checked-Inv s (r, true) q h k =
    let eq : record r { state = s } ≡ q = ground arith in
    subst (λ (x : HttpRequest). Inv x.state x) eq (k refl)
checked-Inv s (r, false) q h k = cc

round_in-Inv :
    (s : State) (r q : HttpRequest)
    → r.state ≡ s
    → Inv s r
    → round_in s r ≡ continues q
    → Inv q.state q
unfolding round_in
round_in-Inv expect_request_line r q e v h = elim (Option-cases (find crlf r.buf)) [
  | inl n ↦ absurd (ground arith)
  | inr (eol, n) ↦
      checked-Inv expect_headers (parse_request_line (cut r eol) (take eol r.buf)) q
        (rw (n, round_in) at h)
        (λ t.
          let (w, b) = parse_request_line-Inv (cut r eol) (take eol r.buf) v t in
          (HasLine-same w refl refl w.few_headers w.long_length, b))
]
round_in-Inv expect_headers r q e v h = elim (Option-cases (find crlf r.buf)) [
  | inl n ↦ absurd (ground arith)
  | inr (eol, n) ↦
      header_line-Inv (cut r eol) q (take eol r.buf) e
        (HasLine-same v.0 refl refl v.0.few_headers v.0.long_length, v.1) (rw (n, round_in) at h)
]
round_in-Inv expect_body r q e v h = ground arith
round_in-Inv got_all r q e v h = cc

unchanged-Inv : (s : State) (r q : HttpRequest) → r.state ≡ s → Inv s r → r ≡ q → Inv q.state q
unchanged-Inv s r q e v eq = subst (λ (x : HttpRequest). Inv x.state x) eq (Inv-at s r e v)

-- The round that ends the loop with acceptance.
round_in-returns_Inv :
    (s : State) (r q : HttpRequest)
    → r.state ≡ s
    → Inv s r
    → round_in s r ≡ returns q true
    → Inv q.state q
unfolding round_in
round_in-returns_Inv expect_request_line r q e v h = elim (Option-cases (find crlf r.buf)) [
  | inl n ↦ unchanged-Inv expect_request_line r q e v (ground arith)
  | inr (eol, n) ↦ absurd (ground arith)
]
round_in-returns_Inv expect_headers r q e v h = elim (Option-cases (find crlf r.buf)) [
  | inl n ↦ unchanged-Inv expect_headers r q e v (ground arith)
  | inr (eol, n) ↦
      absurd (header_line-ne-returns (cut r eol) q (take eol r.buf) (rw (n, round_in) at h))
]
round_in-returns_Inv expect_body r q e v h =
    elim (Bool-cases (leb r.content_length (length r.buf))) [
      | inl t ↦
          let eq : record r {
            body = take r.content_length r.buf;
            buf = drop r.content_length r.buf;
            state = got_all;
          }
              ≡ q =
            ground arith in
          subst (λ (x : HttpRequest). Inv x.state x) eq
            (
              HasLine-same v.0 refl refl v.0.few_headers v.0.long_length,
              ground (arith, length-take r.content_length r.buf),
            )
      | inr t ↦ unchanged-Inv expect_body r q e v (ground arith)
    ]
round_in-returns_Inv got_all r q e v h = unchanged-Inv got_all r q e v (ground arith)

abbrev pub IsValid : HttpRequest → Type 0
IsValid r = Inv r.state r

loop-IsValid : (f : ℕ) (r q : HttpRequest) → IsValid r → loop f r ≡ some (q, true) → IsValid q
unfolding loop
loop-IsValid zero r q v h = cc
loop-IsValid (suc f) r q v h = elim (Round-cases (round r)) [
  | inl (p, e) ↦ loop-IsValid f p q (round_in-Inv r.state r p refl v e) (rw (e, loop) at h)
  | inr (p, true, e) ↦
      let eq : p ≡ q = ground arith in subst IsValid eq (round_in-returns_Inv r.state r p refl v e)
  | inr (p, false, e) ↦ absurd (ground arith)
]

-- Appending to the buffer is no matter to the invariant.
appended-IsValid : (s : State) (r : HttpRequest) (t : Bytes) → Inv s r → Inv s (appended r t)
appended-IsValid expect_request_line r t v = v
appended-IsValid expect_headers r t (v, b) =
    (HasLine-same v refl refl v.few_headers v.long_length, b)
appended-IsValid expect_body r t (v, b, l) =
    (HasLine-same v refl refl v.few_headers v.long_length, b, l)
appended-IsValid got_all r t (v, b) = (HasLine-same v refl refl v.few_headers v.long_length, b)

parse-IsValid : (r q : HttpRequest) (t : Bytes) → IsValid r → parse r t ≡ some (q, true) → IsValid q
unfolding parse
parse-IsValid r q t v h = elim (Bool-cases (ltb max_request_size (length r.buf + length t))) [
  | inl e ↦ absurd (ground arith)
  | inr e ↦
      loop-IsValid (suc (length (r.buf ++ t))) (appended r t) q (appended-IsValid r.state r t v)
        (ground arith)
]

-- After accepted reads, from a valid object: a request line that was read has a path with a slash
-- in front and a version that begins with "HTTP/", there are at most 64 headers, the length of the
-- body is a `long`, and a complete request has a body of that length.
pub feed-IsValid :
    (r q : HttpRequest) (reads : List Bytes) → IsValid r → feed r reads ≡ some (q, true) → IsValid q
unfolding feed
feed-IsValid r q [] v h = let eq : r ≡ q = ground arith in subst IsValid eq v
feed-IsValid r q (t ∷ reads) v h = elim (parse-cases r t) [
  | inl (p, k) ↦ feed-IsValid p q reads (parse-IsValid r p t v k) (rw k at h)
  | inr (p, k) ↦ absurd (ground arith)
]
