-- ===== src/Http/Request/Shape.antt =====
-- What the line parsers keep of a request object.
use cs_system_lab.Prelude.{
  ℕ, zero, suc, ◌+◌, ◌-◌, ◌≤◌, ◌<◌, ◌≡◌, refl, sym, ap, subst, ◌∙◌, Bool, true, false, [], ◌∷◌, map,
  inl, inr, Option, none, some, arith, length, take, drop, Option-cases,
}
use cs_system_lab.Prelude.Bytes.{Bytes, codes, substr, to_lower, find, find_char, rfind_char}
use cs_system_lab.Prelude.Map.{insert}
use cs_system_lab.Prelude.Int.{ℤ, pos, negsuc}
use cs_system_lab.Http.Number.{long_max, strtol}
use cs_system_lab.Http.Number.Range.{strtol-le}
use cs_system_lab.Http.Request.{
  HttpRequest, State, expect_request_line, expect_headers, expect_body, got_all, slashed,
  is_at_start, counted, trimmed, assign_request_line, parse_request_line, store_header,
  parse_header, with_length, continues, max_header_count,
}

-- The path begins with a slash.
abbrev pub IsSlashed : Bytes → Type 0
IsSlashed [] = ⊥
IsSlashed (c ∷ p) = c ≡ b'/'

-- The version begins with "HTTP/".
abbrev pub IsHttp : Bytes → Type 0
IsHttp v = find (codes "HTTP/") v ≡ some 0

-- The header fields stay within their limits, and a request line that was read is in shape.
pub record HasLine (r : HttpRequest) : Type 0 where
  pub slashed_path : IsSlashed r.path
  pub http_version : IsHttp r.version
  pub few_headers : length r.headers ≤ max_header_count
  pub long_length : r.content_length ≤ long_max

-- The invariant, by the state of the machine.
abbrev pub Inv : State → HttpRequest → Type 0
Inv expect_request_line r = (r.headers ≡ []) × (r.body ≡ []) × (r.content_length ≡ 0)
Inv expect_headers r = HasLine r × (r.body ≡ [])
Inv expect_body r = HasLine r × (r.body ≡ []) × (0 < r.content_length)
Inv got_all r = HasLine r × (length r.body ≡ r.content_length)

pub slashed-IsSlashed : (p : Bytes) → IsSlashed (slashed p)
unfolding slashed
slashed-IsSlashed [] = refl
slashed-IsSlashed (c ∷ p) = ground arith

pub is_at_start→eq : (o : Option ℕ) → is_at_start o ≡ true → o ≡ some 0
is_at_start→eq none h = cc
is_at_start→eq (some zero) h = refl
is_at_start→eq (some (suc n)) h = cc

pub assign_request_line-HasLine :
    (r : HttpRequest) (line : Bytes) (pos1 pos2 : ℕ)
    → length r.headers ≤ max_header_count
    → r.content_length ≤ long_max
    → (assign_request_line r line pos1 pos2).1 ≡ true
    → HasLine (assign_request_line r line pos1 pos2).0
unfolding assign_request_line
assign_request_line-HasLine r line pos1 pos2 few long h = record {
  slashed_path = slashed-IsSlashed (substr line (pos1 + 1) (pos2 - pos1 - 1));
  http_version = is_at_start→eq _ h;
  few_headers = few;
  long_length = long;
}

pub parse_request_line-Inv :
    (r : HttpRequest) (line : Bytes)
    → Inv expect_request_line r
    → (parse_request_line r line).1 ≡ true
    → Inv expect_headers (parse_request_line r line).0
unfolding parse_request_line
parse_request_line-Inv r line (none_yet, no_body, no_length) h =
    elim (Option-cases (find_char b' ' line)) [
      | inl e ↦ absurd (ground arith)
      | inr (pos1, e) ↦ elim (Option-cases (rfind_char b' ' line)) [
        | inl e' ↦ absurd (ground arith)
        | inr (pos2, e') ↦ ground (arith, assign_request_line-HasLine r line pos1 pos2)
      ]
    ]

-- A header line leaves the request line and the body alone, and keeps the length in range.
abbrev pub SameLine : HttpRequest → HttpRequest → Type 0
SameLine r q =
    (q.path ≡ r.path)
    × (q.version ≡ r.version)
    × (q.body ≡ r.body)
    × (q.state ≡ r.state)
    × (q.content_length ≤ long_max)

pub with_length-SameLine :
    (r : HttpRequest) (o : Option ℤ)
    → r.content_length ≤ long_max
    → ((n : ℕ) → o ≡ some (pos n) → n ≤ long_max)
    → SameLine r (with_length r o).0
with_length-SameLine r none h k = (refl, refl, refl, refl, h)
with_length-SameLine r (some (negsuc n)) h k = (refl, refl, refl, refl, h)
with_length-SameLine r (some (pos n)) h k = (refl, refl, refl, refl, k n refl)

pub store_header-SameLine :
    (r : HttpRequest) (key value : Bytes)
    → r.content_length ≤ long_max
    → SameLine r (store_header r key value).0
unfolding store_header
store_header-SameLine r key value h = ground (
  arith,
  with_length-SameLine (record r { headers = insert key value r.headers }) (strtol value) h
      (strtol-le value),
)

pub parse_header-SameLine :
    (r : HttpRequest) (line : Bytes)
    → r.content_length ≤ long_max
    → SameLine r (parse_header r line).0
unfolding parse_header
parse_header-SameLine r line h = elim (Option-cases (find_char b':' line)) [
  | inl e ↦ ground arith
  | inr (colon, e) ↦
      rw (e, parse_header)
        (store_header-SameLine r (map to_lower (take colon line)) (trimmed (drop (colon + 1) line))
          h)
]

pub counted-few :
    (p : HttpRequest × Bool) (q : HttpRequest)
    → counted p ≡ continues q
    → (q ≡ p.0) × (length q.headers ≤ max_header_count)
counted-few (r, false) q h = cc
counted-few (r, true) q h = ground arith

-- `HasLine` reads the request line and two limits only.
pub HasLine-same :
    {r q : HttpRequest}
    → HasLine r
    → q.path ≡ r.path
    → q.version ≡ r.version
    → length q.headers ≤ max_header_count
    → q.content_length ≤ long_max
    → HasLine q
HasLine-same v p w few long = record {
  slashed_path = subst IsSlashed (sym p) v.slashed_path;
  http_version = ap (find (codes "HTTP/")) w ∙ v.http_version;
  few_headers = few;
  long_length = long;
}

pub Inv-at : (s : State) (q : HttpRequest) → q.state ≡ s → Inv s q → Inv q.state q
Inv-at s q e h = subst (λ x. Inv x q) (sym e) h
