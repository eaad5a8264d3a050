-- ===== src/Http/Request/Render/Fields.antt =====
-- `parse` on a line that a client has written, and on the header fields of a request.
use cs_system_lab.Prelude.{
  ℕ, ◌+◌, ◌≤◌, ◌<◌, ◌≡◌, refl, ap, ◌∙◌, ◌⊎◌, inl, inr, true, Bool-cases, if◌then◌else◌, List, [],
  ◌∷◌, ◌++◌, map, some, arith, length, All, take, drop_past, take-append_length,
}
use cs_system_lab.Prelude.Bytes.{Bytes, crlf, to_lower, find}
use cs_system_lab.Prelude.Bytes.Search.{Lacks, find-crlf}
use cs_system_lab.Prelude.Map.{insert, length-insert-le}
use cs_system_lab.Http.Request.{
  HttpRequest, expect_request_line, expect_headers, round_in, cut, checked, header_line, counted,
  parse_request_line, parse_header, store_header, max_header_count,
}
use cs_system_lab.Http.Request.Looping.{settle, settle-continues}
use cs_system_lab.Http.Request.Render.Lines.{header_stored}
use cs_system_lab.Http.Request.Render.{
  field_line, field_lines, IsField, stored, is_length, has_length,
}
use cs_system_lab.Http.Number.{long_max}
use cs_system_lab.Http.Number.RoundTrip.{strtol-decimal}

request_line_at :
    (r : HttpRequest) (eol : ℕ)
    → find crlf r.buf ≡ some eol
    → round_in expect_request_line r
      ≡ checked expect_headers (parse_request_line (cut r eol) (take eol r.buf))
unfolding round_in
request_line_at r eol e = rw (e, round_in)

header_at :
    (r : HttpRequest) (eol : ℕ)
    → find crlf r.buf ≡ some eol
    → round_in expect_headers r ≡ header_line (cut r eol) (take eol r.buf)
unfolding round_in
header_at r eol e = rw (e, round_in)

-- The rounds that find a whole line in front of the buffer.
module _ (r : HttpRequest) (line rest : Bytes) (h : Lacks 13 line) where
  abbrev full : HttpRequest
  full = record r { buf = line ++ (crlf ++ rest) }

  pub found_request_line :
      round_in expect_request_line full
      ≡ checked expect_headers (parse_request_line (record r { buf = rest }) line)
  found_request_line =
      request_line_at full (length line) (find-crlf line rest h)
      ∙ (rw (take-append_length line (crlf ++ rest), drop_past line (crlf ++ rest) 2))

  pub found_header : round_in expect_headers full ≡ header_line (record r { buf = rest }) line
  found_header =
      header_at full (length line) (find-crlf line rest h)
      ∙ (rw (take-append_length line (crlf ++ rest), drop_past line (crlf ++ rest) 2))

-- The object while headers are read.
abbrev pub reading : HttpRequest → Bytes → HttpRequest
reading r buf = record r { state = expect_headers; buf = buf }

pub header_line_nonempty :
    (r : HttpRequest) (k v : Bytes)
    → header_line r (field_line (k, v)) ≡ counted (parse_header r (field_line (k, v)))
unfolding header_line
header_line_nonempty r [] v = refl
header_line_nonempty r (c ∷ k) v = refl

-- What the fields leave of the length of the body, which is `n`.
abbrev pub sized : ℕ → List (Bytes × Bytes) → ℕ → ℕ
sized n [] c = c
sized n (kv ∷ kvs) c = sized n kvs (if is_length kv then n else c)

pub sized_lem :
    (n : ℕ) (kvs : List (Bytes × Bytes)) (c : ℕ)
    → (c ≡ n) ⊎ (has_length kvs ≡ true)
    → sized n kvs c ≡ n
sized_lem n [] c (inl e) = e
sized_lem n [] c (inr e) = absurd (cc)
sized_lem n (kv ∷ kvs) c h = elim (Bool-cases (is_length kv)) [
  | inl e ↦ rw e (sized_lem n kvs n (inl refl))
  | inr e ↦ rw e (sized_lem n kvs c (elim h [ inl k ↦ inl k | inr k ↦ inr (ground arith) ]))
]

module _ (n : ℕ) (le : n ≤ long_max) where
  store_field :
      (r : HttpRequest) (kv : Bytes × Bytes)
      → IsField n kv
      → store_header r (map to_lower kv.0) kv.1 ≡ (
        record r {
          headers = insert (map to_lower kv.0) kv.1 r.headers;
          content_length = if is_length kv then n else r.content_length;
        },
        true,
      )
  unfolding store_header
  store_field r (k, v) f = elim (Bool-cases (is_length (k, v))) [
    | inl e ↦ rw (e, f.right_length e, strtol-decimal n le) refl
    | inr e ↦ rw e refl
  ]

  one_field :
      (r : HttpRequest) (kv : Bytes × Bytes) (rest : Bytes)
      → IsField n kv
      → length r.headers < max_header_count
      → settle (reading r (field_line kv ++ (crlf ++ rest)))
        ≡ settle (
            reading
              (record r {
                headers = insert (map to_lower kv.0) kv.1 r.headers;
                content_length = if is_length kv then n else r.content_length;
              })
              rest)
  one_field r (k, v) rest f few = settle-continues _ _ (
      found_header (reading r []) (field_line (k, v)) rest f.no_break
      ∙ header_line_nonempty (reading r rest) k v
      ∙ ap counted (header_stored (reading r rest) k v f.no_colon f.solid)
      ∙ ap counted (store_field (reading r rest) (k, v) f)
      ∙ ground (arith, length-insert-le (map to_lower k) v r.headers))

  pub fields :
      (r : HttpRequest) (kvs : List (Bytes × Bytes)) (rest : Bytes)
      → All (IsField n) kvs
      → length r.headers + length kvs ≤ max_header_count
      → settle (reading r (field_lines kvs rest))
        ≡ settle (
            reading
              (record r {
                headers = stored r.headers kvs;
                content_length = sized n kvs r.content_length;
              })
              (crlf ++ rest))
  fields r [] rest f few = refl
  fields r ((k, v) ∷ kvs) rest (f, fs) few =
      one_field r (k, v) (field_lines kvs rest) f (omega arith)
      ∙ fields
          (record r {
            headers = insert (map to_lower k) v r.headers;
            content_length = if is_length (k, v) then n else r.content_length;
          })
          kvs rest fs (omega (arith, length-insert-le (map to_lower k) v r.headers))
