-- ===== src/Http/Response/Framing.antt =====
-- What a client finds in a message that `toMessage` writes.
use cs_system_lab.Prelude.{
  suc, ◌≤◌, ◌≡◌, refl, ap, ◌∙◌, Bool, true, false, List, [], ◌∷◌, ◌++◌, map, some, arith, length,
  take-append_length, drop-append_length, if◌then◌else◌, All, All-append, append_assoc,
}
use cs_system_lab.Prelude.Bytes.{Bytes, codes, crlf, starts_with}
use cs_system_lab.Prelude.Bytes.Search.{Lacks}
use cs_system_lab.Prelude.Int.{ℤ, pos, negsuc}
use cs_system_lab.Prelude.Map.{Headers}
use cs_system_lab.Http.Number.{long_max, decimal, decimal_int}
use cs_system_lab.Http.Number.RoundTrip.{strtol-decimal, decimal-AllDigits, digits-Lacks}
use cs_system_lab.Http.Response.{
  HttpResponse, to_message, status_line, header_line, header_lines, length_line, connection_line,
}
use cs_system_lab.Http.Response.Reading.{content_length, read_reply}
use cs_system_lab.Http.Response.Reading.Lines.{
  join_lines, IsLine, read_lines_lem, length-join_lines,
}

-- The lines of the head, in order.
abbrev pub head_lines : HttpResponse → Headers → List Bytes
head_lines r order =
    status_line r ∷ (map header_line order ++ (length_line r ∷ connection_line r ∷ []))

-- A header that breaks no line and does not pose as the length of the body.
pub record IsHeader (kv : Bytes × Bytes) : Type 0 where
  pub no_break : Lacks 13 (header_line kv)
  pub other : starts_with (codes "Content-Length: ") (header_line kv) ≡ false

pub record IsFramed (r : HttpResponse) (order : Headers) : Type 0 where
  pub message_no_break : Lacks 13 r.status_message
  pub each : All IsHeader order
  pub short_body : length r.body ≤ long_max

header_lines-append :
    (order : Headers) (s t : Bytes) → header_lines order s ++ t ≡ header_lines order (s ++ t)
header_lines-append [] s t = refl
header_lines-append ((k, v) ∷ order) s t =
    append_assoc (header_line (k, v)) (crlf ++ header_lines order s) t
    ∙ ap (λ u. header_line (k, v) ++ (crlf ++ u)) (header_lines-append order s t)

header_lines-join_lines :
    (order : Headers) (lines : List Bytes) (t : Bytes)
    → header_lines order (join_lines lines t) ≡ join_lines (map header_line order ++ lines) t
header_lines-join_lines [] lines t = refl
header_lines-join_lines ((k, v) ∷ order) lines t =
    ap (λ u. header_line (k, v) ++ (crlf ++ u)) (header_lines-join_lines order lines t)

to_message-join_lines :
    (r : HttpResponse) (order : Headers) (rest : Bytes)
    → to_message r order ++ rest ≡ join_lines (head_lines r order) (r.body ++ rest)
unfolding to_message
to_message-join_lines r order rest =
    append_assoc (status_line r) _ rest
    ∙ ap (λ u. status_line r ++ (crlf ++ u))
        (header_lines-append order _ rest
          ∙ ap (header_lines order) (
              append_assoc (length_line r) _ rest
              ∙ ap (λ u. length_line r ++ (crlf ++ u)) (append_assoc (connection_line r) _ rest))
          ∙ header_lines-join_lines order (length_line r ∷ connection_line r ∷ []) (r.body ++ rest))

decimal_int-Lacks : (c : ℤ) → Lacks 13 (decimal_int c)
unfolding decimal_int
decimal_int-Lacks (pos n) = digits-Lacks (decimal n) (decimal-AllDigits n)
decimal_int-Lacks (negsuc n) =
    (omega arith, digits-Lacks (decimal (suc n)) (decimal-AllDigits (suc n)))

header_line-IsLine : (kv : Bytes × Bytes) → Lacks 13 (header_line kv) → IsLine (header_line kv)
header_line-IsLine ([], v) h = h
header_line-IsLine ((c ∷ k), v) h = h

headers-IsLine :
    (order : Headers) (more : List Bytes)
    → All IsHeader order
    → All IsLine more
    → All IsLine (map header_line order ++ more)
headers-IsLine [] more h k = k
headers-IsLine (kv ∷ order) more (h, hs) k =
    (header_line-IsLine kv h.no_break, headers-IsLine order more hs k)

connection_line-IsLine : (r : HttpResponse) → IsLine (connection_line r)
connection_line-IsLine r = All-append _ (codes "Connection: ") _ (omega arith) (word r.keep_alive)
  where
    word : (b : Bool) → Lacks 13 (if b then codes "keep-alive" else codes "close")
    word true = omega arith
    word false = omega arith

head_lines-IsLine :
    (r : HttpResponse) (order : Headers) → IsFramed r order → All IsLine (head_lines r order)
head_lines-IsLine r order f = (
  All-append _ (codes "HTTP/1.1 ") _ (omega arith) (
      All-append _ (decimal_int r.status_code) _ (decimal_int-Lacks r.status_code)
        (omega arith, f.message_no_break)),
  headers-IsLine order _ f.each (
    All-append _ (codes "Content-Length: ") _ (omega arith)
        (digits-Lacks (decimal (length r.body)) (decimal-AllDigits (length r.body))),
    (connection_line-IsLine r, tt),
  ),
)

content_length-headers :
    (order : Headers) (more : List Bytes)
    → All IsHeader order
    → content_length (map header_line order ++ more) ≡ content_length more
unfolding content_length
content_length-headers [] more h = refl
content_length-headers (kv ∷ order) more (h, hs) = rw h.other (content_length-headers order more hs)

content_length-head_lines :
    (r : HttpResponse) (order : Headers)
    → IsFramed r order
    → content_length (head_lines r order) ≡ some (length r.body)
unfolding content_length starts_with
content_length-head_lines r order f =
    content_length-headers order _ f.each ∙ rw (strtol-decimal (length r.body) f.short_body)

-- A client that gets a message, with anything behind it, finds the lines of its head, its body
-- and what is behind it, whatever the order of the headers, if no line end stands in the status
-- message or a header and no header poses as Content-Length.
pub read_reply-to_message :
    (r : HttpResponse) (order : Headers) (rest : Bytes)
    → IsFramed r order
    → read_reply (to_message r order ++ rest)
      ≡ some (record { head = head_lines r order; body = r.body; rest = rest })
unfolding read_reply
read_reply-to_message r order rest f =
    let lines = head_lines r order in
    rw (
      to_message-join_lines r order rest,
      read_lines_lem _ lines (r.body ++ rest) (head_lines-IsLine r order f)
          (length-join_lines lines (r.body ++ rest)),
      content_length-head_lines r order f,
      take-append_length r.body rest,
      drop-append_length r.body rest,
    )
