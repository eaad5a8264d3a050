-- ===== src/Http/Response/Reading.antt =====
-- A client's view of a message: lines up to an empty one, and then as many bytes as the line
-- Content-Length says.
pub mod Lines
use cs_system_lab.Prelude.{
  ℕ, zero, suc, ◌+◌, ◌≤◌, ◌<◌, ◌≡◌, refl, sym, ap, ◌∙◌, Bool, true, false, List, [], ◌∷◌, ◌++◌, map,
  Option, none, some, arith, length, length-append, take, drop, take-append_length,
  drop-append_length, if◌then◌else◌, All, All-append, append_assoc,
}
use cs_system_lab.Prelude.Bytes.{Bytes, codes, crlf, starts_with}
use cs_system_lab.Prelude.Bytes.Search.{Lacks}
use cs_system_lab.Prelude.Int.{ℤ, pos, negsuc}
use cs_system_lab.Prelude.Map.{Headers}
use cs_system_lab.Http.Number.{long_max, strtol, decimal, decimal_int}
use cs_system_lab.Http.Number.RoundTrip.{strtol-decimal, AllDigits, decimal-AllDigits}
use cs_system_lab.Http.Response.{
  HttpResponse, to_message, status_line, header_line, header_lines, length_line, connection_line,
}
use Lines.{read_lines, join_lines, IsLine, read_lines_lem, length-join_lines}

abbrev length_of : Option ℤ → Option ℕ
length_of (some (pos n)) = some n
length_of _ = none

-- The number in the first Content-Length line.
unfoldable pub content_length : List Bytes → Option ℕ
content_length [] = none
content_length (line ∷ lines) =
    if starts_with (codes "Content-Length: ") line
    then length_of (strtol (drop 16 line))
    else content_length lines

-- The lines of the head, the body, and what follows on the connection.
pub record Reply : Type 0 where
  pub head : List Bytes
  pub body : Bytes
  pub rest : Bytes

abbrev with_body : List Bytes → Bytes → Option ℕ → Option Reply
with_body lines s none = none
with_body lines s (some n) = some (record { head = lines; body = take n s; rest = drop n s })

abbrev after_lines : Option (List Bytes × Bytes) → Option Reply
after_lines none = none
after_lines (some (lines, s)) = with_body lines s (content_length lines)

unfoldable pub read_reply : Bytes → Option Reply
read_reply s = after_lines (read_lines (length s) s)
