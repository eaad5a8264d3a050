-- ===== src/Http/Response.antt =====
-- epoll-http-server/src/HttpResponse.h and HttpResponse.cpp.
pub mod Reading
pub mod Framing
use cs_system_lab.Prelude.{ℕ, Bool, true, false, List, [], ◌∷◌, ◌++◌, length, ◌==◌, if◌then◌else◌}
use cs_system_lab.Prelude.Bytes.{Bytes, codes, crlf}
use cs_system_lab.Prelude.Int.{ℤ, pos, negsuc}
use cs_system_lab.Prelude.Map.{Headers, insert}
use cs_system_lab.Http.Number.{decimal, decimal_int}

pub record HttpResponse : Type 0 where
  pub status_code : ℤ
  pub status_message : Bytes
  pub headers : Headers
  pub body : Bytes
  pub keep_alive : Bool

-- The constructor.
abbrev pub initial : HttpResponse
initial = record {
  status_code = pos 200;
  status_message = codes "OK";
  headers = [];
  body = [];
  keep_alive = false;
}

abbrev reason : ℤ → Bytes
reason (negsuc n) = codes "Unknown"
reason (pos n) =
    if n == 200
    then codes "OK"
    else if n == 404
    then codes "Not Found"
    else if n == 400
    then codes "Bad Request"
    else if n == 500
    then codes "Internal Server Error"
    else codes "Unknown"

unfoldable pub set_status_code : HttpResponse → ℤ → HttpResponse
set_status_code r c = record r { status_code = c; status_message = reason c }

unfoldable pub set_status_message : HttpResponse → Bytes → HttpResponse
set_status_message r msg = record r { status_message = msg }

unfoldable pub set_header : HttpResponse → Bytes → Bytes → HttpResponse
unfolding insert
set_header r key value = record r { headers = insert key value r.headers }

unfoldable pub set_content_type : HttpResponse → Bytes → HttpResponse
unfolding insert
set_content_type r type = record r { headers = insert (codes "Content-Type") type r.headers }

unfoldable pub set_body : HttpResponse → Bytes → HttpResponse
set_body r body = record r { body = body }

unfoldable pub set_keep_alive : HttpResponse → Bool → HttpResponse
set_keep_alive r on = record r { keep_alive = on }

-- One line of the message.
abbrev pub status_line : HttpResponse → Bytes
status_line r = codes "HTTP/1.1 " ++ (decimal_int r.status_code ++ (b' ' ∷ r.status_message))

abbrev pub header_line : Bytes × Bytes → Bytes
header_line (k, v) = k ++ (codes ": " ++ v)

abbrev pub length_line : HttpResponse → Bytes
length_line r = codes "Content-Length: " ++ decimal (length r.body)

abbrev pub connection_line : HttpResponse → Bytes
connection_line r =
    codes "Connection: " ++ (if r.keep_alive then codes "keep-alive" else codes "close")

-- The loop over the headers, in front of what is written behind it.
abbrev pub header_lines : Headers → Bytes → Bytes
header_lines [] rest = rest
header_lines (kv ∷ kvs) rest = header_line kv ++ (crlf ++ header_lines kvs rest)

-- `toMessage()`; the second argument is `headers_` in the order in which the map is iterated.
unfoldable pub to_message : HttpResponse → Headers → Bytes
to_message r order =
    status_line r
    ++ (crlf
        ++ header_lines order
            (length_line r ++ (crlf ++ (connection_line r ++ (crlf ++ (crlf ++ r.body))))))
