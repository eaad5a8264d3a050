-- ===== src/Tests/Response.antt =====
-- Http/Response at a concrete response.
use cs_system_lab.Prelude.{◌≡◌, refl, true, ◌++◌, some, arith}
use cs_system_lab.Prelude.Bytes.{codes, starts_with}
use cs_system_lab.Prelude.Int.{pos}
use cs_system_lab.Http.Number.{decimal, decimal_int}
use cs_system_lab.Http.Response.{
  HttpResponse, initial, set_status_code, set_content_type, set_body, set_keep_alive, to_message,
}
use cs_system_lab.Http.Response.Reading.{read_reply}
use cs_system_lab.Http.Response.Framing.{IsFramed, head_lines, read_reply-to_message}

not_found : HttpResponse
unfolding set_status_code set_content_type set_body set_keep_alive
not_found =
    set_keep_alive
      (set_body (set_content_type (set_status_code initial (pos 404)) (codes "text/plain"))
        (codes "404 Not Found\n"))
      true

to_message-not_found :
    to_message not_found not_found.headers
    ≡ codes
        "HTTP/1.1 404 Not Found\r\nContent-Type: text/plain\r\nContent-Length: 14\r\nConnection: keep-alive\r\n\r\n404 Not Found\n"
unfolding not_found to_message decimal decimal_int
to_message-not_found = refl

not_found-IsFramed : IsFramed not_found not_found.headers
unfolding not_found starts_with
not_found-IsFramed = record {
  message_no_break = omega arith;
  each = (record { no_break = omega arith; other = refl }, tt);
  short_body = omega arith;
}

read_reply-to_message_example :
    read_reply (to_message not_found not_found.headers ++ codes "HTTP")
    ≡ some (record {
      head = head_lines not_found not_found.headers;
      body = not_found.body;
      rest = codes "HTTP";
    })
read_reply-to_message_example =
    read_reply-to_message not_found not_found.headers (codes "HTTP") not_found-IsFramed
