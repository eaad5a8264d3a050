-- ===== src/Server/Hello.antt =====
-- epoll-http-server/examples/main_stage4.cpp: the server with its callback, less what it prints.
pub mod Pages
use Prim.Native.String.{String}
use cs_system_lab.Prelude.{
  ℕ, ◌≡◌, refl, ap, ◌∙◌, inl, inr, ◌++◌, some, arith, if◌then◌else◌, Bool-cases,
}
use cs_system_lab.Prelude.Bytes.{Bytes, codes, eq_bytes, starts_with}
use cs_system_lab.Prelude.Int.{pos}
use cs_system_lab.Prelude.Map.{insert}
use cs_system_lab.Http.Request.{HttpRequest}
use cs_system_lab.Http.Response.{
  HttpResponse, set_status_code, set_content_type, set_body, set_keep_alive, to_message,
}
use cs_system_lab.Http.Response.Reading.{read_reply}
use cs_system_lab.Http.Response.Framing.{IsFramed, head_lines, read_reply-to_message}
use cs_system_lab.Server.Connection.{Setup, response_to}

-- One of the responses of the callback.
abbrev fill : ℕ → String → String → HttpResponse → HttpResponse
fill code kind text resp =
    set_body (set_content_type (set_status_code resp (pos code)) (codes kind)) (codes text)

unfoldable pub hello : HttpRequest → HttpResponse → HttpResponse
unfolding eq_bytes
hello req resp =
    if eq_bytes req.path (codes "/")
    then fill 200 "text/plain" "Hello, World!\n" resp
    else if eq_bytes req.path (codes "/hello")
    then fill 200 "text/html" "<h1>Hello!</h1><p>from epoll HTTP server</p>\n" resp
    else fill 404 "text/plain" "404 Not Found\n" resp

-- A response has one header, so that there is one order to iterate in.
abbrev pub hello_setup : Setup
hello_setup = record { callback = some hello; iterate = λ h. h }

-- The page of a path.
abbrev pub page_of : Bytes → Bytes
page_of path =
    if eq_bytes path (codes "/")
    then codes "Hello, World!\n"
    else if eq_bytes path (codes "/hello")
    then codes "<h1>Hello!</h1><p>from epoll HTTP server</p>\n"
    else codes "404 Not Found\n"

abbrev pub message_of : HttpRequest → Bytes
message_of r = let resp = response_to hello_setup r in to_message resp resp.headers

hello-IsFramed :
    (r : HttpRequest) → IsFramed (response_to hello_setup r) (response_to hello_setup r).headers
unfolding response_to hello set_status_code set_content_type set_body set_keep_alive insert
    starts_with
hello-IsFramed r = elim (Bool-cases (eq_bytes r.path (codes "/"))) [
  | inl e ↦ rw e (record {
    message_no_break = omega arith;
    each = (record { no_break = omega arith; other = refl }, tt);
    short_body = omega arith;
  })
  | inr e ↦ elim (Bool-cases (eq_bytes r.path (codes "/hello"))) [
    | inl k ↦
        rw (e, k)
          (record {
            message_no_break = omega arith;
            each = (record { no_break = omega arith; other = refl }, tt);
            short_body = omega arith;
          })
    | inr k ↦
        rw (e, k)
          (record {
            message_no_break = omega arith;
            each = (record { no_break = omega arith; other = refl }, tt);
            short_body = omega arith;
          })
  ]
]

response_to-body : (r : HttpRequest) → (response_to hello_setup r).body ≡ page_of r.path
unfolding response_to hello set_status_code set_content_type set_body set_keep_alive
response_to-body r = elim (Bool-cases (eq_bytes r.path (codes "/"))) [
  | inl e ↦ rw e refl
  | inr e ↦ elim (Bool-cases (eq_bytes r.path (codes "/hello"))) [
    | inl k ↦ rw (e, k) refl
    | inr k ↦ rw (e, k) refl
  ]
]

-- Whatever the request, a client that reads the answer of this server gets the page of the path,
-- and finds the next answer right behind it.
pub read_reply-hello :
    (r : HttpRequest) (rest : Bytes)
    → read_reply (message_of r ++ rest)
      ≡ some (record {
        head = head_lines (response_to hello_setup r) (response_to hello_setup r).headers;
        body = page_of r.path;
        rest = rest;
      })
read_reply-hello r rest =
    let resp = response_to hello_setup r in
    read_reply-to_message resp resp.headers rest (hello-IsFramed r)
    ∙ ap (λ b. some (record { head = head_lines resp resp.headers; body = b; rest = rest }))
        (response_to-body r)
