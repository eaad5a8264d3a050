-- ===== src/Http/Request/Render/RoundTrip.antt =====
-- `parse` on a request that a client has written.
use cs_system_lab.Prelude.{
  ◌≤◌, ◌≡◌, refl, sym, inl, inr, ap, ◌∙◌, true, List, [], ◌∷◌, ◌++◌, some, arith, length,
  length-append, concat, ltb, if◌then◌else◌, take-append_length, drop-append_length,
}
use cs_system_lab.Prelude.Bytes.{Bytes, crlf}
use cs_system_lab.Http.Request.{
  HttpRequest, State, expect_headers, expect_body, got_all, fresh, round_in, continues, returns,
  appended, checked, header_line, parse, max_request_size,
}
use cs_system_lab.Http.Request.Chunks.{parse_within, feed, feed-concat, accepted}
use cs_system_lab.Http.Request.Looping.{settle, settle-continues, settle-returns}
use cs_system_lab.Http.Request.Render.Lines.{parse_request_line_lem}
use cs_system_lab.Http.Request.Render.{
  Message, field_lines, request_line, render, IsMessage, stored,
}
use cs_system_lab.Http.Request.Render.Fields.{
  found_request_line, found_header, reading, fields, sized, sized_lem,
}

empty_line :
    (r : HttpRequest) (s : State)
    → (if ltb 0 r.content_length then expect_body else got_all) ≡ s
    → header_line r [] ≡ continues (record r { state = s })
unfolding header_line
empty_line r s e = rw e

body_there :
    (r : HttpRequest) (bytes rest : Bytes)
    → r.content_length ≡ length bytes
    → round_in expect_body (record r { buf = bytes ++ rest })
      ≡ returns (record r { state = got_all; buf = rest; body = bytes }) true
unfolding round_in
body_there r bytes rest e = rw e (
    ground (
      arith,
      length-append bytes rest,
      take-append_length bytes rest,
      drop-append_length bytes rest,
    ))

-- The empty line, and the body behind it.
body :
    (r : HttpRequest) (bytes rest : Bytes)
    → r.content_length ≡ length bytes
    → r.body ≡ []
    → settle (reading r (crlf ++ (bytes ++ rest)))
      ≡ some (record r { state = got_all; buf = rest; body = bytes }, true)
unfolding round_in
body r [] rest e none_yet =
    settle-continues _ _
      (found_header (reading r []) [] rest tt ∙ empty_line (reading r rest) got_all (ground arith))
    ∙ settle-returns (record r { state = got_all; buf = rest }) _ true (rw (← none_yet))
body r (c ∷ bytes) rest e none_yet =
    settle-continues _ _ (
      found_header (reading r []) [] (c ∷ (bytes ++ rest)) tt
      ∙ empty_line (reading r (c ∷ (bytes ++ rest))) expect_body (ground arith))
    ∙ settle-returns (record r { state = expect_body; buf = c ∷ (bytes ++ rest) }) _ true
        (body_there (record r { state = expect_body }) (c ∷ bytes) rest e)

-- The object that a written request becomes, with the bytes behind it left in the buffer.
abbrev pub parsed : Message → Bytes → HttpRequest
parsed m rest = record {
  state = got_all;
  buf = rest;
  method = m.method;
  path = m.path;
  version = m.version;
  headers = stored [] m.fields;
  body = m.body;
  content_length = length m.body;
}

started :
    (m : Message) (rest : Bytes)
    → IsMessage m
    → settle (appended fresh (render m rest))
      ≡ settle (
          reading
            (record fresh { method = m.method; path = m.path; version = m.version })
            (field_lines m.fields (m.body ++ rest)))
unfolding render
started m rest w = settle-continues _ _ (
    found_request_line fresh (request_line m) (field_lines m.fields (m.body ++ rest)) w.one_line
    ∙ ap (checked expect_headers) (
        parse_request_line_lem _ m.method m.path m.version w.method_word w.version_word
          w.slashed_path w.http_version))

-- Such a request, if it fits in the buffer, is parsed in one read, to its own method, path,
-- version, header fields under lower-case names, and body; what follows it stays in the buffer.
parse-render :
    (m : Message) (rest : Bytes)
    → IsMessage m
    → length (render m rest) ≤ max_request_size
    → parse fresh (render m rest) ≡ some (parsed m rest, true)
parse-render m rest w fits =
    let r : HttpRequest = record fresh { method = m.method; path = m.path; version = m.version } in
    let n = length m.body in
    let known : sized n m.fields 0 ≡ n =
      sized_lem n m.fields 0 (elim w.told [ inl e ↦ inl (sym (ap length e)) | inr e ↦ inr e ]) in
    parse_within fresh (render m rest) (omega arith)
    ∙ started m rest w
    ∙ fields n w.short_body r m.fields (m.body ++ rest) w.well_formed (omega (arith, w.few))
    ∙ body (record r { headers = stored [] m.fields; content_length = sized n m.fields 0 }) m.body
        rest known refl
    ∙ ap (λ c. some (record (parsed m rest) { content_length = c }, true)) known

-- A request that is a line of a method, a path and a version, the path with a slash in front and the
-- version with HTTP/, then at most 64 fields `name: value` whose values begin with no blank, then a
-- body. Where there is a body, Content-Length is among the fields, at any place and in any capitals;
-- where there is none, it need not be; and it is right wherever it stands. If such a request fits in
-- the buffer, together with what follows it, and arrives in any number of reads, cut anywhere, it is
-- parsed to its own method, path, version, header fields under lower-case names, and body; what
-- follows it stays in the buffer.
pub feed-render :
    (m : Message) (rest c : Bytes) (cs : List Bytes)
    → IsMessage m
    → concat (c ∷ cs) ≡ render m rest
    → length (render m rest) ≤ max_request_size
    → accepted (feed fresh (c ∷ cs)) ≡ some (parsed m rest)
unfolding accepted
feed-render m rest c cs w e fits =
    feed-concat fresh c cs (omega (arith, ap length e))
    ∙ ap (λ t. accepted (parse fresh t)) e
    ∙ ap accepted (parse-render m rest w fits)
