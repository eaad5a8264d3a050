-- ===== src/Tests/Request.antt =====
-- Http/Request and Http/Number at concrete requests.
use Prim.Native.String.{String}
use cs_system_lab.Prelude.{
  inr, inl, take, drop, ◌≤◌, ◌≡◌, refl, Bool, true, List, [], ◌∷◌, ◌++◌, some, arith,
}
use cs_system_lab.Prelude.Bytes.{Bytes, codes, crlf, eq_bytes, find, to_lower}
use cs_system_lab.Http.Number.{decimal}
use cs_system_lab.Http.Request.{
  HttpRequest, expect_body, got_all, fresh, parse, max_request_size, get_header, parse_header,
}
use cs_system_lab.Http.Request.Fields.{get_header-parse_header}
use cs_system_lab.Http.Request.Chunks.{accepted, feed, feed-concat, parse-total}
use cs_system_lab.Http.Request.Invariant.{IsValid, feed-IsValid}
use cs_system_lab.Http.Request.Limits.{feed_bounded, feed_oversized}
use cs_system_lab.Http.Request.Render.{Message, IsMessage, render}
use cs_system_lab.Http.Request.Render.RoundTrip.{parsed, feed-render}

abbrev line : String → Bytes
line s = codes s ++ crlf

abbrev get_text : Bytes
get_text = line "GET  HTTP/1.1" ++ line "Connection:  close" ++ crlf

abbrev post : Message
post = record {
  method = codes "POST";
  path = codes "/a b";
  version = codes "HTTP/1.1";
  fields = (codes "Host", codes "x") ∷ (codes "Content-Length", codes "2") ∷ [];
  body = codes "hi";
}

abbrev post_text : Bytes
post_text =
    line "POST /a b HTTP/1.1" ++ line "Host: x" ++ line "Content-Length: 2" ++ crlf ++ codes "hi"

render-post : render post [] ≡ post_text
unfolding render decimal
render-post = refl

post-IsMessage : IsMessage post
unfolding find to_lower decimal eq_bytes
post-IsMessage = record {
  method_word = omega arith;
  version_word = omega arith;
  one_line = omega arith;
  slashed_path = refl;
  http_version = refl;
  well_formed = (
    record {
      no_colon = omega arith;
      no_break = omega arith;
      solid = refl;
      right_length = λ e. absurd (cc);
    },
    (
      record {
        no_colon = omega arith;
        no_break = omega arith;
        solid = refl;
        right_length = λ e. refl;
      },
      tt,
    ),
  );
  few = omega arith;
  told = inr refl;
  short_body = omega arith;
}

-- What curl sends, which tells no length.
abbrev curl : Message
curl = record {
  method = codes "GET";
  path = codes "/hello";
  version = codes "HTTP/1.1";
  fields =
      (codes "Host", codes "localhost:8080")
      ∷ (codes "User-Agent", codes "curl/8.5.0")
      ∷ (codes "Accept", codes "*/*")
      ∷ [];
  body = [];
}

render-curl :
    render curl []
    ≡ line "GET /hello HTTP/1.1"
      ++ line "Host: localhost:8080"
      ++ line "User-Agent: curl/8.5.0"
      ++ line "Accept: */*"
      ++ crlf
unfolding render
render-curl = refl

curl-IsMessage : IsMessage curl
unfolding find to_lower eq_bytes
curl-IsMessage = record {
  method_word = omega arith;
  version_word = omega arith;
  one_line = omega arith;
  slashed_path = refl;
  http_version = refl;
  well_formed = (
    record {
      no_colon = omega arith;
      no_break = omega arith;
      solid = refl;
      right_length = λ e. absurd (cc);
    },
    (
      record {
        no_colon = omega arith;
        no_break = omega arith;
        solid = refl;
        right_length = λ e. absurd (cc);
      },
      (
        record {
          no_colon = omega arith;
          no_break = omega arith;
          solid = refl;
          right_length = λ e. absurd (cc);
        },
        tt,
      ),
    ),
  );
  few = omega arith;
  told = inl refl;
  short_body = omega arith;
}

curl-parsed :
    accepted (feed fresh (take 20 (render curl []) ∷ drop 20 (render curl []) ∷ []))
    ≡ some (parsed curl [])
unfolding render
curl-parsed =
    feed-render curl [] (take 20 (render curl [])) (drop 20 (render curl []) ∷ []) curl-IsMessage
      refl (omega arith)

parse_get :
    parse fresh get_text
    ≡ some (
      record fresh {
        state = got_all;
        method = codes "GET";
        path = codes "/";
        version = codes "HTTP/1.1";
        headers = (codes "connection", codes "close") ∷ [];
      },
      true,
    )
unfolding parse
parse_get = refl

-- The request in three reads, cut within a line end and within the body.
abbrev first_read : Bytes
first_read = codes "POST /a b HTTP/1.1" ++ 13 ∷ []

abbrev later_reads : List Bytes
later_reads =
    (10 ∷ (line "Host: x" ++ (line "Content-Length: 2" ++ (crlf ++ codes "h")))) ∷ codes "i" ∷ []

feed-concat_example :
    accepted (feed fresh (first_read ∷ later_reads)) ≡ accepted (parse fresh post_text)
feed-concat_example = feed-concat fresh first_read later_reads (omega arith)

feed-render_example : accepted (feed fresh (first_read ∷ later_reads)) ≡ some (parsed post [])
unfolding render decimal
feed-render_example = feed-render post [] first_read later_reads post-IsMessage refl (omega arith)

feed-IsValid_example : IsValid (parsed post [])
unfolding feed parse to_lower decimal
feed-IsValid_example = feed-IsValid fresh (parsed post []) (post_text ∷ []) (refl, refl, refl) refl

abbrev waiting : HttpRequest
waiting = record fresh { state = expect_body; content_length = 70000; buf = codes "ab" }

feed_oversized_example : (record waiting { buf = codes "abcd" }).state ≡ expect_body
unfolding feed parse
feed_oversized_example =
    feed_oversized waiting (record waiting { buf = codes "abcd" }) (codes "c" ∷ codes "d" ∷ []) refl
      (omega arith) refl

feed_bounded_example : 4 ≤ max_request_size
unfolding feed parse
feed_bounded_example =
    feed_bounded waiting (record waiting { buf = codes "abcd" }) (codes "c" ∷ codes "d" ∷ []) true
      (omega arith) refl

parse-total_example : (out : HttpRequest × Bool) × (parse fresh get_text ≡ some out)
parse-total_example = parse-total fresh get_text

get_header-parse_header_example :
    get_header (parse_header fresh (codes "HOST: x")).0 (codes "Host") ≡ codes "x"
unfolding eq_bytes to_lower
get_header-parse_header_example =
    get_header-parse_header fresh (codes "HOST") (codes "x") (codes "Host") (omega arith) refl
