-- ===== src/Http/Request.antt =====
-- epoll-http-server/src/HttpRequest.h and HttpRequest.cpp.
-- A method that changes the object returns the new object; `size_t` positions are numbers, `npos`
-- is `none`.
pub mod Rounds
pub mod Shrinking
pub mod Looping
pub mod Chunks
pub mod Shape
pub mod Invariant
pub mod Limits
pub mod Render
pub mod Fields
use cs_system_lab.Prelude.{
  ℕ, zero, suc, ◌+◌, ◌-◌, ◌*◌, Bool, true, false, not, [], ◌∷◌, ◌++◌, map, Option, none, some,
  length, take, drop, ltb, leb, ◌==◌, if◌then◌else◌,
}
use cs_system_lab.Prelude.Bytes.{
  Bytes, codes, crlf, eq_bytes, find, find_char, rfind_char, find_first_not_blank, substr, to_lower,
}
use cs_system_lab.Prelude.Int.{ℤ, pos, negsuc}
use cs_system_lab.Prelude.Map.{Headers, lookup, insert}
use cs_system_lab.Http.Number.{strtol}

abbrev pub max_request_size : ℕ
max_request_size = 64 * 1024

abbrev pub max_header_count : ℕ
max_header_count = 64

pub data State : Type 0 where
  expect_request_line expect_headers expect_body got_all : State

pub record HttpRequest : Type 0 where
  pub state : State
  pub buf : Bytes
  pub method : Bytes
  pub path : Bytes
  pub version : Bytes
  pub headers : Headers
  pub body : Bytes
  pub content_length : ℕ

-- The constructor, and the object that `reset` leaves.
abbrev pub fresh : HttpRequest
fresh = record {
  state = expect_request_line;
  buf = [];
  method = [];
  path = [];
  version = [];
  headers = [];
  body = [];
  content_length = 0;
}

unfoldable pub reset : HttpRequest → HttpRequest
reset r = record r {
  state = expect_request_line;
  buf = [];
  method = [];
  path = [];
  version = [];
  headers = [];
  body = [];
  content_length = 0;
}

abbrev is_got_all : State → Bool
is_got_all got_all = true
is_got_all _ = false

-- `gotAll()`
abbrev pub has_got_all : HttpRequest → Bool
has_got_all r = is_got_all r.state

-- The path, with a slash in front.
unfoldable pub slashed : Bytes → Bytes
slashed [] = b'/' ∷ []
slashed (c ∷ p) = if not (c == b'/') then b'/' ∷ c ∷ p else c ∷ p

abbrev is_at_start : Option ℕ → Bool
is_at_start (some zero) = true
is_at_start _ = false

-- `parseRequestLine` behind its two searches.
unfoldable pub assign_request_line : HttpRequest → Bytes → ℕ → ℕ → HttpRequest × Bool
unfolding slashed find
assign_request_line r line pos1 pos2 =
    let version = drop (pos2 + 1) line in
    (
      record r {
        method = take pos1 line;
        path = slashed (substr line (pos1 + 1) (pos2 - pos1 - 1));
        version = version;
      },
      is_at_start (find (codes "HTTP/") version),
    )

unfoldable pub parse_request_line : HttpRequest → Bytes → HttpRequest × Bool
unfolding assign_request_line find_char rfind_char
parse_request_line r line = elim (find_char b' ' line) [
  | none ↦ (r, false)
  | some pos1 ↦ elim (rfind_char b' ' line) [
    | none ↦ (r, false)
    | some pos2 ↦ if pos2 == pos1 then (r, false) else assign_request_line r line pos1 pos2
  ]
]

-- The value without its leading blanks; a value of blanks alone stays.
unfoldable pub trimmed : Bytes → Bytes
unfolding find_first_not_blank
trimmed value = elim (find_first_not_blank value) [ none ↦ value | some start ↦ drop start value ]

abbrev pub with_length : HttpRequest → Option ℤ → HttpRequest × Bool
with_length r none = (r, false)
with_length r (some (negsuc n)) = (r, false)
with_length r (some (pos n)) = (record r { content_length = n }, true)

-- `parseHeader` behind its search for the colon.
unfoldable pub store_header : HttpRequest → Bytes → Bytes → HttpRequest × Bool
unfolding insert strtol eq_bytes
store_header r key value =
    let r' : HttpRequest = record r { headers = insert key value r.headers } in
    if eq_bytes key (codes "content-length") then with_length r' (strtol value) else (r', true)

unfoldable pub parse_header : HttpRequest → Bytes → HttpRequest × Bool
unfolding store_header trimmed to_lower find_char
parse_header r line = elim (find_char b':' line) [
  | none ↦ (r, false)
  | some colon ↦ store_header r (map to_lower (take colon line)) (trimmed (drop (colon + 1) line))
]

-- What one round of the `while` loop does: go on, or return.
pub data Round : Type 0 where
  continues : HttpRequest → Round
  returns : HttpRequest → Bool → Round

-- `line` with `buf_.substr(0, pos)` cut out of `buf_`.
abbrev cut : HttpRequest → ℕ → HttpRequest
cut r eol = record r { buf = drop (eol + 2) r.buf }

abbrev checked : State → HttpRequest × Bool → Round
checked s (r, true) = continues (record r { state = s })
checked s (r, false) = returns r false

-- The limit on the number of headers.
abbrev counted : HttpRequest × Bool → Round
counted (r, false) = returns r false
counted (r, true) = if ltb max_header_count (length r.headers) then returns r false else continues r

-- The end of the header, or one more header line.
unfoldable pub header_line : HttpRequest → Bytes → Round
unfolding parse_header
header_line r [] =
    continues (record r { state = if ltb 0 r.content_length then expect_body else got_all })
header_line r (c ∷ line) = counted (parse_header r (c ∷ line))

unfoldable pub round_in : State → HttpRequest → Round
unfolding parse_request_line header_line find
round_in expect_request_line r = elim (find crlf r.buf) [
  | none ↦ returns r true
  | some eol ↦ checked expect_headers (parse_request_line (cut r eol) (take eol r.buf))
]
round_in expect_headers r = elim (find crlf r.buf) [
  | none ↦ returns r true
  | some eol ↦ header_line (cut r eol) (take eol r.buf)
]
round_in expect_body r =
    if leb r.content_length (length r.buf)
    then returns
        (record r {
          body = take r.content_length r.buf;
          buf = drop r.content_length r.buf;
          state = got_all;
        })
        true
    else returns r true
round_in got_all r = returns r true

abbrev pub round : HttpRequest → Round
round r = round_in r.state r

-- The loop on fuel; `none` means that the fuel ran out.
unfoldable pub loop : ℕ → HttpRequest → Option (HttpRequest × Bool)
unfolding round_in
loop zero r = none
loop (suc f) r = elim (round r) [ continues r' ↦ loop f r' | returns r' b ↦ some (r', b) ]

abbrev pub appended : HttpRequest → Bytes → HttpRequest
appended r bytes = record r { buf = r.buf ++ bytes }

-- `parse(data, len)`; the result is the object and the returned flag.
unfoldable pub parse : HttpRequest → Bytes → Option (HttpRequest × Bool)
unfolding loop
parse r bytes =
    let r' : HttpRequest = appended r bytes in
    if ltb max_request_size (length r.buf + length bytes)
    then some (r, false)
    else loop (suc (length r'.buf)) r'

-- `it->second`, or the empty text.
abbrev pub or_empty : Option Bytes → Bytes
or_empty none = []
or_empty (some v) = v

unfoldable pub get_header : HttpRequest → Bytes → Bytes
unfolding lookup to_lower
get_header r key = or_empty (lookup (map to_lower key) r.headers)

unfoldable pub keep_alive : HttpRequest → Bool
unfolding get_header eq_bytes
keep_alive r =
    let conn = get_header r (codes "connection") in
    if eq_bytes r.version (codes "HTTP/1.1")
    then not (eq_bytes conn (codes "close"))
    else eq_bytes conn (codes "keep-alive")
