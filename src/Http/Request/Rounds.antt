-- ===== src/Http/Request/Rounds.antt =====
-- One round of the parse loop, when more bytes stand behind the buffer, and how it shrinks the
-- buffer.
use cs_system_lab.Prelude.{
  ℕ, ◌+◌, ◌≤◌, ◌≡◌, refl, Bool, true, false, [], ◌∷◌, ◌++◌, map, ◌⊎◌, inl, inr, some, arith, length,
  take, drop, length-append, take-append_le, drop-append_le, leb, ◌==◌, Option-cases, Bool-cases,
}
use cs_system_lab.Prelude.Bytes.{Bytes, crlf, find, find_char, rfind_char, to_lower}
use cs_system_lab.Prelude.Bytes.Search.{find-bound, find-append}
use cs_system_lab.Http.Request.{
  HttpRequest, State, expect_request_line, expect_headers, expect_body, got_all, parse_request_line,
  parse_header, store_header, header_line, round_in, round, Round, continues, returns, appended,
  trimmed, cut, checked, counted,
}

-- A line parser leaves the buffer alone, and does not look at it.
abbrev pub appended_both : HttpRequest × Bool → Bytes → HttpRequest × Bool
appended_both p t = (appended p.0 t, p.1)

abbrev appended_round : Round → Bytes → Round
appended_round (continues r) t = continues (appended r t)
appended_round (returns r b) t = returns (appended r t) b

parse_request_line-appended :
    (r : HttpRequest) (line t : Bytes)
    → parse_request_line (appended r t) line ≡ appended_both (parse_request_line r line) t
unfolding parse_request_line
parse_request_line-appended r line t = elim (Option-cases (find_char b' ' line)) [
  | inl e ↦ rw (e, parse_request_line)
  | inr (pos1, e) ↦ elim (Option-cases (rfind_char b' ' line)) [
    | inl e' ↦ rw (e, e', parse_request_line)
    | inr (pos2, e') ↦ elim (Bool-cases (pos2 == pos1)) [
      | inl q ↦ rw (e, e', parse_request_line) (rw q)
      | inr q ↦ rw (e, e', parse_request_line) (rw q)
    ]
  ]
]

store_header-appended :
    (r : HttpRequest) (key value t : Bytes)
    → store_header (appended r t) key value ≡ appended_both (store_header r key value) t
unfolding store_header
store_header-appended r key value t = ground arith

parse_header-appended :
    (r : HttpRequest) (line t : Bytes)
    → parse_header (appended r t) line ≡ appended_both (parse_header r line) t
unfolding parse_header
parse_header-appended r line t = elim (Option-cases (find_char b':' line)) [
  | inl e ↦ rw (e, parse_header)
  | inr (colon, e) ↦
      rw (e, parse_header)
        (store_header-appended r (map to_lower (take colon line)) (trimmed (drop (colon + 1) line))
          t)
]

checked-appended :
    (s : State) (p : HttpRequest × Bool) (t : Bytes)
    → checked s (appended_both p t) ≡ appended_round (checked s p) t
checked-appended s (r, true) t = refl
checked-appended s (r, false) t = refl

counted-appended :
    (p : HttpRequest × Bool) (t : Bytes)
    → counted (appended_both p t) ≡ appended_round (counted p) t
counted-appended (r, false) t = refl
counted-appended (r, true) t = ground arith

header_line-appended :
    (r : HttpRequest) (line t : Bytes)
    → header_line (appended r t) line ≡ appended_round (header_line r line) t
unfolding header_line
header_line-appended r [] t = refl
header_line-appended r (c ∷ line) t =
    rw (parse_header-appended r (c ∷ line) t) (counted-appended (parse_header r (c ∷ line)) t)

-- The line that `find` delimits is the same with bytes added behind the buffer.
cut_same :
    (r : HttpRequest) (t : Bytes) (eol : ℕ)
    → find crlf r.buf ≡ some eol
    → (take eol (r.buf ++ t) ≡ take eol r.buf)
      × (drop (eol + 2) (r.buf ++ t) ≡ drop (eol + 2) r.buf ++ t)
cut_same r t eol e =
    let bound = find-bound crlf r.buf eol e in
    (take-append_le eol r.buf t (omega arith), drop-append_le (eol + 2) r.buf t (omega arith))

-- What a round does with more bytes behind the buffer: the same, unless it waits for them.
abbrev pub SameRound : State → HttpRequest → Bytes → Round → Type 0
SameRound s r t (continues r') = round_in s (appended r t) ≡ continues (appended r' t)
SameRound s r t (returns r' false) = round_in s (appended r t) ≡ returns (appended r' t) false
SameRound s r t (returns r' true) =
    (r' ≡ r) ⊎ ((round_in s (appended r t) ≡ returns (appended r' t) true) × (r'.state ≡ got_all))

SameRound-of_eq :
    (s : State) (r : HttpRequest) (t : Bytes) (o : Round)
    → ((r' : HttpRequest) → o ≡ returns r' true → r'.state ≡ got_all)
    → round_in s (appended r t) ≡ appended_round o t
    → SameRound s r t o
SameRound-of_eq s r t (continues r') g h = h
SameRound-of_eq s r t (returns r' false) g h = h
SameRound-of_eq s r t (returns r' true) g h = inr (h, g r' refl)

checked-ne-returns :
    (s : State) (p : HttpRequest × Bool) (r : HttpRequest)
    → checked s p ≡ returns r true
    → r.state ≡ got_all
checked-ne-returns s (r', true) r h = cc
checked-ne-returns s (r', false) r h = cc

counted-ne-returns : (p : HttpRequest × Bool) (q : HttpRequest) → counted p ≡ returns q true → ⊥
counted-ne-returns (r, false) q h = cc
counted-ne-returns (r, true) q h = ground arith

-- A header line ends the loop by a rejection only.
pub header_line-ne-returns :
    (r q : HttpRequest) (line : Bytes) → header_line r line ≡ returns q true → ⊥
unfolding header_line
header_line-ne-returns r q [] h = cc
header_line-ne-returns r q (c ∷ line) h = counted-ne-returns (parse_header r (c ∷ line)) q h

-- The body that is there stays the body with bytes added behind.
more_body :
    (r : HttpRequest) (t : Bytes)
    → leb r.content_length (length r.buf) ≡ true
    → round_in expect_body (appended r t)
      ≡ returns
          (appended
            (record r {
              body = take r.content_length r.buf;
              buf = drop r.content_length r.buf;
              state = got_all;
            })
            t)
          true
unfolding round_in
more_body r t e =
    let fits : r.content_length ≤ length r.buf = ground arith in
    rw (take-append_le r.content_length r.buf t fits, drop-append_le r.content_length r.buf t fits)
      (ground (arith, length-append r.buf t))

round_in-SameRound : (s : State) (r : HttpRequest) (t : Bytes) → SameRound s r t (round_in s r)
unfolding round_in
round_in-SameRound expect_request_line r t = elim (Option-cases (find crlf r.buf)) [
  | inl e ↦ rw (e, round_in) (inl refl)
  | inr (eol, e) ↦
      let line = take eol r.buf in
      let p = parse_request_line (cut r eol) line in
      rw (e, round_in)
        (SameRound-of_eq expect_request_line r t (checked expect_headers p)
          (checked-ne-returns expect_headers p)
          (rw
            (
              find-append crlf r.buf t eol e,
              round_in,
              (cut_same r t eol e).0,
              (cut_same r t eol e).1,
            )
            (rw (parse_request_line-appended (cut r eol) line t)
              (checked-appended expect_headers p t))))
]
round_in-SameRound expect_headers r t = elim (Option-cases (find crlf r.buf)) [
  | inl e ↦ rw (e, round_in) (inl refl)
  | inr (eol, e) ↦
      let line = take eol r.buf in
      rw (e, round_in)
        (SameRound-of_eq expect_headers r t (header_line (cut r eol) line)
          (λ q h. absurd (header_line-ne-returns (cut r eol) q line h))
          (rw
            (
              find-append crlf r.buf t eol e,
              round_in,
              (cut_same r t eol e).0,
              (cut_same r t eol e).1,
            )
            (header_line-appended (cut r eol) line t)))
]
round_in-SameRound expect_body r t = elim (Bool-cases (leb r.content_length (length r.buf))) [
  | inl e ↦ rw e (inr (more_body r t e, refl))
  | inr e ↦ rw e (inl refl)
]
round_in-SameRound got_all r t = inl refl

-- A round that goes on has taken a line, with its end, from the buffer.
pub round-SameRound : (r : HttpRequest) (t : Bytes) → SameRound r.state r t (round r)
round-SameRound r t = round_in-SameRound r.state r t

pub Round-cases :
    (o : Round)
    → ((r : HttpRequest) × (o ≡ continues r)) ⊎ ((r : HttpRequest) × (b : Bool) × (o ≡ returns r b))
Round-cases (continues r) = inl (r, refl)
Round-cases (returns r b) = inr (r, b, refl)
