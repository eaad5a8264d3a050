-- ===== src/Http/Request/Chunks.antt =====
-- A byte stream that comes in several reads.
use mathlib.Core.Option.{get_or}
use cs_system_lab.Prelude.{
  suc, ◌+◌, ◌≤◌, ◌≡◌, sym, ◌∙◌, Bool, true, false, List, [], ◌∷◌, ◌++◌, ◌⊎◌, inl, inr, Option, none,
  some, append_assoc, append-nil, arith, length, length-append, concat, ltb, Bool-cases, le→ltb,
}
use cs_system_lab.Prelude.Bytes.{Bytes}
use cs_system_lab.Http.Request.{HttpRequest, loop, parse, appended, max_request_size}
use cs_system_lab.Http.Request.Looping.{
  loop-total, loop-fuel, settle, loop-le, loop-appended, loop-rejects,
}

-- What is left of a result: the object, where `parse` returned true.
unfoldable pub accepted : Option (HttpRequest × Bool) → Option HttpRequest
accepted (some (r, true)) = some r
accepted _ = none

-- `parse` always returns, whatever the object and the bytes: the fuel of its loop is enough.
pub parse-total :
    (r : HttpRequest) (t : Bytes) → (out : HttpRequest × Bool) × (parse r t ≡ some out)
unfolding parse
parse-total r t = elim (Bool-cases (ltb max_request_size (length r.buf + length t))) [
  | inl e ↦ ((r, false), rw e)
  | inr e ↦ rw e (loop-total (suc (length (r.buf ++ t))) (appended r t) (omega arith))
]

abbrev after_read :
    (HttpRequest → Option (HttpRequest × Bool))
    → Option (HttpRequest × Bool)
    → Option (HttpRequest × Bool)
after_read next none = none
after_read next (some (r, false)) = some (r, false)
after_read next (some (r, true)) = next r

-- The reads of one request, one call of `parse` each, up to the first that is rejected.
unfoldable pub feed : HttpRequest → List Bytes → Option (HttpRequest × Bool)
feed r [] = some (r, true)
feed r (c ∷ cs) = after_read (λ q. feed q cs) (parse r c)

-- `parse` where the limit on the buffer admits the bytes.
pub parse_within :
    (r : HttpRequest) (t : Bytes)
    → length r.buf + length t ≤ max_request_size
    → parse r t ≡ settle (appended r t)
unfolding parse settle
parse_within r t h = rw (le→ltb max_request_size (length r.buf + length t) h)

module _ (r : HttpRequest) (a b : Bytes)
    (fits : length r.buf + length a + length b ≤ max_request_size) where
  whole : parse r (a ++ b) ≡ loop (suc (length ((r.buf ++ a) ++ b))) (appended (appended r a) b)
  unfolding settle
  whole = rw (append_assoc r.buf a b) (parse_within r (a ++ b) (omega (arith, length-append a b)))

  first : parse r a ≡ loop (suc (length (r.buf ++ a))) (appended r a)
  unfolding settle
  first = parse_within r a (omega arith)

  -- An accepted read and the next one are as good as one read of both.
  parse-append_accepted :
      (q : HttpRequest) → parse r a ≡ some (q, true) → parse r (a ++ b) ≡ parse q b
  unfolding settle
  parse-append_accepted q e =
      let ran = sym first ∙ e in
      let le = loop-le (suc (length (r.buf ++ a))) (appended r a) q true ran in
      whole
      ∙ loop-appended (suc (length (r.buf ++ a))) _ (appended r a) q b ran (omega arith)
      ∙ loop-fuel _ _ (appended q b)
          (omega (arith, length-append q.buf b, length-append (r.buf ++ a) b)) (omega arith)
      ∙ sym (parse_within q b (omega (arith, length-append r.buf a)))

  -- What is rejected is rejected with the next bytes behind it.
  parse-append_rejected :
      (q : HttpRequest)
      → parse r a ≡ some (q, false)
      → parse r (a ++ b) ≡ some (appended q b, false)
  parse-append_rejected q e =
      whole
      ∙ loop-rejects (suc (length (r.buf ++ a))) _ (appended r a) q b (sym first ∙ e) (omega arith)

pub parse-cases :
    (r : HttpRequest) (a : Bytes)
    → ((q : HttpRequest) × (parse r a ≡ some (q, true)))
      ⊎ ((q : HttpRequest) × (parse r a ≡ some (q, false)))
parse-cases r a =
    let ((q, b), e) = parse-total r a in
    elim (Bool-cases b) [ inl t ↦ inl (q, rw (← t) e) | inr t ↦ inr (q, rw (← t) e) ]

-- An accepted read leaves at most as many bytes in the buffer as it found there and got.
parse-buf_le :
    (r q : HttpRequest) (a : Bytes)
    → length r.buf + length a ≤ max_request_size
    → parse r a ≡ some (q, true)
    → length q.buf ≤ length r.buf + length a
unfolding settle
parse-buf_le r q a h e = omega (
  arith,
  loop-le (suc (length (r.buf ++ a))) (appended r a) q true (sym (parse_within r a h) ∙ e),
  length-append r.buf a,
)

-- However the bytes of a request are cut into reads, at least one, the reads are accepted exactly
-- when one read of all the bytes is, and then they leave the same object, as long as the bytes fit
-- in the buffer together.
pub feed-concat :
    (r : HttpRequest) (c : Bytes) (cs : List Bytes)
    → length r.buf + length (concat (c ∷ cs)) ≤ max_request_size
    → accepted (feed r (c ∷ cs)) ≡ accepted (parse r (concat (c ∷ cs)))
unfolding feed accepted
feed-concat r c [] h =
    rw (append-nil c) (elim (parse-cases r c) [ inl (q, e) ↦ rw e | inr (q, e) ↦ rw e ])
feed-concat r c (d ∷ ds) h = elim (parse-cases r c) [
  | inl (q, e) ↦
      rw
        (
          e,
          parse-append_accepted r c (concat (d ∷ ds))
              (omega (arith, length-append c (concat (d ∷ ds)))) q e,
        )
        (feed-concat q d ds (
          omega (
            arith,
            parse-buf_le r q c (omega (arith, length-append c (concat (d ∷ ds)))) e,
            length-append c (concat (d ∷ ds)),
          )))
  | inr (q, e) ↦ rw (
    e,
    parse-append_rejected r c (concat (d ∷ ds)) (omega (arith, length-append c (concat (d ∷ ds)))) q
        e,
  )
]

-- What `parse` returns, without the fuel.
unfoldable pub run_parse : HttpRequest → Bytes → HttpRequest × Bool
unfolding parse
run_parse r t = get_or (parse r t) (r, false)

pub run_parse_lem : (r : HttpRequest) (t : Bytes) → parse r t ≡ some (run_parse r t)
unfolding run_parse
run_parse_lem r t = let (out, e) = parse-total r t in rw e
