-- ===== src/Http/Request/Looping.antt =====
-- The loop of HttpRequest::parse (HttpRequest.cpp) and its end.
use cs_system_lab.Prelude.{
  ℕ, zero, suc, ◌≤◌, ◌<◌, ◌≡◌, sym, ap, subst, ◌∙◌, Bool, true, false, ◌++◌, inl, inr, Option, some,
  arith, length, length-append,
}
use cs_system_lab.Prelude.Bytes.{Bytes}
use cs_system_lab.Http.Request.{
  HttpRequest, got_all, round, round_in, continues, returns, loop, appended,
}
use cs_system_lab.Http.Request.Rounds.{round-SameRound, SameRound, Round-cases}
use cs_system_lab.Http.Request.Shrinking.{round-shorter, round-returns_le}

-- With more fuel than bytes in the buffer, the loop returns.
pub loop-total :
    (f : ℕ) (r : HttpRequest)
    → length r.buf < f
    → (out : HttpRequest × Bool) × (loop f r ≡ some out)
unfolding loop
loop-total zero r h = absurd (omega arith)
loop-total (suc f) r h = elim (Round-cases (round r)) [
  | inl (r', e) ↦ rw (e, loop) (loop-total f r' (let s = round-shorter r r' e in omega arith))
  | inr (r', b, e) ↦ ((r', b), rw (e, loop))
]

-- Any two such amounts of fuel give the same.
pub loop-fuel :
    (f g : ℕ) (r : HttpRequest) → length r.buf < f → length r.buf < g → loop f r ≡ loop g r
unfolding loop
loop-fuel zero g r h k = absurd (omega arith)
loop-fuel (suc f) zero r h k = absurd (omega arith)
loop-fuel (suc f) (suc g) r h k = elim (Round-cases (round r)) [
  | inl (r', e) ↦
      let s = round-shorter r r' e in rw (e, loop) (loop-fuel f g r' (omega arith) (omega arith))
  | inr (r', b, e) ↦ rw (e, loop)
]

-- The loop with fuel enough.
unfoldable pub settle : HttpRequest → Option (HttpRequest × Bool)
settle r = loop (suc (length r.buf)) r

pub settle-continues : (r q : HttpRequest) → round r ≡ continues q → settle r ≡ settle q
unfolding settle loop
settle-continues r q e =
    let shorter = round-shorter r q e in
    rw (e, loop) (loop-fuel (length r.buf) (suc (length q.buf)) q (omega arith) (omega arith))

pub settle-returns : (r q : HttpRequest) (b : Bool) → round r ≡ returns q b → settle r ≡ some (q, b)
unfolding settle loop
settle-returns r q b e = rw (e, loop)

pub loop-le :
    (f : ℕ) (r r' : HttpRequest) (b : Bool) → loop f r ≡ some (r', b) → length r'.buf ≤ length r.buf
unfolding loop
loop-le zero r r' b h = cc
loop-le (suc f) r r' b h = elim (Round-cases (round r)) [
  | inl (q, e) ↦
      let s = round-shorter r q e in let k = loop-le f q r' b (rw (e, loop) at h) in omega arith
  | inr (q, c, e) ↦ ground (arith, round-returns_le r q c e)
]

-- In a final state the loop returns at once.
pub loop_got_all : (f : ℕ) (r : HttpRequest) → r.state ≡ got_all → loop (suc f) r ≡ some (r, true)
unfolding loop round_in
loop_got_all f r h = rw (h, loop)

-- Where the loop accepts, bytes added before it runs or after it make no difference.
pub loop-appended :
    (f g : ℕ) (r r' : HttpRequest) (t : Bytes)
    → loop f r ≡ some (r', true)
    → length (r.buf ++ t) < g
    → loop g (appended r t) ≡ loop g (appended r' t)
unfolding loop
loop-appended zero g r r' t h k = cc
loop-appended (suc f) zero r r' t h k = absurd (omega arith)
loop-appended (suc f) (suc g) r r' t h k = elim (Round-cases (round r)) [
  | inl (q, e) ↦
      let shorter = round-shorter r q e in
      let rest = rw (e, loop) at h in
      let le = loop-le f q r' true rest in
      let same : round (appended r t) ≡ continues (appended q t) =
        subst (SameRound r.state r t) e (round-SameRound r t) in
      rw (same, loop)
        (loop-appended f g q r' t rest (omega (arith, length-append r.buf t, length-append q.buf t))
          ∙ loop-fuel g (suc g) (appended r' t)
              (omega (arith, length-append r.buf t, length-append r'.buf t))
              (omega (arith, length-append r.buf t, length-append r'.buf t)))
  | inr (q, true, e) ↦
      let done : q ≡ r' = ground arith in
      elim (subst (SameRound r.state r t) e (round-SameRound r t)) [
        | inl same ↦ ap (λ x. loop (suc g) (appended x t)) (sym same ∙ done)
        | inr (same, final) ↦
            rw (same, loop, done)
              (sym (
                loop_got_all g (appended r' t)
                  (ap (λ (x : HttpRequest). x.state) (sym done) ∙ final)))
      ]
  | inr (q, false, e) ↦ absurd (ground arith)
]

-- Where the loop rejects, it rejects with bytes added behind.
pub loop-rejects :
    (f g : ℕ) (r r' : HttpRequest) (t : Bytes)
    → loop f r ≡ some (r', false)
    → length (r.buf ++ t) < g
    → loop g (appended r t) ≡ some (appended r' t, false)
unfolding loop
loop-rejects zero g r r' t h k = cc
loop-rejects (suc f) zero r r' t h k = absurd (omega arith)
loop-rejects (suc f) (suc g) r r' t h k = elim (Round-cases (round r)) [
  | inl (q, e) ↦
      let shorter = round-shorter r q e in
      let same : round (appended r t) ≡ continues (appended q t) =
        subst (SameRound r.state r t) e (round-SameRound r t) in
      rw (same, loop)
        (loop-rejects f g q r' t (rw (e, loop) at h)
          (omega (arith, length-append r.buf t, length-append q.buf t)))
  | inr (q, true, e) ↦ absurd (ground arith)
  | inr (q, false, e) ↦
      let done : q ≡ r' = ground arith in
      let same : round (appended r t) ≡ returns (appended q t) false =
        subst (SameRound r.state r t) e (round-SameRound r t) in
      rw (same, loop, done)
]
