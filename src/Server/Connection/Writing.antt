-- ===== src/Server/Connection/Writing.antt =====
-- The write loop of `onWrite`: it neither loses, repeats nor reorders a byte.
use cs_system_lab.Prelude.{
  ℕ, zero, suc, ◌+◌, ◌-◌, min, ◌≤◌, ◌<◌, ◌≡◌, refl, sym, ap, ◌∙◌, Bool, true, false, inl, inr, List,
  [], ◌∷◌, ◌++◌, arith, append_assoc, length, take, drop, length-drop, take-append-drop, Bool-cases,
  ◌==◌,
}
use cs_system_lab.Prelude.Bytes.{Bytes}
use cs_system_lab.Http.Request.{keep_alive}
use cs_system_lab.Server.Connection.{
  World, WriteResult, wrote, would_block, write_failed, remove_connection, write_round, write_loop,
  finish_write, finish_if, drained, on_write,
}

-- The bytes that wait in the write buffer.
abbrev pub outstanding : World → Bytes
outstanding w = drop w.conn.write_sent w.conn.write_buf

-- What the socket got, and what it still has to get.
abbrev pub stream : World → Bytes
stream w = w.wire ++ outstanding w

pub remove_connection-stream : (w : World) → stream (remove_connection w) ≡ stream w
unfolding remove_connection
remove_connection-stream w = ground arith

drop-nil : {A : Type 0} (m : ℕ) → drop {A = A} m [] ≡ []
drop-nil zero = refl
drop-nil (suc m) = refl

drop-drop : {A : Type 0} (n m : ℕ) (xs : List A) → drop m (drop n xs) ≡ drop (n + m) xs
drop-drop zero m xs = let e : m ≡ 0 + m = omega arith in ap (λ n. drop n xs) e
drop-drop (suc n) m [] =
    let e : suc (n + m) ≡ suc n + m = omega arith in drop-nil m ∙ ap (λ k. drop k []) e
drop-drop (suc n) m (x ∷ xs) =
    let e : suc (n + m) ≡ suc n + m = omega arith in drop-drop n m xs ∙ ap (λ k. drop k (x ∷ xs)) e

take_count :
    (w : World) (count : ℕ)
    → (w.wire ++ take count (outstanding w)) ++ drop (w.conn.write_sent + count) w.conn.write_buf
      ≡ stream w
take_count w count =
    append_assoc w.wire (take count (outstanding w)) _
    ∙ ap (λ s. w.wire ++ (take count (outstanding w) ++ s))
        (sym (drop-drop w.conn.write_sent count w.conn.write_buf))
    ∙ ap (λ s. w.wire ++ s) (take-append-drop count (outstanding w))

-- What a round of the loop, or the loop, does.
pub record Written (w : World) (p : World × Bool) : Type 0 where
  pub same_stream : stream p.0 ≡ stream w
  pub all_out : p.1 ≡ true → outstanding p.0 ≡ []
  pub same_request : p.0.conn.request ≡ w.conn.request

-- The state after `count` bytes went out.
abbrev advanced : World → ℕ → World
advanced w count = record w {
  conn = record w.conn { write_sent = w.conn.write_sent + count };
  wire = w.wire ++ take count (outstanding w);
}

length-advanced :
    (w : World) (count : ℕ)
    → length (outstanding (advanced w count)) ≡ length (outstanding w) - count
length-advanced w count =
    ap length (sym (drop-drop w.conn.write_sent count w.conn.write_buf))
    ∙ length-drop count (outstanding w)

removed-Written : (w : World) → Written w (remove_connection w, false)
unfolding remove_connection
removed-Written w = record {
  same_stream = remove_connection-stream w;
  all_out = λ h. absurd (cc);
  same_request = ground arith;
}

write_round-Written :
    (rest : ℕ → World → World × Bool) (answer : WriteResult) (remaining : ℕ) (w : World)
    → remaining ≡ length (outstanding w)
    → 0 < remaining
    → ((m : ℕ) (x : World) → m ≡ length (outstanding x) → m < remaining → Written x (rest m x))
    → Written w (write_round rest answer remaining w)
unfolding write_round
write_round-Written rest (wrote zero) remaining w e pos ih = removed-Written w
write_round-Written rest (wrote (suc n)) remaining w e pos ih =
    let count = min (suc n) remaining in
    let v =
      ih (remaining - count) (advanced w count) (omega (arith, length-advanced w count))
        (omega arith) in
    record {
      same_stream = v.same_stream ∙ take_count w count;
      all_out = v.all_out;
      same_request = v.same_request;
    }
write_round-Written rest would_block remaining w e pos ih = record {
  same_stream = refl;
  all_out = λ h. absurd (cc);
  same_request = refl;
}
write_round-Written rest write_failed remaining w e pos ih = removed-Written w

length-zero : {A : Type 0} (xs : List A) → length xs ≡ 0 → xs ≡ []
length-zero [] h = refl
length-zero (x ∷ xs) h = absurd (omega arith)

nothing_left : (w : World) → 0 ≡ length (outstanding w) → Written w (w, true)
nothing_left w e = record {
  same_stream = refl;
  all_out = λ _. length-zero (outstanding w) (sym e);
  same_request = refl;
}

write_loop-Written :
    (f : ℕ) (answers : ℕ → WriteResult) (i remaining : ℕ) (w : World)
    → remaining ≡ length (outstanding w)
    → remaining ≤ f
    → Written w (write_loop f answers i remaining w)
unfolding write_loop
write_loop-Written zero answers i remaining w e h = nothing_left w (omega arith)
write_loop-Written (suc f) answers i remaining w e h = elim (Bool-cases (remaining == 0)) [
  | inl z ↦ rw z (nothing_left w (ground arith))
  | inr z ↦ rw z (
      write_round-Written (write_loop f answers (i + 1)) (answers i) remaining w e (ground arith)
        (λ m x k lt. write_loop-Written f answers (i + 1) m x k (omega arith)))
]

finish_write-stream : (w : World) → outstanding w ≡ [] → stream (finish_write w) ≡ stream w
unfolding finish_write
finish_write-stream w e = elim (Bool-cases (keep_alive w.conn.request)) [
  | inl k ↦ rw (k, e)
  | inr k ↦ rw (k, e) (remove_connection-stream (drained w))
]

finish_if-stream : (w : World) (p : World × Bool) → Written w p → stream (finish_if p) ≡ stream w
finish_if-stream w (x, true) v = finish_write-stream x (v.all_out refl) ∙ v.same_stream
finish_if-stream w (x, false) v = v.same_stream

module _ (answers : ℕ → WriteResult) (w : World) where
  abbrev pub remaining : ℕ
  remaining = length w.conn.write_buf - w.conn.write_sent

  abbrev pub loop_result : World × Bool
  loop_result = write_loop remaining answers 0 remaining w

  pub loop_result-Written : Written w loop_result
  loop_result-Written =
      write_loop-Written remaining answers 0 remaining w
        (sym (length-drop w.conn.write_sent w.conn.write_buf)) (omega arith)

  -- Whatever its `write`s answer, `onWrite` loses, repeats and reorders no byte: what the socket
  -- got, followed by what waits for it, is the same before and after.
  pub on_write-stream : stream (on_write answers w) ≡ stream w
  unfolding on_write
  on_write-stream = finish_if-stream w loop_result loop_result-Written
