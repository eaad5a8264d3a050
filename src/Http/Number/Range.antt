-- ===== src/Http/Number/Range.antt =====
-- The range of what `strtol` returns.
use cs_system_lab.Prelude.{ℕ, ◌≤◌, ◌≡◌, Bool, true, false, [], ◌∷◌, some, arith}
use cs_system_lab.Prelude.Bytes.{Bytes}
use cs_system_lab.Prelude.Int.{pos}
use cs_system_lab.Http.Number.{long_max, to_long, digit_run, long_digits, long_sign, strtol}

to_long-le : (negative : Bool) (v n : ℕ) → to_long negative v ≡ pos n → n ≤ long_max
to_long-le false v n h = ground arith
to_long-le true v n h = ground arith

long_digits-le :
    (negative : Bool) (s : Bytes) (n : ℕ) → long_digits negative s ≡ some (pos n) → n ≤ long_max
unfolding long_digits
long_digits-le negative [] n h = ground arith
long_digits-le negative (c ∷ s) n h = ground (arith, to_long-le negative (digit_run 0 (c ∷ s)) n)

long_sign-le : (s : Bytes) (n : ℕ) → long_sign s ≡ some (pos n) → n ≤ long_max
unfolding long_sign
long_sign-le [] n h = ground arith
long_sign-le (c ∷ s) n h =
    ground
      (arith, long_digits-le true s n, long_digits-le false s n, long_digits-le false (c ∷ s) n)

-- A number that `strtol` reads is at most the greatest `long`.
pub strtol-le : (s : Bytes) (n : ℕ) → strtol s ≡ some (pos n) → n ≤ long_max
unfolding strtol
strtol-le [] n h = ground arith
strtol-le (c ∷ s) n h = ground (arith, strtol-le s n, long_sign-le (c ∷ s) n)
