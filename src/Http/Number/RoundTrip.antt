-- ===== src/Http/Number/RoundTrip.antt =====
-- `strtol` on what `<<` writes.
use cs_system_lab.Prelude.{
  ℕ, zero, suc, ◌+◌, ◌/◌, ◌%◌, ◌≤◌, ◌<◌, ◌≡◌, true, [], ◌∷◌, inl, inr, some, arith, ◌==◌,
  Bool-cases, min, All,
}
use cs_system_lab.Prelude.Bytes.{Bytes}
use cs_system_lab.Prelude.Bytes.Search.{Lacks}
use cs_system_lab.Prelude.Int.{pos}
use cs_system_lab.Http.Number.{long_max, is_digit, digit_run, strtol, put_digits, decimal}

-- A text that begins with a digit.
abbrev pub DigitFirst : Bytes → Type 0
DigitFirst [] = ⊥
DigitFirst (c ∷ s) = is_digit c ≡ true

put_digits_first : (f n : ℕ) (out : Bytes) → n < f → DigitFirst (put_digits f n out)
unfolding put_digits
put_digits_first zero n out h = absurd (omega arith)
put_digits_first (suc f) n out h = elim (Bool-cases (n / 10 == 0)) [
  | inl e ↦ rw e (ground arith)
  | inr e ↦ rw e (put_digits_first f (n / 10) _ (ground arith))
]

digit_run-put_digits :
    (f n : ℕ) (out : Bytes) → n < f → digit_run 0 (put_digits f n out) ≡ digit_run n out
unfolding put_digits digit_run
digit_run-put_digits zero n out h = absurd (omega arith)
digit_run-put_digits (suc f) n out h = elim (Bool-cases (n / 10 == 0)) [
  | inl e ↦ rw e (ground arith)
  | inr e ↦
      rw (e, digit_run-put_digits f (n / 10) ((b'0' + n % 10) ∷ out) (ground arith)) (ground arith)
]

strtol_digits : (s : Bytes) → DigitFirst s → strtol s ≡ some (pos (min (digit_run 0 s) long_max))
unfolding strtol
strtol_digits [] h = absurd h
strtol_digits (c ∷ s) h = ground arith

-- `strtol` reads back the digits of every `long` that is not negative.
pub strtol-decimal : (n : ℕ) → n ≤ long_max → strtol (decimal n) ≡ some (pos n)
unfolding decimal digit_run
strtol-decimal n h =
    rw
      (
        strtol_digits (decimal n) (put_digits_first (suc n) n [] (omega arith)),
        digit_run-put_digits (suc n) n [] (omega arith),
      )
      (ground arith)

pub decimal_first : (n : ℕ) → DigitFirst (decimal n)
unfolding decimal
decimal_first n = put_digits_first (suc n) n [] (omega arith)

abbrev pub AllDigits : Bytes → Type 0
AllDigits = All (λ c. is_digit c ≡ true)

put_digits-AllDigits :
    (f n : ℕ) (out : Bytes) → n < f → AllDigits out → AllDigits (put_digits f n out)
unfolding put_digits
put_digits-AllDigits zero n out h k = absurd (omega arith)
put_digits-AllDigits (suc f) n out h k = elim (Bool-cases (n / 10 == 0)) [
  | inl e ↦ rw e (ground arith, k)
  | inr e ↦
      rw e
        (put_digits-AllDigits f (n / 10) ((b'0' + n % 10) ∷ out) (ground arith) (ground arith, k))
]

-- A number is written with digits only.
pub decimal-AllDigits : (n : ℕ) → AllDigits (decimal n)
unfolding decimal
decimal-AllDigits n = put_digits-AllDigits (suc n) n [] (omega arith) tt

pub digits-Lacks : (s : Bytes) → AllDigits s → Lacks 13 s
digits-Lacks [] h = tt
digits-Lacks (c ∷ s) (d, h) = (ground arith, digits-Lacks s h)
