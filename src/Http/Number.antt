-- ===== src/Http/Number.antt =====
-- The numbers of HTTP messages: `strtol` in base 10, and `<<` of an integer to a text stream.
pub mod RoundTrip
pub mod Range
use cs_system_lab.Prelude.{
  ℕ, zero, suc, ◌+◌, ◌-◌, ◌*◌, ◌/◌, ◌%◌, ◌^◌, min, Bool, true, false, ◌&&◌, ◌||◌, [], ◌∷◌, Option,
  none, some, ◌≡◌, refl, leb, ◌==◌, if◌then◌else◌,
}
use cs_system_lab.Prelude.Bytes.{Bytes, codes}
use cs_system_lab.Prelude.Int.{ℤ, pos, negsuc}

abbrev pub long_max : ℕ
long_max = 2 ^ 63 - 1

abbrev pub is_digit : ℕ → Bool
is_digit c = leb b'0' c && leb c b'9'

abbrev is_space : ℕ → Bool
is_space c = c == b' ' || (leb 9 c && leb c 13)

-- The value of the digits in front of the text, behind those read so far.
unfoldable pub digit_run : ℕ → Bytes → ℕ
digit_run n [] = n
digit_run n (c ∷ s) = let rest = digit_run (n * 10 + (c - b'0')) s in if is_digit c then rest else n

-- A number out of range becomes the nearest `long`.
abbrev to_long : Bool → ℕ → ℤ
to_long false n = pos (min n long_max)
to_long true zero = pos 0
to_long true (suc n) = negsuc (min n long_max)

unfoldable pub long_digits : Bool → Bytes → Option ℤ
unfolding digit_run
long_digits negative [] = none
long_digits negative (c ∷ s) =
    if is_digit c then some (to_long negative (digit_run 0 (c ∷ s))) else none

unfoldable pub long_sign : Bytes → Option ℤ
unfolding long_digits
long_sign [] = none
long_sign (c ∷ s) =
    if c == b'-'
    then long_digits true s
    else if c == b'+'
    then long_digits false s
    else long_digits false (c ∷ s)

-- `strtol(s, &end, 10)`; `none` is `end == s`, no digits.
unfoldable pub strtol : Bytes → Option ℤ
unfolding long_sign
strtol [] = none
strtol (c ∷ s) = let rest = strtol s in if is_space c then rest else long_sign (c ∷ s)

-- The digits of a number in front of a text; the first argument bounds how many.
unfoldable pub put_digits : ℕ → ℕ → Bytes → Bytes
put_digits zero n out = out
put_digits (suc f) n out =
    let more = put_digits f (n / 10) ((b'0' + n % 10) ∷ out) in
    if n / 10 == 0 then (b'0' + n) ∷ out else more

-- `oss << n` for an unsigned number.
unfoldable pub decimal : ℕ → Bytes
unfolding put_digits
decimal n = put_digits (suc n) n []

-- `oss << n` for an `int`.
unfoldable pub decimal_int : ℤ → Bytes
unfolding decimal
decimal_int (pos n) = decimal n
decimal_int (negsuc n) = b'-' ∷ decimal (suc n)

strtol_tests :
    (strtol (codes " \t-12x") ≡ some (negsuc 11))
    × (strtol (codes "99999999999999999999") ≡ some (pos long_max))
    × (strtol (codes "+ 1") ≡ none)
    × (decimal 1094 ≡ codes "1094")
unfolding strtol decimal
strtol_tests = (refl, refl, refl, refl)
