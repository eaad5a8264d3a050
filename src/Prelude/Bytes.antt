-- ===== src/Prelude/Bytes.antt =====
-- `std::string` as a list of bytes (numbers below 256): the operations that the sources call.
pub mod Search
use Prim.Native.Nat.{ℕ, suc, ◌+◌}
use Prim.Native.Char.{code}
use Prim.Native.String.{String}
use mathlib.Core.Path.{◌≡◌, refl}
use mathlib.Core.Logic.{◌↔◌}
use mathlib.Core.Bool.{Bool, true, false, not, ◌&&◌, ◌||◌}
use mathlib.Core.List.{List, [], ◌∷◌}
use mathlib.Core.Option
use mathlib.Core.Option.{Option, none, some}
use native.Mathlib.Omega.{arith}
use cs_system_lab.Prelude.Tests.{leb, ◌==◌, if◌then◌else◌}
use cs_system_lab.Prelude.Lists.{take, drop}

abbrev pub Bytes : Type 0
Bytes = List ℕ

-- The bytes of an ASCII literal.
abbrev pub codes : String → Bytes
codes String.[] = []
codes (String.◌∷◌ c s) = code c ∷ codes s

abbrev pub crlf : Bytes
crlf = 13 ∷ 10 ∷ []

-- `a == b`
unfoldable pub eq_bytes : Bytes → Bytes → Bool
eq_bytes [] [] = true
eq_bytes [] (d ∷ t) = false
eq_bytes (c ∷ s) [] = false
eq_bytes (c ∷ s) (d ∷ t) = c == d && eq_bytes s t

-- The test at one position of `find`.
unfoldable pub starts_with : Bytes → Bytes → Bool
starts_with [] s = true
starts_with (p ∷ ps) [] = false
starts_with (p ∷ ps) (c ∷ s) = p == c && starts_with ps s

-- `s.find(pat)`; `npos` is `none`.
unfoldable pub find : Bytes → Bytes → Option ℕ
unfolding starts_with
find pat [] = if starts_with pat [] then some 0 else none
find pat (c ∷ s) = if starts_with pat (c ∷ s) then some 0 else Option.map suc (find pat s)

-- `s.find(c)`
unfoldable pub find_char : ℕ → Bytes → Option ℕ
find_char k [] = none
find_char k (c ∷ s) = if c == k then some 0 else Option.map suc (find_char k s)

-- Its answer when the rest of the text holds the character or not.
abbrev later : Bool → Option ℕ → Option ℕ
later hit (some n) = some (suc n)
later hit none = if hit then some 0 else none

-- `s.rfind(c)`
unfoldable pub rfind_char : ℕ → Bytes → Option ℕ
rfind_char k [] = none
rfind_char k (c ∷ s) = later (c == k) (rfind_char k s)

abbrev pub is_blank : ℕ → Bool
is_blank c = c == b' ' || c == b'\t'

-- `s.find_first_not_of(" \t")`
unfoldable pub find_first_not_blank : Bytes → Option ℕ
find_first_not_blank [] = none
find_first_not_blank (c ∷ s) =
    if not (is_blank c) then some 0 else Option.map suc (find_first_not_blank s)

-- `s.substr(pos, n)`
abbrev pub substr : Bytes → ℕ → ℕ → Bytes
substr s pos n = take n (drop pos s)

-- `tolower` in the C locale.
unfoldable pub to_lower : ℕ → ℕ
to_lower c = if leb b'A' c && leb c b'Z' then c + 32 else c

pub to_lower_idem : (c : ℕ) → to_lower (to_lower c) ≡ to_lower c
unfolding to_lower
to_lower_idem c = ground arith

pub eq_bytes_refl : (s : Bytes) → eq_bytes s s ≡ true
unfolding eq_bytes
eq_bytes_refl [] = refl
eq_bytes_refl (c ∷ s) = ground (arith, eq_bytes_refl s)

pub eq_bytes→eq : (s t : Bytes) → eq_bytes s t ≡ true → s ≡ t
unfolding eq_bytes
eq_bytes→eq [] [] h = refl
eq_bytes→eq [] (d ∷ t) h = ground arith
eq_bytes→eq (c ∷ s) [] h = ground arith
eq_bytes→eq (c ∷ s) (d ∷ t) h = ground (arith, eq_bytes→eq s t)

pub eq_bytes_iff : (s t : Bytes) → (eq_bytes s t ≡ true) ↔ (s ≡ t)
eq_bytes_iff s t = (eq_bytes→eq s t, λ e. ground (arith, eq_bytes_refl s))
