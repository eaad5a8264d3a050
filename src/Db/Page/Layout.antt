-- ===== src/Db/Page/Layout.antt =====
-- The bytes and words of a page after a store.
use cs_system_lab.Prelude.{
  ℕ, zero, suc, ◌+◌, ◌/◌, ◌%◌, ◌^◌, ◌<◌, ◌≡◌, ◌≢◌, ◌⊎◌, refl, ◌∙◌, [], ◌∷◌, some, arith, length,
}
use cs_system_lab.Prelude.Bytes.{Bytes}
use cs_system_lab.Prelude.Int.{ℤ, pos, negsuc}
use cs_system_lab.Db.Page.{
  PageType, invalid, table_page, index_page, header_page, free_list_page, type_code, type_of_code,
  to_bits, of_bits, byte_at, set_byte, load_word, store_word,
}

pub length-set_byte : (i b : ℕ) (d : Bytes) → length (set_byte i b d) ≡ length d
unfolding set_byte
length-set_byte i b [] = refl
length-set_byte zero b (c ∷ d) = refl
length-set_byte (suc i) b (c ∷ d) = omega (arith, length-set_byte i b d)

pub byte_at-set_byte : (i b : ℕ) (d : Bytes) → i < length d → byte_at i (set_byte i b d) ≡ b
unfolding byte_at set_byte
byte_at-set_byte i b [] h = absurd (omega arith)
byte_at-set_byte zero b (c ∷ d) h = refl
byte_at-set_byte (suc i) b (c ∷ d) h = byte_at-set_byte i b d (omega arith)

pub byte_at_other : (i j b : ℕ) (d : Bytes) → i ≢ j → byte_at j (set_byte i b d) ≡ byte_at j d
unfolding byte_at set_byte
byte_at_other i j b [] h = refl
byte_at_other zero zero b (c ∷ d) h = absurd (h refl)
byte_at_other zero (suc j) b (c ∷ d) h = refl
byte_at_other (suc i) zero b (c ∷ d) h = refl
byte_at_other (suc i) (suc j) b (c ∷ d) h = byte_at_other i j b d (omega arith)

-- A byte outside the word.
pub byte_at-store_word :
    (i j n : ℕ) (d : Bytes) → (j < i) ⊎ (i + 3 < j) → byte_at j (store_word i n d) ≡ byte_at j d
byte_at-store_word i j n d h =
    byte_at_other (i + 3) j _ _ (omega arith)
    ∙ byte_at_other (i + 2) j _ _ (omega arith)
    ∙ byte_at_other (i + 1) j _ _ (omega arith)
    ∙ byte_at_other i j _ d (omega arith)

pub byte_at_word :
    (i n : ℕ) (d : Bytes) → i + 3 < length d → load_word i (store_word i n d) ≡ n % 2 ^ 32
byte_at_word i n d h =
    let d0 = set_byte i (n % 2 ^ 8) d in
    let d1 = set_byte (i + 1) (n / 2 ^ 8 % 2 ^ 8) d0 in
    let d2 = set_byte (i + 2) (n / 2 ^ 16 % 2 ^ 8) d1 in
    let l0 = length-set_byte i (n % 2 ^ 8) d in
    let l1 = length-set_byte (i + 1) (n / 2 ^ 8 % 2 ^ 8) d0 in
    let l2 = length-set_byte (i + 2) (n / 2 ^ 16 % 2 ^ 8) d1 in
    let b3 : byte_at (i + 3) (store_word i n d) ≡ n / 2 ^ 24 % 2 ^ 8 =
      byte_at-set_byte (i + 3) _ d2 (omega arith) in
    let b2 : byte_at (i + 2) (store_word i n d) ≡ n / 2 ^ 16 % 2 ^ 8 =
      byte_at_other (i + 3) (i + 2) _ d2 (omega arith)
      ∙ byte_at-set_byte (i + 2) _ d1 (omega arith) in
    let b1 : byte_at (i + 1) (store_word i n d) ≡ n / 2 ^ 8 % 2 ^ 8 =
      byte_at_other (i + 3) (i + 1) _ d2 (omega arith)
      ∙ byte_at_other (i + 2) (i + 1) _ d1 (omega arith)
      ∙ byte_at-set_byte (i + 1) _ d0 (omega arith) in
    let b0 : byte_at i (store_word i n d) ≡ n % 2 ^ 8 =
      byte_at_other (i + 3) i _ d2 (omega arith)
      ∙ byte_at_other (i + 2) i _ d1 (omega arith)
      ∙ byte_at_other (i + 1) i _ d0 (omega arith)
      ∙ byte_at-set_byte i _ d (omega arith) in
    omega (arith, b0, b1, b2, b3)

pub load_word_other :
    (i j n : ℕ) (d : Bytes)
    → (j + 3 < i) ⊎ (i + 3 < j)
    → load_word j (store_word i n d) ≡ load_word j d
load_word_other i j n d h =
    let b0 = byte_at-store_word i j n d (omega arith) in
    let b1 = byte_at-store_word i (j + 1) n d (omega arith) in
    let b2 = byte_at-store_word i (j + 2) n d (omega arith) in
    let b3 = byte_at-store_word i (j + 3) n d (omega arith) in omega (arith, b0, b1, b2, b3)

pub load_word-set_byte :
    (i j b : ℕ) (d : Bytes) → (j + 3 < i) ⊎ (i < j) → load_word j (set_byte i b d) ≡ load_word j d
load_word-set_byte i j b d h =
    let b0 = byte_at_other i j b d (omega arith) in
    let b1 = byte_at_other i (j + 1) b d (omega arith) in
    let b2 = byte_at_other i (j + 2) b d (omega arith) in
    let b3 = byte_at_other i (j + 3) b d (omega arith) in omega (arith, b0, b1, b2, b3)

-- An `int32_t`.
abbrev pub IsInt32 : ℤ → Type 0
IsInt32 (pos n) = n < 2 ^ 31
IsInt32 (negsuc n) = n < 2 ^ 31

pub of_bits_mod : (p : ℤ) (n : ℕ) → IsInt32 p → n ≡ to_bits p % 2 ^ 32 → of_bits n ≡ p
of_bits_mod (pos m) n h e = ground arith
of_bits_mod (negsuc m) n h e = ground arith

pub type_of_code-type_code : (t : PageType) → type_of_code (type_code t) ≡ some t
type_of_code-type_code invalid = refl
type_of_code-type_code table_page = refl
type_of_code-type_code index_page = refl
type_of_code-type_code header_page = refl
type_of_code-type_code free_list_page = refl
