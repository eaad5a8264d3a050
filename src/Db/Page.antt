-- ===== src/Db/Page.antt =====
-- db-engineering/src/include/db/storage/page.h, with the constants of common/config.h, on a machine
-- with little-endian words, where a header is laid out with `page_type` at byte 4 and three bytes of
-- padding behind it. `data_` is the list of the bytes of a page.
pub mod Layout
pub mod Header
use cs_system_lab.Prelude.{
  ℕ, zero, suc, ◌+◌, ◌-◌, ◌*◌, ◌/◌, ◌%◌, ◌^◌, ◌≤◌, ◌<◌, ◌≡◌, ◌≢◌, ◌⊎◌, inl, inr, refl, sym, ap, ◌∙◌,
  Bool, true, false, List, [], ◌∷◌, ◌++◌, Option, none, some, arith, length, map, ltb, ◌==◌,
  if◌then◌else◌,
}
use cs_system_lab.Prelude.Bytes.{Bytes}
use cs_system_lab.Prelude.Int.{ℤ, pos, negsuc}

abbrev pub page_size : ℕ
page_size = 4096

abbrev pub invalid_page_id : ℤ
invalid_page_id = negsuc 0

pub data PageType : Type 0 where
  invalid table_page index_page header_page free_list_page : PageType

abbrev pub type_code : PageType → ℕ
type_code invalid = 0
type_code table_page = 1
type_code index_page = 2
type_code header_page = 3
type_code free_list_page = 4

-- A byte that is none of the five is a value without a name.
abbrev pub type_of_code : ℕ → Option PageType
type_of_code n =
    if n == 0
    then some invalid
    else if n == 1
    then some table_page
    else if n == 2
    then some index_page
    else if n == 3
    then some header_page
    else if n == 4
    then some free_list_page
    else none

pub record PageHeader : Type 0 where
  pub page_id : ℤ
  pub page_type : Option PageType
  pub free_space_offset : ℕ
  pub record_count : ℕ
  pub next_page_id : ℤ
  pub prev_page_id : ℤ

-- `sizeof(PageHeader)`
abbrev pub get_body_start : ℕ
get_body_start = 24

-- The 32 bits of an `int32_t`, and back.
abbrev pub to_bits : ℤ → ℕ
to_bits (pos n) = n
to_bits (negsuc n) = 2 ^ 32 - 1 - n

abbrev pub of_bits : ℕ → ℤ
of_bits n = if ltb n (2 ^ 31) then pos n else negsuc (2 ^ 32 - 1 - n)

-- A byte of the page.
unfoldable pub byte_at : ℕ → Bytes → ℕ
byte_at i [] = 0
byte_at zero (b ∷ d) = b
byte_at (suc i) (b ∷ d) = byte_at i d

unfoldable pub set_byte : ℕ → ℕ → Bytes → Bytes
set_byte i b [] = []
set_byte zero b (c ∷ d) = b ∷ d
set_byte (suc i) b (c ∷ d) = c ∷ set_byte i b d

abbrev pub load_word : ℕ → Bytes → ℕ
load_word i d =
    byte_at i d
    + 2 ^ 8 * byte_at (i + 1) d
    + 2 ^ 16 * byte_at (i + 2) d
    + 2 ^ 24 * byte_at (i + 3) d

abbrev pub store_word : ℕ → ℕ → Bytes → Bytes
store_word i n d = set_byte (i + 3) (n / 2 ^ 24 % 2 ^ 8) (
    set_byte (i + 2) (n / 2 ^ 16 % 2 ^ 8)
      (set_byte (i + 1) (n / 2 ^ 8 % 2 ^ 8) (set_byte i (n % 2 ^ 8) d)))

-- The header, as `reinterpret_cast` reads it.
abbrev pub header : Bytes → PageHeader
header d = record {
  page_id = of_bits (load_word 0 d);
  page_type = type_of_code (byte_at 4 d);
  free_space_offset = load_word 8 d;
  record_count = load_word 12 d;
  next_page_id = of_bits (load_word 16 d);
  prev_page_id = of_bits (load_word 20 d);
}

abbrev pub get_page_id : Bytes → ℤ
get_page_id d = (header d).page_id

abbrev pub set_page_id : ℤ → Bytes → Bytes
set_page_id pid d = store_word 0 (to_bits pid) d

abbrev pub get_page_type : Bytes → Option PageType
get_page_type d = (header d).page_type

abbrev pub set_page_type : PageType → Bytes → Bytes
set_page_type t d = set_byte 4 (type_code t) d

-- `memset(data_, 0, PAGE_SIZE)`
abbrev pub cleared : Bytes → Bytes
cleared d = map (λ _. 0) d

unfoldable pub reset : Bytes → Bytes
reset d =
    let d = cleared d in
    let d = set_page_id invalid_page_id d in
    let d = set_page_type invalid d in
    let d = store_word 8 page_size d in
    let d = store_word 12 0 d in
    let d = store_word 16 (to_bits invalid_page_id) d in store_word 20 (to_bits invalid_page_id) d

-- The header that the initialisers of its fields make.
abbrev pub default_header : PageHeader
default_header = record {
  page_id = invalid_page_id;
  page_type = some invalid;
  free_space_offset = page_size;
  record_count = 0;
  next_page_id = invalid_page_id;
  prev_page_id = invalid_page_id;
}
