-- ===== src/Db/Page/Header.antt =====
-- The header that the setters of a page leave.
use cs_system_lab.Prelude.{
  ℕ, zero, suc, ◌+◌, ◌%◌, ◌^◌, ◌≤◌, ◌≡◌, refl, ap, ◌∙◌, [], ◌∷◌, some, arith, length,
}
use cs_system_lab.Prelude.Bytes.{Bytes}
use cs_system_lab.Prelude.Int.{ℤ}
use cs_system_lab.Db.Page.{
  page_size, invalid_page_id, PageType, invalid, type_code, PageHeader, get_body_start, to_bits,
  of_bits, byte_at, store_word, header, set_page_id, set_page_type, cleared, reset, default_header,
  type_of_code,
}
use cs_system_lab.Db.Page.Layout.{
  IsInt32, of_bits_mod, type_of_code-type_code, length-set_byte, byte_at-set_byte, byte_at_other,
  byte_at-store_word, byte_at_word, load_word_other, load_word-set_byte,
}

length-store_word : (i n : ℕ) (d : Bytes) → length (store_word i n d) ≡ length d
length-store_word i n d =
    length-set_byte (i + 3) _ _
    ∙ length-set_byte (i + 2) _ _
    ∙ length-set_byte (i + 1) _ _
    ∙ length-set_byte i _ d

-- `SetPageId` with an `int32_t`, on a page with room for the header, changes the page id of the
-- header to it and no other field, and no byte behind the header.
set_page_id_lem :
    (pid : ℤ) (d : Bytes)
    → IsInt32 pid
    → get_body_start ≤ length d
    → (header (set_page_id pid d) ≡ record (header d) { page_id = pid })
      × ((i : ℕ) → get_body_start ≤ i → byte_at i (set_page_id pid d) ≡ byte_at i d)
set_page_id_lem pid d v fits =
    let own = of_bits_mod pid _ v (byte_at_word 0 (to_bits pid) d (omega arith)) in
    let kind = byte_at-store_word 0 4 (to_bits pid) d (omega arith) in
    let free = load_word_other 0 8 (to_bits pid) d (omega arith) in
    let count = load_word_other 0 12 (to_bits pid) d (omega arith) in
    let next = load_word_other 0 16 (to_bits pid) d (omega arith) in
    let prev = load_word_other 0 20 (to_bits pid) d (omega arith) in
    (rw (own, kind, free, count, next, prev), λ i h. byte_at-store_word 0 i _ d (omega arith))

-- `SetPageType`, on a page with room for the header, changes the page type of the header and no
-- other field, and no byte behind the header.
set_page_type_lem :
    (t : PageType) (d : Bytes)
    → get_body_start ≤ length d
    → (header (set_page_type t d) ≡ record (header d) { page_type = some t })
      × ((i : ℕ) → get_body_start ≤ i → byte_at i (set_page_type t d) ≡ byte_at i d)
set_page_type_lem t d fits =
    let own : type_of_code (byte_at 4 (set_page_type t d)) ≡ some t =
      ap type_of_code (byte_at-set_byte 4 (type_code t) d (omega arith))
      ∙ type_of_code-type_code t in
    let id = load_word-set_byte 4 0 (type_code t) d (omega arith) in
    let free = load_word-set_byte 4 8 (type_code t) d (omega arith) in
    let count = load_word-set_byte 4 12 (type_code t) d (omega arith) in
    let next = load_word-set_byte 4 16 (type_code t) d (omega arith) in
    let prev = load_word-set_byte 4 20 (type_code t) d (omega arith) in
    (rw (own, id, free, count, next, prev), λ i h. byte_at_other 4 i _ d (omega arith))

length-cleared : (d : Bytes) → length (cleared d) ≡ length d
length-cleared [] = refl
length-cleared (b ∷ d) = omega (arith, length-cleared d)

byte_at-cleared : (i : ℕ) (d : Bytes) → byte_at i (cleared d) ≡ 0
unfolding byte_at
byte_at-cleared i [] = refl
byte_at-cleared zero (b ∷ d) = refl
byte_at-cleared (suc i) (b ∷ d) = byte_at-cleared i d

-- The stores of `Reset` behind the two setters.
module _ (n : ℕ) (d : Bytes) (fits : get_body_start ≤ length d) where
  store_free : header (store_word 8 n d) ≡ record (header d) { free_space_offset = n % 2 ^ 32 }
  store_free =
      let own = byte_at_word 8 n d (omega arith) in
      let id = load_word_other 8 0 n d (omega arith) in
      let kind = byte_at-store_word 8 4 n d (omega arith) in
      let count = load_word_other 8 12 n d (omega arith) in
      let next = load_word_other 8 16 n d (omega arith) in
      let prev = load_word_other 8 20 n d (omega arith) in rw (own, id, kind, count, next, prev)

  store_count : header (store_word 12 n d) ≡ record (header d) { record_count = n % 2 ^ 32 }
  store_count =
      let own = byte_at_word 12 n d (omega arith) in
      let id = load_word_other 12 0 n d (omega arith) in
      let kind = byte_at-store_word 12 4 n d (omega arith) in
      let free = load_word_other 12 8 n d (omega arith) in
      let next = load_word_other 12 16 n d (omega arith) in
      let prev = load_word_other 12 20 n d (omega arith) in rw (own, id, kind, free, next, prev)

  store_next :
      header (store_word 16 n d) ≡ record (header d) { next_page_id = of_bits (n % 2 ^ 32) }
  store_next =
      let own = byte_at_word 16 n d (omega arith) in
      let id = load_word_other 16 0 n d (omega arith) in
      let kind = byte_at-store_word 16 4 n d (omega arith) in
      let free = load_word_other 16 8 n d (omega arith) in
      let count = load_word_other 16 12 n d (omega arith) in
      let prev = load_word_other 16 20 n d (omega arith) in rw (own, id, kind, free, count, prev)

  store_prev :
      header (store_word 20 n d) ≡ record (header d) { prev_page_id = of_bits (n % 2 ^ 32) }
  store_prev =
      let own = byte_at_word 20 n d (omega arith) in
      let id = load_word_other 20 0 n d (omega arith) in
      let kind = byte_at-store_word 20 4 n d (omega arith) in
      let free = load_word_other 20 8 n d (omega arith) in
      let count = load_word_other 20 12 n d (omega arith) in
      let next = load_word_other 20 16 n d (omega arith) in rw (own, id, kind, free, count, next)

-- The pages between the steps of `Reset`.
module _ (d : Bytes) where
  abbrev with_id : Bytes
  with_id = set_page_id invalid_page_id (cleared d)

  abbrev with_type : Bytes
  with_type = set_page_type invalid with_id

  abbrev with_free : Bytes
  with_free = store_word 8 page_size with_type

  abbrev with_count : Bytes
  with_count = store_word 12 0 with_free

  abbrev with_next : Bytes
  with_next = store_word 16 (to_bits invalid_page_id) with_count

  length-with_id : length with_id ≡ length d
  length-with_id = length-store_word 0 (to_bits invalid_page_id) (cleared d) ∙ length-cleared d

  length-with_type : length with_type ≡ length d
  length-with_type = length-set_byte 4 (type_code invalid) with_id ∙ length-with_id

  length-with_free : length with_free ≡ length d
  length-with_free = length-store_word 8 page_size with_type ∙ length-with_type

  length-with_count : length with_count ≡ length d
  length-with_count = length-store_word 12 0 with_free ∙ length-with_free

  length-with_next : length with_next ≡ length d
  length-with_next = length-store_word 16 (to_bits invalid_page_id) with_count ∙ length-with_count

module _ (d : Bytes) (full : length d ≡ page_size) where
  header-reset : header (reset d) ≡ default_header
  unfolding reset
  header-reset =
      let id =
        set_page_id_lem invalid_page_id (cleared d) (omega arith)
          (omega (arith, length-cleared d)) in
      let kind = set_page_type_lem invalid (with_id d) (omega (arith, length-with_id d)) in
      let free = store_free page_size (with_type d) (omega (arith, length-with_type d)) in
      let count = store_count 0 (with_free d) (omega (arith, length-with_free d)) in
      let next =
        store_next (to_bits invalid_page_id) (with_count d) (omega (arith, length-with_count d)) in
      let prev =
        store_prev (to_bits invalid_page_id) (with_next d) (omega (arith, length-with_next d)) in
      let kind_set = kind.0 ∙ ap (λ (h : PageHeader). record h { page_type = some invalid }) id.0 in
      let free_set =
        free ∙ ap (λ (h : PageHeader). record h { free_space_offset = page_size }) kind_set in
      let count_set = count ∙ ap (λ (h : PageHeader). record h { record_count = 0 }) free_set in
      let next_set =
        next ∙ ap (λ (h : PageHeader). record h { next_page_id = invalid_page_id }) count_set in
      prev ∙ ap (λ (h : PageHeader). record h { prev_page_id = invalid_page_id }) next_set

  reset_zeroes : (i : ℕ) → get_body_start ≤ i → byte_at i (reset d) ≡ 0
  unfolding reset
  reset_zeroes i h =
      let id =
        set_page_id_lem invalid_page_id (cleared d) (omega arith)
          (omega (arith, length-cleared d)) in
      let kind = set_page_type_lem invalid (with_id d) (omega (arith, length-with_id d)) in
      byte_at-store_word 20 i (to_bits invalid_page_id) (with_next d) (omega arith)
      ∙ byte_at-store_word 16 i (to_bits invalid_page_id) (with_count d) (omega arith)
      ∙ byte_at-store_word 12 i 0 (with_free d) (omega arith)
      ∙ byte_at-store_word 8 i page_size (with_type d) (omega arith)
      ∙ kind.1 i h
      ∙ id.1 i h
      ∙ byte_at-cleared i d

-- Whatever a page of full size held, after `Reset` its header is the default one, all bytes behind
-- the header are 0, and its size is the same.
pub reset_lem :
    (d : Bytes)
    → length d ≡ page_size
    → (header (reset d) ≡ default_header)
      × ((i : ℕ) → get_body_start ≤ i → byte_at i (reset d) ≡ 0)
      × (length (reset d) ≡ page_size)
unfolding reset
reset_lem d full = (
  header-reset d full,
  reset_zeroes d full,
  length-store_word 20 (to_bits invalid_page_id) (with_next d) ∙ length-with_next d ∙ full,
)
