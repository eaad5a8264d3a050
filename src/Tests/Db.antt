-- ===== src/Tests/Db.antt =====
-- Db at concrete types and pages.
use cs_system_lab.Prelude.{ℕ, zero, suc, ◌≤◌, ◌≡◌, refl, [], ◌∷◌, length}
use cs_system_lab.Prelude.Bytes.{Bytes}
use cs_system_lab.Prelude.Int.{negsuc}
use cs_system_lab.Db.Page.{
  page_size, get_body_start, header, set_page_id, get_page_id, default_header, reset, byte_at,
  set_byte,
}
use cs_system_lab.Db.Page.Header.{reset_lem}

abbrev ones : ℕ → Bytes
ones zero = []
ones (suc n) = 1 ∷ ones n

get_set_page_id : get_page_id (set_page_id (negsuc 41) (ones 24)) ≡ negsuc 41
unfolding byte_at set_byte
get_set_page_id = refl

-- A page of full size.
abbrev full : Bytes
full = ones page_size

length-full : length full ≡ page_size
length-full = refl

reset_lem_example :
    (header (reset full) ≡ default_header)
    × ((i : ℕ) → get_body_start ≤ i → byte_at i (reset full) ≡ 0)
    × (length (reset full) ≡ page_size)
reset_lem_example = reset_lem full length-full
