-- ===== src/Http/Request/Fields.antt =====
-- `parseHeader` and `getHeader`.
use cs_system_lab.Prelude.{
  ◌≡◌, refl, ap, ◌∙◌, Bool, true, false, inl, inr, ◌∷◌, ◌++◌, map, Option, none, some,
  if◌then◌else◌, Bool-cases,
}
use cs_system_lab.Prelude.Bytes.{Bytes, codes, to_lower, eq_bytes}
use cs_system_lab.Prelude.Bytes.Search.{Lacks}
use cs_system_lab.Prelude.Int.{ℤ, pos, negsuc}
use cs_system_lab.Prelude.Map.{insert, lookup, lookup-insert}
use cs_system_lab.Http.Number.{strtol}
use cs_system_lab.Http.Request.{
  HttpRequest, with_length, store_header, parse_header, or_empty, get_header,
}
use cs_system_lab.Http.Request.Render.Lines.{StartsSolid, header_stored}

with_length-headers : (r : HttpRequest) (n : Option ℤ) → (with_length r n).0.headers ≡ r.headers
with_length-headers r none = refl
with_length-headers r (some (pos n)) = refl
with_length-headers r (some (negsuc n)) = refl

store_header-headers :
    (r : HttpRequest) (key value : Bytes)
    → (store_header r key value).0.headers ≡ insert key value r.headers
unfolding store_header
store_header-headers r key value = elim (Bool-cases (eq_bytes key (codes "content-length"))) [
  | inl e ↦ rw e (with_length-headers _ (strtol value))
  | inr e ↦ rw e refl
]

pub or_empty-if :
    (b : Bool) (v : Bytes) (o : Option Bytes)
    → or_empty (if b then some v else o) ≡ (if b then v else or_empty o)
or_empty-if true v o = refl
or_empty-if false v o = refl

-- After a line `key: value`, whose key has no colon and whose value begins with no blank,
-- `getHeader` finds the value under that key in any capitals, the last one where a key comes
-- again, and under every other key what it found before; this holds of a Content-Length that is
-- refused, too.
pub get_header-parse_header :
    (r : HttpRequest) (key value name : Bytes)
    → Lacks b':' key
    → StartsSolid value
    → get_header (parse_header r (key ++ (b':' ∷ b' ' ∷ value))).0 name
      ≡ (if eq_bytes (map to_lower key) (map to_lower name) then value else get_header r name)
unfolding get_header
get_header-parse_header r key value name no_colon solid =
    let k = map to_lower key in
    let n = map to_lower name in
    ap (λ (p : HttpRequest × Bool). or_empty (lookup n p.0.headers))
      (header_stored r key value no_colon solid)
    ∙ ap (λ h. or_empty (lookup n h)) (store_header-headers r k value)
    ∙ ap or_empty (lookup-insert k n value r.headers)
    ∙ or_empty-if (eq_bytes k n) value (lookup n r.headers)
