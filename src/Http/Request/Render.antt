-- ===== src/Http/Request/Render.antt =====
-- The text of a request, as a client writes it, and what `parse` makes of it.
pub mod Lines
pub mod Fields
pub mod RoundTrip
pub mod Keeping
use Lines.{StartsSolid}
use cs_system_lab.Prelude.{
  ℕ, zero, suc, ◌+◌, ◌≤◌, ◌<◌, ◌≡◌, ◌≢◌, refl, sym, ap, ◌∙◌, Bool, true, false, List, [], ◌∷◌, ◌++◌,
  map, inl, inr, ◌⊎◌, not, if◌then◌else◌, Option, none, some, append_assoc, arith, length,
  length-append, All, drop, take,
}
use cs_system_lab.Prelude.Bytes.{Bytes, codes, crlf, to_lower, is_blank, eq_bytes}
use cs_system_lab.Prelude.Bytes.Search.{Lacks}
use cs_system_lab.Prelude.Map.{Headers, insert}
use cs_system_lab.Http.Number.{decimal, long_max}
use cs_system_lab.Http.Request.{
  HttpRequest, got_all, fresh, max_request_size, max_header_count, parse,
}
use cs_system_lab.Http.Request.Shape.{IsSlashed, IsHttp}

-- A request before it is written: its header fields in order, with those that tell the length of
-- the body, if any.
pub record Message : Type 0 where
  pub method : Bytes
  pub path : Bytes
  pub version : Bytes
  pub fields : List (Bytes × Bytes)
  pub body : Bytes

abbrev pub field_line : Bytes × Bytes → Bytes
field_line (k, v) = k ++ (b':' ∷ b' ' ∷ v)

abbrev pub field_lines : List (Bytes × Bytes) → Bytes → Bytes
field_lines [] rest = crlf ++ rest
field_lines (kv ∷ kvs) rest = field_line kv ++ (crlf ++ field_lines kvs rest)

abbrev pub request_line : Message → Bytes
request_line m = m.method ++ (b' ' ∷ (m.path ++ (b' ' ∷ m.version)))

-- The message, with whatever follows it on the connection.
unfoldable pub render : Message → Bytes → Bytes
render m rest = request_line m ++ (crlf ++ field_lines m.fields (m.body ++ rest))

-- A field under the name Content-Length, in any capitals.
abbrev pub is_length : Bytes × Bytes → Bool
is_length (k, v) = eq_bytes (map to_lower k) (codes "content-length")

abbrev pub has_length : List (Bytes × Bytes) → Bool
has_length [] = false
has_length (kv ∷ kvs) = if is_length kv then true else has_length kvs

-- A name without a colon or a line end; a value without a line end, that begins with a byte that is
-- no blank; and the length of the body, where it is told, is the right one.
pub record IsField (n : ℕ) (kv : Bytes × Bytes) : Type 0 where
  pub no_colon : Lacks b':' kv.0
  pub no_break : Lacks 13 (field_line kv)
  pub solid : StartsSolid kv.1
  pub right_length : is_length kv ≡ true → kv.1 ≡ decimal n

-- The length may be told at any place among the fields, also more than once, and need not be told
-- where there is no body.
pub record IsMessage (m : Message) : Type 0 where
  pub method_word : Lacks b' ' m.method
  pub version_word : Lacks b' ' m.version
  pub one_line : Lacks 13 (request_line m)
  pub slashed_path : IsSlashed m.path
  pub http_version : IsHttp m.version
  pub well_formed : All (IsField (length m.body)) m.fields
  pub few : length m.fields ≤ max_header_count
  pub told : (m.body ≡ []) ⊎ (has_length m.fields ≡ true)
  pub short_body : length m.body ≤ long_max

-- The value of the last field of that name, in any capitals, or else the given one.
abbrev pub value_of : Bytes → List (Bytes × Bytes) → Bytes → Bytes
value_of name [] v = v
value_of name ((k, x) ∷ kvs) v = value_of name kvs (if eq_bytes (map to_lower k) name then x else v)

-- What the sender wants to become of the connection: HTTP/1.1 keeps it unless it says `close`, other
-- versions do just if it says `keep-alive`.
abbrev pub wants_keep : Message → Bool
wants_keep m =
    let said = value_of (codes "connection") m.fields [] in
    if eq_bytes m.version (codes "HTTP/1.1")
    then not (eq_bytes said (codes "close"))
    else eq_bytes said (codes "keep-alive")

-- The headers after the fields of a list, the names in lower case.
abbrev pub stored : Headers → List (Bytes × Bytes) → Headers
stored h [] = h
stored h ((k, v) ∷ kvs) = stored (insert (map to_lower k) v h) kvs
