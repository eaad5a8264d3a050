-- ===== src/Http/Request/Render/Lines.antt =====
-- The line parsers on the lines that a client writes.
use cs_system_lab.Prelude.{
  ℕ, ◌+◌, ◌-◌, ◌≡◌, sym, true, false, [], ◌∷◌, ◌++◌, map, some, append_assoc, arith, length,
  length-append, drop, ◌==◌, drop_past, take-append_length,
}
use cs_system_lab.Prelude.Bytes.{Bytes, to_lower, is_blank, substr, find_char, rfind_char}
use cs_system_lab.Prelude.Bytes.Search.{Lacks, find_char_split, rfind_char_split}
use cs_system_lab.Http.Request.{
  HttpRequest, parse_request_line, parse_header, store_header, slashed, trimmed,
}
use cs_system_lab.Http.Request.Shape.{IsSlashed, IsHttp}

slashed_self : (p : Bytes) → IsSlashed p → slashed p ≡ p
unfolding slashed
slashed_self [] h = absurd h
slashed_self (c ∷ p) h = ground arith

module _ (r : HttpRequest) (method path version : Bytes) (method_word : Lacks b' ' method)
    (version_word : Lacks b' ' version) (slashed_path : IsSlashed path)
    (http_version : IsHttp version) where
  abbrev line : Bytes
  line = method ++ (b' ' ∷ (path ++ (b' ' ∷ version)))

  first_space : find_char b' ' line ≡ some (length method)
  first_space = find_char_split b' ' method _ method_word

  regrouped : line ≡ (method ++ (b' ' ∷ path)) ++ (b' ' ∷ version)
  regrouped = sym (append_assoc method (b' ' ∷ path) (b' ' ∷ version))

  abbrev pos2 : ℕ
  pos2 = length (method ++ (b' ' ∷ path))

  last_space : rfind_char b' ' line ≡ some pos2
  last_space = rw regrouped (rfind_char_split b' ' (method ++ (b' ' ∷ path)) version version_word)

  pos2_lem : pos2 ≡ length method + length path + 1
  pos2_lem = omega (arith, length-append method (b' ' ∷ path))

  path_cut : substr line (length method + 1) (pos2 - length method - 1) ≡ path
  path_cut =
      let n : pos2 - length method - 1 ≡ length path = omega (arith, pos2_lem) in
      rw (n, drop_past method (b' ' ∷ (path ++ (b' ' ∷ version))) 1)
        (take-append_length path (b' ' ∷ version))

  version_cut : drop (pos2 + 1) line ≡ version
  version_cut = rw regrouped (drop_past (method ++ (b' ' ∷ path)) (b' ' ∷ version) 1)

  pub parse_request_line_lem :
      parse_request_line r line
      ≡ (record r { method = method; path = path; version = version }, true)
  unfolding parse_request_line
  parse_request_line_lem =
      let differ : (pos2 == length method) ≡ false = ground (arith, pos2_lem) in
      rw (first_space, last_space, parse_request_line)
        (rw differ (
          rw (
            path_cut,
            version_cut,
            take-append_length method _,
            slashed_self path slashed_path,
            http_version,
          )))

-- The text begins with a byte that is no blank.
abbrev pub StartsSolid : Bytes → Type 0
StartsSolid [] = ⊥
StartsSolid (c ∷ v) = is_blank c ≡ false

trimmed_lem : (v : Bytes) → StartsSolid v → trimmed (b' ' ∷ v) ≡ v
unfolding trimmed
trimmed_lem [] h = absurd h
trimmed_lem (c ∷ v) h = ground arith

module _ (r : HttpRequest) (k v : Bytes) (no_colon : Lacks b':' k) (solid : StartsSolid v) where
  pub header_stored : parse_header r (k ++ (b':' ∷ b' ' ∷ v)) ≡ store_header r (map to_lower k) v
  unfolding parse_header
  header_stored =
      rw (find_char_split b':' k (b' ' ∷ v) no_colon, parse_header)
        (rw (take-append_length k _, drop_past k (b':' ∷ b' ' ∷ v) 1, trimmed_lem v solid))
