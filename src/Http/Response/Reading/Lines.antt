-- ===== src/Http/Response/Reading/Lines.antt =====
-- Reading lines up to an empty one.
use cs_system_lab.Prelude.{
  ℕ, zero, suc, ◌+◌, ◌<◌, ◌≡◌, ap, ◌∙◌, List, [], ◌∷◌, ◌++◌, Option, none, some, arith, length,
  length-append, take, drop, take-append_length, drop_past, All,
}
use cs_system_lab.Prelude.Bytes.{Bytes, crlf, find}
use cs_system_lab.Prelude.Bytes.Search.{Lacks, find-crlf}

abbrev more : Bytes → Bytes → Option (List Bytes × Bytes) → Option (List Bytes × Bytes)
more [] s later = some ([], s)
more (c ∷ line) s none = none
more (c ∷ line) s (some (lines, t)) = some ((c ∷ line) ∷ lines, t)

-- The fuel bounds the number of lines.
unfoldable pub read_lines : ℕ → Bytes → Option (List Bytes × Bytes)
read_lines zero s = none
read_lines (suc f) s = elim (find crlf s) [
  | none ↦ none
  | some eol ↦ more (take eol s) (drop (eol + 2) s) (read_lines f (drop (eol + 2) s))
]

-- The text of some lines with an empty one behind.
abbrev pub join_lines : List Bytes → Bytes → Bytes
join_lines [] rest = crlf ++ rest
join_lines (line ∷ lines) rest = line ++ (crlf ++ join_lines lines rest)

abbrev pub IsLine : Bytes → Type 0
IsLine [] = ⊥
IsLine (c ∷ line) = Lacks 13 (c ∷ line)

read_lines_at :
    (f : ℕ) (line rest : Bytes)
    → Lacks 13 line
    → read_lines (suc f) (line ++ (crlf ++ rest)) ≡ more line rest (read_lines f rest)
unfolding read_lines
read_lines_at f line rest h =
    rw (find-crlf line rest h, read_lines)
      (rw (take-append_length line (crlf ++ rest), drop_past line (crlf ++ rest) 2))

pub read_lines_lem :
    (f : ℕ) (lines : List Bytes) (rest : Bytes)
    → All IsLine lines
    → length lines < f
    → read_lines f (join_lines lines rest) ≡ some (lines, rest)
read_lines_lem zero lines rest h k = absurd (omega arith)
read_lines_lem (suc f) [] rest h k = read_lines_at f [] rest tt
read_lines_lem (suc f) ([] ∷ lines) rest (h, hs) k = absurd h
read_lines_lem (suc f) ((c ∷ line) ∷ lines) rest (h, hs) k =
    read_lines_at f (c ∷ line) (join_lines lines rest) h
    ∙ ap (more (c ∷ line) (join_lines lines rest)) (read_lines_lem f lines rest hs (omega arith))

-- There are fewer lines than bytes.
pub length-join_lines :
    (lines : List Bytes) (rest : Bytes) → length lines < length (join_lines lines rest)
length-join_lines [] rest = omega arith
length-join_lines (line ∷ lines) rest =
    omega (arith, length-join_lines lines rest, length-append line (crlf ++ join_lines lines rest))
