-- ===== src/Prelude/Bytes/Search.antt =====
-- What the searches of `std::string` find.
use cs_system_lab.Prelude.{
  ℕ, ◌+◌, ◌≤◌, ◌≡◌, ◌≢◌, refl, ap, true, ◌&&◌, [], ◌∷◌, ◌++◌, none, some, inl, inr, arith, length,
  ◌==◌, Option-cases, All,
}
use cs_system_lab.Prelude.Bytes.{Bytes, crlf, starts_with, find, find_char, rfind_char}

-- No byte of the text is `k`.
abbrev pub Lacks : ℕ → Bytes → Type 0
Lacks k = All (λ c. c ≢ k)

starts_with-append :
    (pat s t : Bytes) → length pat ≤ length s → starts_with pat (s ++ t) ≡ starts_with pat s
unfolding starts_with
starts_with-append [] s t h = refl
starts_with-append (p ∷ pat) [] t h = absurd (omega arith)
starts_with-append (p ∷ pat) (c ∷ s) t h =
    ap (λ b. p == c && b) (starts_with-append pat s t (omega arith))

starts_with-length : (pat s : Bytes) → starts_with pat s ≡ true → length pat ≤ length s
unfolding starts_with
starts_with-length [] s h = omega arith
starts_with-length (p ∷ pat) [] h = ground arith
starts_with-length (p ∷ pat) (c ∷ s) h = ground (arith, starts_with-length pat s)

-- An occurrence ends within the text.
pub find-bound : (pat s : Bytes) (n : ℕ) → find pat s ≡ some n → n + length pat ≤ length s
unfolding find
find-bound pat [] n h = ground (arith, starts_with-length pat [])
find-bound pat (c ∷ s) n h = elim (Option-cases (find pat s)) [
  | inl e ↦ ground (arith, starts_with-length pat (c ∷ s))
  | inr (m, e) ↦ ground (arith, starts_with-length pat (c ∷ s), find-bound pat s m e)
]

-- The first occurrence stays the first when text is added behind.
pub find-append : (pat s t : Bytes) (n : ℕ) → find pat s ≡ some n → find pat (s ++ t) ≡ some n
unfolding find
find-append pat [] [] n h = h
find-append pat [] (d ∷ t) n h =
    ground (arith, starts_with-length pat [], starts_with-append pat [] (d ∷ t))
find-append pat (c ∷ s) t n h = elim (Option-cases (find pat s)) [
  | inl e ↦ ground (arith, starts_with-length pat (c ∷ s), starts_with-append pat (c ∷ s) t)
  | inr (m, e) ↦
      ground
        (arith, find-append pat s t m e, find-bound pat s m e, starts_with-append pat (c ∷ s) t)
]

-- A line without a carriage return ends at the line end behind it.
pub find-crlf :
    (line rest : Bytes) → Lacks 13 line → find crlf (line ++ (crlf ++ rest)) ≡ some (length line)
unfolding find starts_with
find-crlf [] rest h = refl
find-crlf (c ∷ line) rest h = ground (arith, find-crlf line rest h.1)

pub find_char_split : (k : ℕ) (s t : Bytes) → Lacks k s → find_char k (s ++ k ∷ t) ≡ some (length s)
unfolding find_char
find_char_split k [] t h = ground arith
find_char_split k (c ∷ s) t h = ground (arith, find_char_split k s t h.1)

rfind_char-none : (k : ℕ) (t : Bytes) → Lacks k t → rfind_char k t ≡ none
unfolding rfind_char
rfind_char-none k [] h = refl
rfind_char-none k (c ∷ t) h = ground (arith, rfind_char-none k t h.1)

pub rfind_char_split :
    (k : ℕ) (s t : Bytes) → Lacks k t → rfind_char k (s ++ k ∷ t) ≡ some (length s)
unfolding rfind_char
rfind_char_split k [] t h = ground (arith, rfind_char-none k t h)
rfind_char_split k (c ∷ s) t h = ground (arith, rfind_char_split k s t h)

-- The first occurrence is not behind the last one.
pub find_char-none : (k : ℕ) (s : Bytes) → find_char k s ≡ none → Lacks k s
unfolding find_char
find_char-none k [] h = tt
find_char-none k (c ∷ s) h = elim (Option-cases (find_char k s)) [
  | inl e ↦ (ground arith, find_char-none k s e)
  | inr (m, e) ↦ absurd (ground arith)
]
