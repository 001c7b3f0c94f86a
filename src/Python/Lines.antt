-- ===== src/Python/Lines.antt =====
-- `text.splitlines()`, `text.split()` and `text.split(separator)`.
pub mod Pieces
use agent_vm.Base.{
  ℕ, Bool, true, false, ◌&&◌, ◌||◌, not, List, [], ◌∷◌, leb, nat_beq, if◌then◌else◌, filter, ◌≡◌,
  refl,
}
use agent_vm.Python.Text.{Text, codes, is_space}

-- A character in front of the first piece.
unfoldable pub attach : ℕ → List Text → List Text
attach c [] = (c ∷ []) ∷ []
attach c (piece ∷ pieces) = (c ∷ piece) ∷ pieces

-- The pieces between the characters that `cuts` selects.
unfoldable pub cut : (ℕ → Bool) → Text → List Text
unfolding attach
cut cuts [] = [] ∷ []
cut cuts (c ∷ s) = let rest = cut cuts s in if cuts c then [] ∷ rest else attach c rest

-- the line boundaries of `str.splitlines`
unfoldable pub is_line_break : ℕ → Bool
is_line_break c =
    (leb 10 c && leb c 13)
    || (leb 28 c && leb c 30)
    || nat_beq c 133
    || nat_beq c 8232
    || nat_beq c 8233

abbrev pub opens_with_newline : Text → Bool
opens_with_newline [] = false
opens_with_newline (c ∷ s) = nat_beq c 10

-- `text.splitlines()`
unfoldable pub split_lines : Text → List Text
unfolding attach is_line_break
split_lines [] = []
split_lines (c ∷ s) =
    let rest = split_lines s in
    if nat_beq c 13 && opens_with_newline s
    then rest
    else if is_line_break c
    then [] ∷ rest
    else attach c rest

abbrev pub is_empty : Text → Bool
is_empty [] = true
is_empty (_ ∷ _) = false

-- `text.split()`
unfoldable pub words : Text → List Text
unfolding filter cut is_space
words s = filter (λ w. not (is_empty w)) (cut is_space s)

line_texts :
    (split_lines (codes "a\nb\n\n") ≡ codes "a" ∷ codes "b" ∷ [] ∷ [])
    × (words (codes "  MemTotal:  16 kB ") ≡ codes "MemTotal:" ∷ codes "16" ∷ codes "kB" ∷ [])
unfolding split_lines words
line_texts = (refl, refl)
