-- ===== src/Matching/Substring.antt =====
-- backend/app/face.py: `longest_common_substring_length`, by rows of a table, and the test for a
-- partial match.
use race_frame.Prelude.{
  ℕ, ◌+◌, ◌-◌, max, Bool, true, false, ◌&&◌, ◌||◌, List, [], ◌∷◌, ltb, leb, ◌==◌, if◌then◌else◌,
  length,
}
use race_frame.Matching.Token.{Text}

-- `[0] * (len(right) + 1)`
unfoldable pub zeros : Text → List ℕ
zeros [] = 0 ∷ []
zeros (_ ∷ right) = 0 ∷ zeros right

-- The entries of `current` from index 1 on; an entry looks at the one before it in `previous`.
unfoldable pub fill_row : ℕ → Text → List ℕ → List ℕ
fill_row left_char [] previous = []
fill_row left_char (right_char ∷ right) [] = []
fill_row left_char (right_char ∷ right) (above ∷ previous) =
    (if left_char == right_char then above + 1 else 0) ∷ fill_row left_char right previous

-- `best` after a row: entries that were not written are 0 and change nothing.
unfoldable pub best_of : ℕ → List ℕ → ℕ
best_of best [] = best
best_of best (entry ∷ row) = best_of (max best entry) row

-- The outer loop.
unfoldable pub fill_rows : Text → ℕ → List ℕ → Text → ℕ
fill_rows right best previous [] = best
fill_rows right best previous (left_char ∷ left) =
    let row = fill_row left_char right previous in fill_rows right (best_of best row) (0 ∷ row) left

unfoldable pub longest_common_substring_length : Text → Text → ℕ
unfolding zeros fill_row best_of fill_rows
longest_common_substring_length left right = fill_rows right 0 (zeros right) left

abbrev pub is_prefix : Text → Text → Bool
is_prefix [] t = true
is_prefix (a ∷ s) [] = false
is_prefix (a ∷ s) (b ∷ t) = a == b && is_prefix s t

-- Python's `s in t`.
abbrev pub is_substring : Text → Text → Bool
is_substring s [] = is_prefix s []
is_substring s (b ∷ t) = is_prefix s (b ∷ t) || is_substring s t

unfoldable pub is_partial_bib_match : Text → Text → Bool
is_partial_bib_match candidate target =
    if ltb (length target) 3 || ltb (length candidate) 2
    then false
    else if ltb (length target) (length candidate)
    then false
    else if is_substring candidate target && leb (max 2 (length target - 1)) (length candidate)
    then true
    else leb (max 3 (length target - 1)) (longest_common_substring_length candidate target)
