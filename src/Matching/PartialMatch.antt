-- ===== src/Matching/PartialMatch.antt =====
-- backend/app/face.py: what `is_partial_bib_match` accepts.
use race_frame.Prelude.{ℕ, ◌-◌, ◌≤◌, max, ◌⊎◌, length}
use race_frame.Matching.Token.{Text}
use race_frame.Matching.CommonSubstring.{IsInfix, Shares}

-- A long enough part of the target: the whole candidate, or a common substring.
abbrev pub Overlaps : Text → Text → Type 0
Overlaps candidate target =
    (IsInfix candidate target × (max 2 (length target - 1) ≤ length candidate))
    ⊎ ((n : ℕ) × Shares candidate target n × (max 3 (length target - 1) ≤ n))

abbrev pub IsPartial : Text → Text → Type 0
IsPartial candidate target =
    (3 ≤ length target)
    × (2 ≤ length candidate)
    × (length candidate ≤ length target)
    × Overlaps candidate target
