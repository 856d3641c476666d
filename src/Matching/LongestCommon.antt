-- ===== src/Matching/LongestCommon.antt =====
-- backend/app/face.py: the table of `longest_common_substring_length` against common prefixes of the
-- reversed parts of the texts.
use race_frame.Prelude.{
  ℕ, ◌+◌, ◌≤◌, ◌≡◌, refl, ap, max, inl, inr, List, [], ◌∷◌, ◌++◌, arith, ◌==◌, if◌then◌else◌,
  length, Bool-cases,
}
use race_frame.Matching.Token.{Text}
use race_frame.Matching.Substring.{zeros, fill_row, best_of}

-- The length of the longest common prefix.
unfoldable pub common_prefix : Text → Text → ℕ
common_prefix [] t = 0
common_prefix (a ∷ s) [] = 0
common_prefix (a ∷ s) (b ∷ t) = if a == b then common_prefix s t + 1 else 0

-- The row of the table for a reversed part `u` of the left text: its common prefix with each
-- reversed part of the right text, of which `acc` stands reversed before `right`.
unfoldable pub spec_row : Text → Text → Text → List ℕ
spec_row u acc [] = common_prefix u acc ∷ []
spec_row u acc (r ∷ right) = common_prefix u acc ∷ spec_row u (r ∷ acc) right

pub zeros-spec_row : (acc right : Text) → zeros right ≡ spec_row [] acc right
unfolding zeros spec_row common_prefix
zeros-spec_row acc [] = refl
zeros-spec_row acc (r ∷ right) = ap (◌∷◌ 0) (zeros-spec_row (r ∷ acc) right)

-- One row follows from the one before it.
pub fill_row-spec_row :
    (c : ℕ) (u acc right : Text)
    → common_prefix (c ∷ u) acc ∷ fill_row c right (spec_row u acc right)
      ≡ spec_row (c ∷ u) acc right
unfolding fill_row spec_row common_prefix
fill_row-spec_row c u acc [] = refl
fill_row-spec_row c u acc (r ∷ right) =
    ap (◌∷◌ (common_prefix (c ∷ u) acc)) (fill_row-spec_row c u (r ∷ acc) right)

unfoldable pub reverse_onto : Text → Text → Text
reverse_onto [] acc = acc
reverse_onto (x ∷ xs) acc = reverse_onto xs (x ∷ acc)

pub reverse_onto-append :
    (p q r : Text) → reverse_onto (p ++ q) r ≡ reverse_onto q (reverse_onto p r)
unfolding reverse_onto
reverse_onto-append [] q r = refl
reverse_onto-append (x ∷ p) q r = reverse_onto-append p q (x ∷ r)

pub reverse_onto-spread : (p r s : Text) → reverse_onto p (r ++ s) ≡ reverse_onto p r ++ s
unfolding reverse_onto
reverse_onto-spread [] r s = refl
reverse_onto-spread (x ∷ p) r s = reverse_onto-spread p (x ∷ r) s

pub length-reverse_onto : (p r : Text) → length (reverse_onto p r) ≡ length p + length r
unfolding reverse_onto
length-reverse_onto [] r = omega arith
length-reverse_onto (x ∷ p) r = omega (arith, length-reverse_onto p (x ∷ r))

-- A shared part stands at the front of both reversed texts.
pub common_prefix-reverse_onto :
    (w s t : Text)
    → common_prefix (reverse_onto w s) (reverse_onto w t) ≡ length w + common_prefix s t
unfolding common_prefix reverse_onto
common_prefix-reverse_onto [] s t = omega arith
common_prefix-reverse_onto (x ∷ w) s t =
    ground (arith, common_prefix-reverse_onto w (x ∷ s) (x ∷ t))

-- What the two reversed parts share, and the rests.
pub common_prefix_split :
    (u v : Text) → (p u' v' : Text) × (u ≡ p ++ u') × (v ≡ p ++ v') × (length p ≡ common_prefix u v)
unfolding common_prefix
common_prefix_split [] v = ([], [], v, refl, refl, refl)
common_prefix_split (a ∷ u) [] = ([], a ∷ u, [], refl, refl, refl)
common_prefix_split (a ∷ u) (b ∷ v) = elim (Bool-cases (a == b)) [
  | inl e ↦
      let (p, u', v', eu, ev, el) = common_prefix_split u v in
      (a ∷ p, u', v', ap (◌∷◌ a) eu, ground arith, ground arith)
  | inr e ↦ ([], a ∷ u, b ∷ v, refl, refl, ground arith)
]

pub best-le-best_of : (best : ℕ) (row : List ℕ) → best ≤ best_of best row
unfolding best_of
best-le-best_of best [] = omega arith
best-le-best_of best (entry ∷ row) = omega (arith, best-le-best_of (max best entry) row)

-- Each entry of a row counts.
pub entry-le-best_of :
    (best : ℕ) (u acc x y : Text)
    → common_prefix u (reverse_onto x acc) ≤ best_of best (spec_row u acc (x ++ y))
unfolding spec_row best_of reverse_onto
entry-le-best_of best u acc [] [] = omega arith
entry-le-best_of best u acc [] (r ∷ y) =
    omega (arith, best-le-best_of (max best (common_prefix u acc)) (spec_row u (r ∷ acc) y))
entry-le-best_of best u acc (r ∷ x) y =
    entry-le-best_of (max best (common_prefix u acc)) u (r ∷ acc) x y
