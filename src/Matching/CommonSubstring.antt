-- ===== src/Matching/CommonSubstring.antt =====
-- backend/app/face.py: `longest_common_substring_length` is the length of a longest common substring,
-- and what a partial match of a bib means.
use race_frame.Prelude.{
  ℕ, ◌≤◌, ◌≡◌, refl, sym, ap, ◌∙◌, subst, max, inl, inr, [], ◌∷◌, ◌++◌, arith, length, Bool-cases,
  append_assoc, leb, leb→le,
}
use race_frame.Matching.Token.{Text}
use race_frame.Matching.Substring.{fill_row, best_of, fill_rows, longest_common_substring_length}
use race_frame.Matching.LongestCommon.{
  common_prefix, spec_row, zeros-spec_row, fill_row-spec_row, reverse_onto, reverse_onto-append,
  reverse_onto-spread, length-reverse_onto, common_prefix-reverse_onto, common_prefix_split,
  best-le-best_of, entry-le-best_of,
}

-- `w` stands somewhere in `s`.
abbrev pub IsInfix : Text → Text → Type 0
IsInfix w s = (a b : Text) × (s ≡ a ++ (w ++ b))

-- The texts share a substring of that length.
abbrev pub Shares : Text → Text → ℕ → Type 0
Shares left right n = (w : Text) × IsInfix w left × IsInfix w right × (length w ≡ n)

-- The next row of the table, for one more character of the left text.
next_row :
    (c : ℕ) (u right : Text)
    → 0 ∷ fill_row c right (spec_row u [] right) ≡ spec_row (c ∷ u) [] right
unfolding common_prefix
next_row c u right = fill_row-spec_row c u [] right

best_of_row :
    (best c : ℕ) (u right : Text)
    → best_of best (fill_row c right (spec_row u [] right))
      ≡ best_of best (spec_row (c ∷ u) [] right)
unfolding best_of
best_of_row best c u right =
    ap (λ (b : ℕ). best_of b (fill_row c right (spec_row u [] right))) (omega arith)
    ∙ ap (best_of best) (next_row c u right)

-- The loop over the rows that the specification has.
spec_rows : Text → ℕ → Text → Text → ℕ
spec_rows right best u [] = best
spec_rows right best u (c ∷ left) =
    spec_rows right (best_of best (spec_row (c ∷ u) [] right)) (c ∷ u) left

fill_rows-spec_rows :
    (right : Text) (best : ℕ) (u left : Text)
    → fill_rows right best (spec_row u [] right) left ≡ spec_rows right best u left
unfolding fill_rows spec_rows
fill_rows-spec_rows right best u [] = refl
fill_rows-spec_rows right best u (c ∷ left) =
    ap (λ row. fill_rows right (best_of best (fill_row c right (spec_row u [] right))) row left)
      (next_row c u right)
    ∙ ap (λ b. fill_rows right b (spec_row (c ∷ u) [] right) left) (best_of_row best c u right)
    ∙ fill_rows-spec_rows right (best_of best (spec_row (c ∷ u) [] right)) (c ∷ u) left

best-le-spec_rows : (right : Text) (best : ℕ) (u left : Text) → best ≤ spec_rows right best u left
unfolding spec_rows
best-le-spec_rows right best u [] = omega arith
best-le-spec_rows right best u (c ∷ left) = omega (
  arith,
  best-le-best_of best (spec_row (c ∷ u) [] right),
  best-le-spec_rows right (best_of best (spec_row (c ∷ u) [] right)) (c ∷ u) left,
)

-- Each pair of parts counts, if the left one is read at all.
pair-le-spec_rows :
    (best : ℕ) (c : ℕ) (u a b x y : Text)
    → common_prefix (reverse_onto (c ∷ a) u) (reverse_onto x [])
      ≤ spec_rows (x ++ y) best u ((c ∷ a) ++ b)
unfolding spec_rows reverse_onto
pair-le-spec_rows best c u [] b x y = omega (
  arith,
  entry-le-best_of best (c ∷ u) [] x y,
  best-le-spec_rows (x ++ y) (best_of best (spec_row (c ∷ u) [] (x ++ y))) (c ∷ u) b,
)
pair-le-spec_rows best c u (d ∷ a) b x y =
    pair-le-spec_rows (best_of best (spec_row (c ∷ u) [] (x ++ y))) d (c ∷ u) a b x y

lcs-spec_rows :
    (left right : Text) → longest_common_substring_length left right ≡ spec_rows right 0 [] left
unfolding longest_common_substring_length
lcs-spec_rows left right =
    ap (λ row. fill_rows right 0 row left) (zeros-spec_row [] right)
    ∙ fill_rows-spec_rows right 0 [] left

parts-le :
    (a b x y : Text)
    → common_prefix (reverse_onto a []) (reverse_onto x []) ≤ spec_rows (x ++ y) 0 [] (a ++ b)
unfolding reverse_onto common_prefix
parts-le [] b x y = omega arith
parts-le (c ∷ a) b x y = pair-le-spec_rows 0 c [] a b x y

shared-le :
    (a w b c d : Text) → length w ≤ longest_common_substring_length (a ++ (w ++ b)) (c ++ (w ++ d))
shared-le a w b c d =
    let inside : length w ≤ common_prefix (reverse_onto (a ++ w) []) (reverse_onto (c ++ w) []) =
      rw (reverse_onto-append a w [], reverse_onto-append c w [])
        (omega (arith, common_prefix-reverse_onto w (reverse_onto a []) (reverse_onto c []))) in
    let counted = parts-le (a ++ w) b (c ++ w) d in
    rw (lcs-spec_rows (a ++ (w ++ b)) (c ++ (w ++ d)), ← append_assoc a w b, ← append_assoc c w d)
      (omega arith)

-- Where two reversed parts agree there is a common substring.
entry-Shares : (u x v y : Text) → Shares (reverse_onto u x) (reverse_onto v y) (common_prefix u v)
entry-Shares u x v y =
    let (p, u', v', eu, ev, el) = common_prefix_split u v in
    (
      reverse_onto p [],
      (reverse_onto u' [], x, spread p u u' x eu),
      (reverse_onto v' [], y, spread p v v' y ev),
      omega (arith, length-reverse_onto p []),
    )
  where
    spread :
        (p u u' x : Text)
        → u ≡ p ++ u'
        → reverse_onto u x ≡ reverse_onto u' [] ++ (reverse_onto p [] ++ x)
    spread p u u' x e =
        ap (λ t. reverse_onto t x) e
        ∙ reverse_onto-append p u' x
        ∙ ap (reverse_onto u') (reverse_onto-spread p [] x)
        ∙ reverse_onto-spread u' [] (reverse_onto p [] ++ x)

larger : (P : ℕ → Type 0) (a b : ℕ) → P a → P b → P (max a b)
larger P a b p q = elim (Bool-cases (leb b a)) [
  | inl e ↦ subst P (omega (arith, leb→le b a e)) p
  | inr e ↦ subst P (ground arith) q
]

best_of-Shares :
    (left u x : Text) (best : ℕ) (acc right : Text)
    → left ≡ reverse_onto u x
    → Shares left (reverse_onto acc right) best
    → Shares left (reverse_onto acc right) (best_of best (spec_row u acc right))
unfolding best_of spec_row reverse_onto
best_of-Shares left u x best acc [] e h =
    larger (Shares left (reverse_onto acc [])) best (common_prefix u acc) h (
      subst (λ l. Shares l (reverse_onto acc []) (common_prefix u acc)) (sym e)
        (entry-Shares u x acc []))
best_of-Shares left u x best acc (r ∷ right) e h =
    best_of-Shares left u x (max best (common_prefix u acc)) (r ∷ acc) right e (
      larger (Shares left (reverse_onto acc (r ∷ right))) best (common_prefix u acc) h (
        subst (λ l. Shares l (reverse_onto acc (r ∷ right)) (common_prefix u acc)) (sym e)
          (entry-Shares u x acc (r ∷ right))))

spec_rows-Shares :
    (whole right : Text) (best : ℕ) (u left : Text)
    → whole ≡ reverse_onto u left
    → Shares whole right best
    → Shares whole right (spec_rows right best u left)
unfolding spec_rows reverse_onto
spec_rows-Shares whole right best u [] e h = h
spec_rows-Shares whole right best u (c ∷ left) e h =
    spec_rows-Shares whole right (best_of best (spec_row (c ∷ u) [] right)) (c ∷ u) left e
      (best_of-Shares whole (c ∷ u) left best [] right e h)

attained : (left right : Text) → Shares left right (longest_common_substring_length left right)
unfolding reverse_onto
attained left right =
    subst (Shares left right) (sym (lcs-spec_rows left right))
      (spec_rows-Shares left right 0 [] left refl ([], ([], left, refl), ([], right, refl), refl))

-- The number that the table yields is the length of a longest common substring: the texts share a
-- substring of that length, and none that is longer.
pub longest_common_substring_length-IsLongest :
    (left right : Text)
    → Shares left right (longest_common_substring_length left right)
      × ((n : ℕ) → Shares left right n → n ≤ longest_common_substring_length left right)
longest_common_substring_length-IsLongest left right =
    (attained left right, λ n h. bounded left right n h)
  where
    bounded :
        (left right : Text) (n : ℕ)
        → Shares left right n
        → n ≤ longest_common_substring_length left right
    bounded left right n (w, (a, b, el), (c, d, er), en) =
        subst (λ m. m ≤ longest_common_substring_length left right) en
          (subst (λ l. length w ≤ longest_common_substring_length l right) (sym el)
            (subst (λ r. length w ≤ longest_common_substring_length (a ++ (w ++ b)) r) (sym er)
              (shared-le a w b c d)))
