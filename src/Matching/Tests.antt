-- ===== src/Matching/Tests.antt =====
-- Texts as in backend/tests/test_matching_and_uploads.py.
use race_frame.Prelude.{codes, ℕ, ◌≤◌, ◌≡◌, ◌↔◌, refl, true, [], ◌∷◌, keep, take}
use race_frame.Matching.Token.{Text, normalize_match_token, normalize_bib_lookup}
use race_frame.Matching.Candidates.{extract_match_candidates, rebuild_match_candidates}
use race_frame.Matching.Substring.{longest_common_substring_length, is_partial_bib_match}
use race_frame.Matching.CommonSubstring.{Shares, longest_common_substring_length-IsLongest}
use race_frame.Matching.Strong.{strong_iff_exact}
use race_frame.Matching.Evidence.{
  strong, weak, score_bib_evidence, has_exact_bib_match, exact_bib_match_values,
}

-- No text here has a character beyond ASCII.
abbrev ascii : ℕ → Text
ascii c = []

program : Unit {0}
unfolding normalize_match_token normalize_bib_lookup extract_match_candidates
    rebuild_match_candidates longest_common_substring_length is_partial_bib_match score_bib_evidence
    has_exact_bib_match exact_bib_match_values keep take
program = tt

candidates_of_text :
    extract_match_candidates ascii (codes "bib a-12")
    ≡ codes "BIBA12" ∷ codes "BIB" ∷ codes "A" ∷ codes "12" ∷ []
unfolding program
candidates_of_text = refl

digits_lost : rebuild_match_candidates ascii (codes "M123") ≡ codes "M123" ∷ []
unfolding program
digits_lost = refl

digits_kept : extract_match_candidates ascii (codes "M123") ≡ codes "M123" ∷ codes "123" ∷ []
unfolding program
digits_kept = refl

substring_length : longest_common_substring_length (codes "xABCy") (codes "zABCDw") ≡ 3
unfolding program
substring_length = refl

partial : is_partial_bib_match (codes "123") (codes "1234") ≡ true
unfolding program
partial = refl

strong_evidence :
    (score_bib_evidence ascii (codes "12" ∷ codes "no 1234" ∷ []) (codes "1234")).strength ≡ strong
unfolding program
strong_evidence = refl

weak_evidence : (score_bib_evidence ascii (codes "123" ∷ []) (codes "1234")).strength ≡ weak
unfolding program
weak_evidence = refl

longest_common_substring_length-IsLongest_example :
    Shares
      (codes "xABCy")
      (codes "zABCDw")
      (longest_common_substring_length (codes "xABCy") (codes "zABCDw"))
    × ((n : ℕ)
        → Shares (codes "xABCy") (codes "zABCDw") n
        → n ≤ longest_common_substring_length (codes "xABCy") (codes "zABCDw"))
longest_common_substring_length-IsLongest_example =
    longest_common_substring_length-IsLongest (codes "xABCy") (codes "zABCDw")

strong_iff_exact_example :
    (score_bib_evidence ascii (codes "no 1234" ∷ []) (codes "1234")).strength ≡ strong
    ↔ has_exact_bib_match ascii (codes "no 1234" ∷ []) (codes "1234") ≡ true
strong_iff_exact_example = strong_iff_exact ascii (codes "no 1234" ∷ []) (codes "1234")
