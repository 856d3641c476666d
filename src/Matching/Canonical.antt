-- ===== src/Matching/Canonical.antt =====
-- backend/app/face.py: what the candidates of a text look like.
use race_frame.Prelude.{
  ℕ, ◌≡◌, refl, ap, ◌∙◌, inl, inr, true, false, List, [], ◌∷◌, ◌++◌, ◌||◌, arith, Bool-cases,
  is_empty, keep, All, All-mono,
}
use race_frame.Matching.Token.{
  Text, text_eq, is_member, is_alphanumeric, is_digit, is_token, to_upper, upper,
  normalize_match_token,
}
use race_frame.Matching.Candidates.{collect, find_runs, insert_first, extract_match_candidates}

to_upper-to_upper : (c : ℕ) → to_upper (to_upper c) ≡ to_upper c
to_upper-to_upper c = ground arith

is_alphanumeric-to_upper : (c : ℕ) → is_alphanumeric c ≡ true → is_alphanumeric (to_upper c) ≡ true
is_alphanumeric-to_upper c h = ground arith

pub text_eq_sym : (s t : Text) → text_eq s t ≡ text_eq t s
text_eq_sym [] [] = refl
text_eq_sym [] (_ ∷ _) = refl
text_eq_sym (_ ∷ _) [] = refl
text_eq_sym (a ∷ s) (b ∷ t) = ground (arith, text_eq_sym s t)

pub normalize_match_token_idem :
    (value : Text)
    → normalize_match_token (normalize_match_token value) ≡ normalize_match_token value
unfolding normalize_match_token keep
normalize_match_token_idem [] = refl
normalize_match_token_idem (c ∷ value) = elim (Bool-cases (is_alphanumeric c)) [
  | inl e ↦ rw e rw (is_alphanumeric-to_upper c e) (
      ap (λ d. d ∷ normalize_match_token (normalize_match_token value)) (to_upper-to_upper c)
      ∙ ap (λ rest. to_upper c ∷ rest) (normalize_match_token_idem value))
  | inr e ↦ rw e (normalize_match_token_idem value)
]

-- No two of the texts are the same.
unfoldable pub Distinct : List Text → Type 0
Distinct [] = Unit
Distinct (s ∷ texts) = All (λ t. text_eq s t ≡ false) texts × Distinct texts

-- A text that is not empty, and that normalising leaves alone.
abbrev pub IsCanonical : Text → Type 0
IsCanonical s = (is_empty s ≡ false) × (normalize_match_token s ≡ s)

module _ (normalize : Text → Text) (idem : (s : Text) → normalize (normalize s) ≡ normalize s) where
  abbrev IsNew : List Text → Text → Type 0
  IsNew seen s = (is_empty s ≡ false) × ((is_member s seen ≡ false) × (normalize s ≡ s))

  collect-IsNew : (seen tokens : List Text) → All (IsNew seen) (collect normalize seen tokens)
  unfolding collect
  collect-IsNew seen [] = tt
  collect-IsNew seen (token ∷ tokens) =
      elim (Bool-cases (is_empty (normalize token) || is_member (normalize token) seen)) [
        | inl e ↦ rw e (collect-IsNew seen tokens)
        | inr e ↦ rw e (
          (ground arith, (ground arith, idem token)),
          All-mono (collect normalize (normalize token ∷ seen) tokens)
              (λ s (filled, (new, same)). (filled, (ground arith, same)))
              (collect-IsNew (normalize token ∷ seen) tokens),
        )
      ]

  collect-Distinct : (seen tokens : List Text) → Distinct (collect normalize seen tokens)
  unfolding collect Distinct
  collect-Distinct seen [] = tt
  collect-Distinct seen (token ∷ tokens) =
      elim (Bool-cases (is_empty (normalize token) || is_member (normalize token) seen)) [
        | inl e ↦ rw e (collect-Distinct seen tokens)
        | inr e ↦ rw e (
          All-mono (collect normalize (normalize token ∷ seen) tokens)
              (λ s (filled, (new, same)). text_eq_sym (normalize token) s ∙ ground arith)
              (collect-IsNew (normalize token ∷ seen) tokens),
          collect-Distinct (normalize token ∷ seen) tokens,
        )
      ]

-- The candidates of a text are canonical, and no two are the same.
pub extract_match_candidates-Distinct :
    (wide : ℕ → Text) (value : Text)
    → All IsCanonical (extract_match_candidates wide value)
      × Distinct (extract_match_candidates wide value)
unfolding extract_match_candidates
extract_match_candidates-Distinct wide value =
    let tokens =
      insert_first (normalize_match_token value) (find_runs is_token (upper wide value)) in
    let all_tokens = tokens ++ find_runs is_digit (upper wide value) in
    (
      All-mono (extract_match_candidates wide value) (λ s (filled, (new, same)). (filled, same))
          (collect-IsNew normalize_match_token normalize_match_token_idem [] all_tokens),
      collect-Distinct normalize_match_token normalize_match_token_idem [] all_tokens,
    )
