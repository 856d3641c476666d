-- ===== src/Matching/Strong.antt =====
-- backend/app/face.py: the two searches for the bib itself, `score_bib_evidence` and
-- `exact_bib_match_values`, agree.
use race_frame.Prelude.{
  ℕ, ◌≡◌, ◌↔◌, refl, sym, ap, ◌∙◌, Bool, true, false, not, List, [], ◌∷◌, ◌++◌, arith,
  if◌then◌else◌, ◌&&◌, ◌||◌, any, is_empty, take, Bool-cases, inl, inr,
}
use race_frame.Matching.Token.{Text, text_eq, is_member, normalize_match_token}
use race_frame.Matching.Candidates.{extract_match_candidates}
use race_frame.Matching.Evidence.{
  strong, Scan, hit, going, scan_candidates, scan_detections, conclude, no_evidence,
  score_bib_evidence, note_partial, match_candidates, match_detections, exact_bib_match_values,
  has_exact_bib_match,
}

abbrev is_hit : Scan → Bool
is_hit (hit text) = true
is_hit (going texts) = false

-- Some candidate of the text is the target.
abbrev pub meets : (ℕ → Text) → Text → Text → Bool
meets wide target text =
    any (λ candidate. text_eq candidate target) (extract_match_candidates wide text)

hit-scan_candidates :
    (target text : Text) (found candidates : List Text)
    → is_empty target ≡ false
    → is_hit (scan_candidates target text found candidates)
      ≡ any (λ candidate. text_eq candidate target) candidates
unfolding scan_candidates
hit-scan_candidates target text found [] h = refl
hit-scan_candidates (a ∷ target) text found ([] ∷ candidates) h =
    hit-scan_candidates (a ∷ target) text found candidates h
hit-scan_candidates (a ∷ target) text found ((c ∷ candidate) ∷ candidates) h = ground (
  arith,
  hit-scan_candidates (a ∷ target) text (note_partial (a ∷ target) text (c ∷ candidate) found)
      candidates refl,
)
hit-scan_candidates [] text found _ h = cc

-- A scan that has met the target ends; another goes on.
scan_on :
    (scan : Scan) (here later : Bool) (next : List Text → Scan)
    → is_hit scan ≡ here
    → ((found : List Text) → is_hit (next found) ≡ later)
    → is_hit (elim scan [ hit text ↦ hit text | going found ↦ next found ]) ≡ here || later
scan_on (hit text) here later next h _ = ap (λ b. b || later) h
scan_on (going found) here later next h k = k found ∙ ap (λ b. b || later) h

hit-scan_detections :
    (wide : ℕ → Text) (target : Text) (found texts : List Text)
    → is_empty target ≡ false
    → is_hit (scan_detections wide target found texts) ≡ any (meets wide target) texts
unfolding scan_detections
hit-scan_detections wide target found [] h = refl
hit-scan_detections wide target found (text ∷ texts) h =
    scan_on (scan_candidates target text found (extract_match_candidates wide text))
      (meets wide target text) (any (meets wide target) texts)
      (λ more_matches. scan_detections wide target more_matches texts)
      (hit-scan_candidates target text found (extract_match_candidates wide text) h)
      (λ more_matches. hit-scan_detections wide target more_matches texts h)

none-append : (texts : List Text) (text : Text) → is_empty (texts ++ (text ∷ [])) ≡ false
none-append [] text = refl
none-append (_ ∷ _) text = refl

none-member :
    (text : Text) (texts : List Text) → is_member text texts ≡ true → is_empty texts ≡ false
none-member text [] h = cc
none-member text (_ ∷ _) h = refl

none-match_candidates :
    (wide : ℕ → Text) (target text : Text) (matched candidates : List Text)
    → is_empty (match_candidates wide target text matched candidates)
      ≡ (is_empty matched && not (any (λ candidate. text_eq candidate target) candidates))
unfolding match_candidates
none-match_candidates wide target text matched [] = ground arith
none-match_candidates wide target text matched (candidate ∷ candidates) = ground (
  arith,
  none-append matched text,
  none-member text matched,
  none-match_candidates wide target text
      (if not (text_eq candidate target) || is_member text matched
        then matched
        else matched ++ (text ∷ []))
      candidates,
)

none-match_detections :
    (wide : ℕ → Text) (target : Text) (matched texts : List Text)
    → is_empty (match_detections wide target matched texts)
      ≡ (is_empty matched && not (any (meets wide target) texts))
unfolding match_detections
none-match_detections wide target matched [] = ground arith
none-match_detections wide target matched (text ∷ texts) = ground (
  arith,
  none-match_candidates wide target text matched (extract_match_candidates wide text),
  none-match_detections wide target
      (match_candidates wide target text matched (extract_match_candidates wide text)) texts,
)

none-take_three : (xs : List Text) → is_empty (take 3 xs) ≡ is_empty xs
unfolding take
none-take_three [] = refl
none-take_three (x ∷ xs) = refl

-- A scan is concluded as strong just where it has met the target.
strong-conclude : (scan : Scan) → (conclude scan).strength ≡ strong ↔ is_hit scan ≡ true
unfolding conclude
strong-conclude (hit text) = ((λ _. refl), (λ _. refl))
strong-conclude (going []) = ((λ h. cc), (λ h. cc))
strong-conclude (going (_ ∷ _)) = ((λ h. cc), (λ h. cc))

-- The two results at once, on a target that is empty or not.
both_on :
    (empty : Bool) (scan : Scan) (exact : List Text)
    → (empty ≡ false → is_empty (take 3 exact) ≡ not (is_hit scan))
    → (if empty then no_evidence else conclude scan).strength ≡ strong
      ↔ not (is_empty (if empty then [] else take 3 exact)) ≡ true
both_on true scan exact agree = ((λ h. cc), (λ h. cc))
both_on false scan exact agree =
    let same = agree refl in
    let (met, concluded) = strong-conclude scan in
    ((λ h. ap not same ∙ ground (arith, met h)), (λ h. concluded (ground (arith, same, h))))

-- The evidence is strong just where the bib is among the exact matches.
pub strong_iff_exact :
    (wide : ℕ → Text) (detections : List Text) (bib_number : Text)
    → (score_bib_evidence wide detections bib_number).strength ≡ strong
      ↔ has_exact_bib_match wide detections bib_number ≡ true
unfolding score_bib_evidence has_exact_bib_match exact_bib_match_values
strong_iff_exact wide detections bib_number =
    let target = normalize_match_token bib_number in
    both_on (is_empty target) (scan_detections wide target [] detections)
      (match_detections wide target [] detections)
      (λ filled.
        none-take_three (match_detections wide target [] detections)
        ∙ (none-match_detections wide target [] detections
            ∙ ap not (sym (hit-scan_detections wide target [] detections filled))))

-- A bib among the exact matches is not empty, and some text has it as a candidate.
pub exact-meets :
    (wide : ℕ → Text) (detections : List Text) (bib_number : Text)
    → has_exact_bib_match wide detections bib_number ≡ true
    → (is_empty (normalize_match_token bib_number) ≡ false)
      × (any (meets wide (normalize_match_token bib_number)) detections ≡ true)
unfolding has_exact_bib_match exact_bib_match_values
exact-meets wide detections bib_number h =
    let target = normalize_match_token bib_number in
    elim (Bool-cases (is_empty target)) [
      | inl e ↦ let absurd = rw e at h in cc
      | inr e ↦
          let found = rw e at h in
          (
            e,
            ground (
              arith,
              found,
              none-take_three (match_detections wide target [] detections),
              none-match_detections wide target [] detections,
            ),
          )
    ]
