-- ===== src/Archive/Unique.antt =====
-- backend/app/photo_archive.py: `unique_download_names` ends, with names that differ.
use race_frame.Prelude.{
  ℕ, zero, suc, ◌+◌, ◌<◌, ◌≡◌, refl, sym, ap, ◌∙◌, subst, inl, inr, true, false, List, [], ◌∷◌,
  ◌++◌, none, some, some-injective, length, length-append, map, take, All, All-mono, All-map, arith,
  Bool-cases, Option-cases, append_assoc, codes,
}
use race_frame.Matching.Token.{Text, text_eq, text_eq_sound, is_member, is_digit}
use race_frame.Matching.Canonical.{Distinct, text_eq_sym}
use race_frame.Archive.Decimal.{str, str-injective, str-All}
use race_frame.Archive.Extract.{take-append}
use race_frame.Archive.Pigeonhole.{pigeonhole}
use race_frame.Archive.Names.{
  around, rpartition, numbered, casefold, fold_char, first_unused, pick_name, names_from,
  unique_download_names, safe_download_name,
}

cancel-left : (s : Text) {x y : Text} → s ++ x ≡ s ++ y → x ≡ y
cancel-left [] h = h
cancel-left (c ∷ s) h = cancel-left s (ground arith)

cancel-right : (x y t : Text) → x ++ t ≡ y ++ t → x ≡ y
cancel-right x y t h =
    let same : length x ≡ length y =
      omega (arith, ap length h, length-append x t, length-append y t) in
    sym (take-append (length x) x t refl)
    ∙ (ap (take (length x)) h ∙ take-append (length x) y t (sym same))

module _ (wide : ℕ → Text) where
  casefold-append : (s t : Text) → casefold wide (s ++ t) ≡ casefold wide s ++ casefold wide t
  unfolding casefold
  casefold-append [] t = refl
  casefold-append (c ∷ s) t =
      ap (λ rest. fold_char wide c ++ rest) (casefold-append s t)
      ∙ sym (append_assoc (fold_char wide c) (casefold wide s) (casefold wide t))

  fold_char-digit : (c : ℕ) → is_digit c ≡ true → fold_char wide c ≡ c ∷ []
  fold_char-digit c digit = ground arith

  casefold-digits : (s : Text) → All (λ c. is_digit c ≡ true) s → casefold wide s ≡ s
  unfolding casefold
  casefold-digits [] h = refl
  casefold-digits (c ∷ s) (digit, h) =
      ap (λ folded. folded ++ casefold wide s) (fold_char-digit c digit)
      ∙ ap (λ rest. c ∷ rest) (casefold-digits s h)

  casefold-numbered :
      (name : Text) (i j : ℕ)
      → casefold wide (numbered name i) ≡ casefold wide (numbered name j)
      → i ≡ j
  unfolding numbered
  casefold-numbered name i j h =
      let (before, after) = around name (rpartition name) in
      let parts = λ (k : ℕ).
        casefold-append before (str k ++ after)
        ∙ ap (λ rest. casefold wide before ++ rest)
            (casefold-append (str k) after
              ∙ ap (λ d. d ++ casefold wide after) (casefold-digits (str k) (str-All k))) in
      str-injective i j (
        cancel-right (str i) (str j) (casefold wide after)
          (cancel-left (casefold wide before) (sym (parts i) ∙ (h ∙ parts j))))

  -- The candidates that the loop looks at, folded.
  tried : Text → ℕ → ℕ → List Text
  tried name zero suffix = []
  tried name (suc fuel) suffix = casefold wide (numbered name suffix) ∷ tried name fuel (suffix + 1)

  length-tried : (name : Text) (fuel suffix : ℕ) → length (tried name fuel suffix) ≡ fuel
  unfolding tried
  length-tried name zero suffix = refl
  length-tried name (suc fuel) suffix = ap suc (length-tried name fuel (suffix + 1))

  tried_apart :
      (name : Text) (i fuel suffix : ℕ)
      → i < suffix
      → All (λ t. text_eq (casefold wide (numbered name i)) t ≡ false) (tried name fuel suffix)
  unfolding tried
  tried_apart name i zero suffix h = tt
  tried_apart name i (suc fuel) suffix h = (
    elim (Bool-cases
        (text_eq (casefold wide (numbered name i)) (casefold wide (numbered name suffix)))) [
          | inr e ↦ e
          | inl e ↦
              let same : i ≡ suffix = casefold-numbered name i suffix (
                text_eq_sound (casefold wide (numbered name i))
                  (casefold wide (numbered name suffix)) e) in
              ground (arith, same, h)
        ],
    tried_apart name i fuel (suffix + 1) (omega (arith, h)),
  )

  tried-Distinct : (name : Text) (fuel suffix : ℕ) → Distinct (tried name fuel suffix)
  unfolding tried Distinct
  tried-Distinct name zero suffix = tt
  tried-Distinct name (suc fuel) suffix = (
    tried_apart name suffix fuel (suffix + 1) (omega arith),
    tried-Distinct name fuel (suffix + 1),
  )

  -- A loop that runs out of fuel has found each of its candidates in use.
  first_unused-none :
      (used : List Text) (name : Text) (fuel suffix : ℕ)
      → first_unused wide used name fuel suffix ≡ none
      → All (λ t. is_member t used ≡ true) (tried name fuel suffix)
  unfolding first_unused tried
  first_unused-none used name zero suffix h = tt
  first_unused-none used name (suc fuel) suffix h =
      elim (Bool-cases (is_member (casefold wide (numbered name suffix)) used)) [
        | inl e ↦ (e, first_unused-none used name fuel (suffix + 1) (rw e at h))
        | inr e ↦ let absurd = rw e at h in cc
      ]

  first_unused-some :
      (used : List Text) (name : Text) (fuel suffix : ℕ) {candidate : Text}
      → first_unused wide used name fuel suffix ≡ some candidate
      → is_member (casefold wide candidate) used ≡ false
  unfolding first_unused
  first_unused-some used name zero suffix h = cc
  first_unused-some used name (suc fuel) suffix h =
      elim (Bool-cases (is_member (casefold wide (numbered name suffix)) used)) [
        | inl e ↦ first_unused-some used name fuel (suffix + 1) (rw e at h)
        | inr e ↦
            subst (λ c. is_member (casefold wide c) used ≡ false) (some-injective _ _ (rw e at h)) e
      ]

  -- As many candidates as there are names in use, and one, are enough.
  pick_name-some :
      (used : List Text) (name : Text)
      → (candidate : Text) × (pick_name wide used name ≡ some candidate)
        × (is_member (casefold wide candidate) used ≡ false)
  unfolding pick_name
  pick_name-some used name = elim (Bool-cases (is_member (casefold wide name) used)) [
    | inr e ↦ (name, rw e refl, e)
    | inl e ↦ elim (Option-cases (first_unused wide used name (length used + 1) 2)) [
      | inr (candidate, is) ↦
          (candidate, rw e is, first_unused-some used name (length used + 1) 2 is)
      | inl ran_out ↦
          let fits =
            pigeonhole (tried name (length used + 1) 2) used
              (tried-Distinct name (length used + 1) 2)
              (first_unused-none used name (length used + 1) 2 ran_out) in
          ground (arith, fits, length-tried name (length used + 1) 2)
    ]
  ]

  -- The names that are given behind the used ones.
  Given : ℕ → List Text → List Text → Type 0
  Given index used file_names =
      (names : List Text) × (names_from wide index used file_names ≡ some names)
      × (length names ≡ length file_names)
      × All (λ n. is_member (casefold wide n) used ≡ false) names
      × Distinct (map (casefold wide) names)

  names_from-Given : (index : ℕ) (used file_names : List Text) → Given index used file_names
  unfolding Given names_from Distinct
  names_from-Given index used [] = ([], refl, refl, tt, tt)
  names_from-Given index used (raw_name ∷ file_names) =
      let name = safe_download_name raw_name (codes "photo-" ++ (str index ++ codes ".jpg")) in
      let (candidate, picked, new) = pick_name-some used name in
      let (names, given, long, fresh, distinct) =
        names_from-Given (index + 1) (casefold wide candidate ∷ used) file_names in
      (
        candidate ∷ names,
        rw picked rw given refl,
        ap suc long,
        (new, All-mono names (λ n h. ground arith) fresh),
        (
          All-map (λ t. text_eq (casefold wide candidate) t ≡ false) (casefold wide) names
              (All-mono names
                (λ n h. text_eq_sym (casefold wide candidate) (casefold wide n) ∙ ground arith)
                fresh),
          distinct,
        ),
      )

  -- The names of a download are found, one for each file, and no two are the same when their case is folded.
  pub unique_download_names-Distinct :
      (file_names : List Text)
      → (names : List Text) × (unique_download_names wide file_names ≡ some names)
        × (length names ≡ length file_names)
        × Distinct (map (casefold wide) names)
  unfolding Given unique_download_names
  unique_download_names-Distinct file_names =
      let (names, given, long, _, distinct) = names_from-Given 1 [] file_names in
      (names, given, long, distinct)
