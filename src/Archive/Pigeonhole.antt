-- ===== src/Archive/Pigeonhole.antt =====
-- Different texts that are all members of a list are no more than the list is long.
use race_frame.Prelude.{
  suc, ◌≤◌, ◌≡◌, refl, sym, ap, ◌∙◌, inl, inr, true, false, List, [], ◌∷◌, if◌then◌else◌, length,
  All, arith, Bool-cases,
}
use race_frame.Matching.Token.{Text, text_eq, text_eq_sound, text_eq_refl, is_member}
use race_frame.Matching.Canonical.{Distinct}

-- The list without its first member that equals the text.
remove : Text → List Text → List Text
remove s [] = []
remove s (t ∷ ts) = if text_eq s t then ts else t ∷ remove s ts

length-remove :
    (s : Text) (ts : List Text) → is_member s ts ≡ true → suc (length (remove s ts)) ≡ length ts
unfolding remove
length-remove s [] h = cc
length-remove s (t ∷ ts) h = elim (Bool-cases (text_eq s t)) [
  | inl e ↦ rw e refl
  | inr e ↦ rw e (ap suc (length-remove s ts (rw e at h)))
]

is_member-remove :
    (s u : Text) (ts : List Text)
    → text_eq s u ≡ false
    → is_member u ts ≡ true
    → is_member u (remove s ts) ≡ true
unfolding remove
is_member-remove s u [] apart h = cc
is_member-remove s u (t ∷ ts) apart h = elim (Bool-cases (text_eq s t)) [
  | inl e ↦
      let same : s ≡ t = text_eq_sound s t e in
      elim (Bool-cases (text_eq u t)) [
        | inl also ↦
            let equal : u ≡ t = text_eq_sound u t also in
            let both : text_eq s u ≡ true = ap (text_eq s) (equal ∙ sym same) ∙ text_eq_refl s in cc
        | inr other ↦ rw e (rw other at h)
      ]
  | inr e ↦ rw e elim (Bool-cases (text_eq u t)) [
    | inl also ↦ rw also refl
    | inr other ↦ rw other (is_member-remove s u ts apart (rw other at h))
  ]
]

pub pigeonhole :
    (ss ts : List Text) → Distinct ss → All (λ s. is_member s ts ≡ true) ss → length ss ≤ length ts
unfolding Distinct
pigeonhole [] ts distinct members = omega arith
pigeonhole (s ∷ ss) ts (apart, distinct) (first, members) =
    let rest = pigeonhole ss (remove s ts) distinct (inside ss apart members) in
    omega (arith, rest, length-remove s ts first)
  where
    inside :
        (us : List Text)
        → All (λ u. text_eq s u ≡ false) us
        → All (λ u. is_member u ts ≡ true) us
        → All (λ u. is_member u (remove s ts) ≡ true) us
    inside [] _ _ = tt
    inside (u ∷ us) (a, aparts) (m, ms) = (is_member-remove s u ts a m, inside us aparts ms)
