-- ===== src/Archive/Decimal.antt =====
-- Python's `str` of a number, and that different numbers have different digits.
use race_frame.Prelude.{
  ℕ, zero, suc, ◌+◌, ◌-◌, ◌*◌, ◌/◌, ◌%◌, ◌≤◌, ◌<◌, ◌≡◌, refl, sym, ap, ◌∙◌, inl, inr, true, [], ◌∷◌,
  ◌++◌, ltb, if◌then◌else◌, All, All-append, arith, Bool-cases,
}
use race_frame.Matching.Token.{Text, is_digit}

-- The last digit is at most the fuel's depth away: a number is below the fuel.
unfoldable pub digits : ℕ → ℕ → Text
digits zero n = []
digits (suc fuel) n =
    let more = digits fuel (n / 10) in
    if ltb n 10 then (48 + n) ∷ [] else more ++ ((48 + n % 10) ∷ [])

unfoldable pub str : ℕ → Text
unfolding digits
str n = digits (n + 1) n

-- The number that digits stand for.
read_from : ℕ → Text → ℕ
read_from acc [] = acc
read_from acc (c ∷ s) = read_from (10 * acc + (c - 48)) s

read_from-append : (acc : ℕ) (s t : Text) → read_from acc (s ++ t) ≡ read_from (read_from acc s) t
unfolding read_from
read_from-append acc [] t = refl
read_from-append acc (c ∷ s) t = read_from-append (10 * acc + (c - 48)) s t

read_from-digits : (fuel n : ℕ) → n < fuel → read_from 0 (digits fuel n) ≡ n
unfolding digits read_from
read_from-digits zero n h = ground arith
read_from-digits (suc fuel) n h = elim (Bool-cases (ltb n 10)) [
  | inl e ↦ rw e (omega arith)
  | inr e ↦
      let large : 10 ≤ n = ground arith in
      let rest = read_from-digits fuel (n / 10) (omega (arith, h, large)) in
      rw e (read_from-append 0 (digits fuel (n / 10)) ((48 + n % 10) ∷ []) ∙ omega (arith, rest))
]

pub str-injective : (m n : ℕ) → str m ≡ str n → m ≡ n
unfolding str
str-injective m n h =
    sym (read_from-digits (m + 1) m (omega arith))
    ∙ (ap (read_from 0) h ∙ read_from-digits (n + 1) n (omega arith))

digits-All : (fuel n : ℕ) → All (λ c. is_digit c ≡ true) (digits fuel n)
unfolding digits
digits-All zero n = tt
digits-All (suc fuel) n = elim (Bool-cases (ltb n 10)) [
  | inl e ↦ rw e (ground arith, tt)
  | inr e ↦ rw e (
      All-append (λ c. is_digit c ≡ true) (digits fuel (n / 10)) ((48 + n % 10) ∷ [])
        (digits-All fuel (n / 10)) (ground arith, tt))
]

pub str-All : (n : ℕ) → All (λ c. is_digit c ≡ true) (str n)
unfolding str
str-All n = digits-All (n + 1) n
