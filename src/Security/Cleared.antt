-- ===== src/Security/Cleared.antt =====
-- backend/app/web_security.py: what each check of the settings leaves true when it finds no problem.
use race_frame.Prelude.{
  ℕ, ◌≤◌, ◌≡◌, refl, Bool, true, false, not, ◌||◌, List, [], ◌∷◌, Option, none, some, ltb, length,
  is_empty, any, All, arith,
}
use race_frame.Matching.Token.{Text}
use race_frame.Archive.Bytes.{Bytes, encode_utf8}
use race_frame.Security.Settings.{ℤ, pos, negsuc, is_positive}
use race_frame.Security.Configuration.{
  Problem, Check, problem_if, both, gather, short_bytes, is_open_host, missing_names, r2_problem,
  positive_checks, within,
}

abbrev pub IsClear : Check → Type 0
IsClear check = check ≡ some []

pub both-IsClear : (p q : Check) → both p q ≡ some [] → IsClear p × IsClear q
both-IsClear none q h = cc
both-IsClear (some ps) none h = cc
both-IsClear (some []) (some qs) h = (refl, h)
both-IsClear (some (x ∷ ps)) (some qs) h = cc

pub gather-IsClear : (checks : List Check) → gather checks ≡ some [] → All IsClear checks
unfolding gather
gather-IsClear [] h = tt
gather-IsClear (check ∷ checks) h =
    let (first, rest) = both-IsClear check (gather checks) h in (first, gather-IsClear checks rest)

pub problem_if-cleared : (b : Bool) (problem : Problem) → IsClear (problem_if b problem) → b ≡ false
problem_if-cleared true problem h = cc
problem_if-cleared false problem h = refl

-- A key of 32 bytes at least in UTF-8.
abbrev pub HasKeyLength : Text → Type 0
HasKeyLength value = (bytes : Bytes) × (encode_utf8 value ≡ some bytes) × (32 ≤ length bytes)

pub short_bytes-cleared :
    (encoded : Option Bytes) (problem : Problem)
    → IsClear (short_bytes encoded problem)
    → (bytes : Bytes) × (encoded ≡ some bytes) × (32 ≤ length bytes)
short_bytes-cleared none problem h = cc
short_bytes-cleared (some bytes) problem h =
    let long = problem_if-cleared (ltb (length bytes) 32) problem h in (bytes, refl, ground arith)

pub missing_names-cleared :
    (values : List (Text × Text)) → missing_names values ≡ [] → All (λ v. 1 ≤ length v.1) values
unfolding missing_names
missing_names-cleared [] h = tt
missing_names-cleared ((name, []) ∷ values) h = cc
missing_names-cleared ((name, c ∷ value) ∷ values) h = (omega arith, missing_names-cleared values h)

pub r2_problem-cleared : (names : List Text) → IsClear (r2_problem names) → names ≡ []
r2_problem-cleared [] h = refl
r2_problem-cleared (name ∷ names) h = cc

-- `value` is an integer from `low` on.
abbrev pub AtLeast : ℕ → ℤ → Type 0
AtLeast low value = (n : ℕ) × (value ≡ pos n) × (low ≤ n)

abbrev pub Between : ℕ → ℤ → ℕ → Type 0
Between low value high = (n : ℕ) × (value ≡ pos n) × (low ≤ n) × (n ≤ high)

pub positive_checks-cleared :
    (limits : List (Text × ℤ))
    → All IsClear (positive_checks limits)
    → All (λ l. AtLeast 1 l.1) limits
unfolding positive_checks
positive_checks-cleared [] h = tt
positive_checks-cleared ((name, pos n) ∷ limits) (first, h) =
    let positive =
      problem_if-cleared (not (is_positive (pos n))) (Problem.not_positive name) first in
    ((n, refl, ground arith), positive_checks-cleared limits h)
positive_checks-cleared ((name, negsuc n) ∷ limits) (first, h) = cc

pub within-Between :
    (low : ℕ) (value : ℤ) (high : ℕ) (problem : Problem)
    → IsClear (problem_if (not (within (pos low) value (pos high))) problem)
    → Between low value high
within-Between low (pos n) high problem h =
    let inside = problem_if-cleared (not (within (pos low) (pos n) (pos high))) problem h in
    (n, refl, ground arith, ground arith)
within-Between low (negsuc n) high problem h = cc

pub no_open_host :
    (hosts : List Text) → any is_open_host hosts ≡ false → All (λ h. is_open_host h ≡ false) hosts
no_open_host [] h = tt
no_open_host (host ∷ hosts) h =
    let first : is_open_host host ≡ false = ground arith in
    (first, no_open_host hosts (ground arith))

pub filled :
    {A : Type 0} (xs : List A) (rest : Bool) → (is_empty xs || rest) ≡ false → 1 ≤ length xs
filled [] rest h = cc
filled (x ∷ xs) rest h = omega arith

pub is_filled : {A : Type 0} (xs : List A) → 1 ≤ length xs → is_empty xs ≡ false
is_filled [] h = absurd (omega arith)
is_filled (x ∷ xs) h = refl

pub is_empty-nil : {A : Type 0} (xs : List A) → is_empty xs ≡ true → xs ≡ []
is_empty-nil [] h = refl
is_empty-nil (x ∷ xs) h = cc
