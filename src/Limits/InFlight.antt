-- ===== src/Limits/InFlight.antt =====
-- backend/app/web_security.py: `InFlightLimiter`, as BrowserSecurityMiddleware uses it. A method runs
-- under its lock, so it is one step.
use race_frame.Prelude.{
  ℕ, ◌+◌, ◌-◌, ◌≤◌, ◌≡◌, refl, ap, ◌∙◌, inl, inr, Bool, true, false, List, [], ◌∷◌, arith, leb,
  if◌then◌else◌, Bool-cases,
}
use race_frame.Matching.Token.{Text, text_eq, text_eq_refl}

abbrev pub Counts : Type 0
Counts = List (Text × ℕ)

-- `self._counts.get(category, 0)`
unfoldable pub get : Text → Counts → ℕ
get category [] = 0
get category ((c, n) ∷ counts) = if text_eq c category then n else get category counts

-- `self._counts[category] = n`
unfoldable pub set : Text → ℕ → Counts → Counts
set category n [] = (category, n) ∷ []
set category n ((c, m) ∷ counts) =
    if text_eq c category then (c, n) ∷ counts else (c, m) ∷ set category n counts

-- `self._counts.pop(category, None)`; a dict has a key once.
unfoldable pub pop : Text → Counts → Counts
pop category [] = []
pop category ((c, m) ∷ counts) =
    if text_eq c category then pop category counts else (c, m) ∷ pop category counts

unfoldable pub enter : Text → ℕ → Counts → Bool × Counts
unfolding get set
enter category limit counts =
    let current = get category counts in
    if leb limit current then (false, counts) else (true, set category (current + 1) counts)

unfoldable pub leave : Text → Counts → Counts
unfolding get set pop
leave category counts =
    let current = get category counts in
    if leb current 1 then pop category counts else set category (current - 1) counts

get-set : (category : Text) (n : ℕ) (counts : Counts) → get category (set category n counts) ≡ n
unfolding get set
get-set category n [] = rw (text_eq_refl category) refl
get-set category n ((c, m) ∷ counts) = elim (Bool-cases (text_eq c category)) [
  | inl e ↦ rw e rw e refl
  | inr e ↦ rw e rw e (get-set category n counts)
]

get-pop : (category : Text) (counts : Counts) → get category (pop category counts) ≡ 0
unfolding get pop
get-pop category [] = refl
get-pop category ((c, m) ∷ counts) = elim (Bool-cases (text_eq c category)) [
  | inl e ↦ rw e (get-pop category counts)
  | inr e ↦ rw e rw e (get-pop category counts)
]

enter-admitted :
    (category : Text) (limit : ℕ) (counts : Counts)
    → (enter category limit counts).0 ≡ true
    → (get category ((enter category limit counts).1) ≡ get category counts + 1)
      × (get category counts + 1 ≤ limit)
unfolding enter
enter-admitted category limit counts h = elim (Bool-cases (leb limit (get category counts))) [
  | inl e ↦ cc
  | inr e ↦ (rw e (get-set category (get category counts + 1) counts), ground arith)
]

enter-refused :
    (category : Text) (limit : ℕ) (counts : Counts)
    → (enter category limit counts).0 ≡ false
    → (enter category limit counts).1 ≡ counts
unfolding enter
enter-refused category limit counts h = elim (Bool-cases (leb limit (get category counts))) [
  | inl e ↦ rw e refl
  | inr e ↦ cc
]

get-leave :
    (category : Text) (counts : Counts)
    → get category (leave category counts) ≡ get category counts - 1
unfolding leave
get-leave category counts = elim (Bool-cases (leb (get category counts) 1)) [
  | inl e ↦ rw e (get-pop category counts ∙ ground arith)
  | inr e ↦ rw e (get-set category (get category counts - 1) counts)
]

-- The requests of one category: `Serving limit counts active` are the counts while `active` of them are
-- between an `enter` that admitted them and their `leave`. A refused one is answered at once.
module _ (category : Text) (limit : ℕ) where
  pub data Serving : Counts → ℕ → Type 0 where
    idle : Serving [] 0
    admitted :
        {counts : Counts} {active : ℕ}
        → Serving counts active
        → (enter category limit counts).0 ≡ true
        → Serving ((enter category limit counts).1) (active + 1)
    refused :
        {counts : Counts} {active : ℕ}
        → Serving counts active
        → (enter category limit counts).0 ≡ false
        → Serving ((enter category limit counts).1) active
    left :
        {counts : Counts} {active : ℕ}
        → Serving counts (active + 1)
        → Serving (leave category counts) active

  -- However requests come and go, the count is the number of those that are served, and at most the limit.
  pub Serving-Counted :
      {counts : Counts} {active : ℕ}
      → Serving counts active
      → (get category counts ≡ active) × (active ≤ limit)
  unfolding get
  Serving-Counted idle = (refl, omega arith)
  Serving-Counted (admitted {counts} served entered) =
      let (counted, _) = Serving-Counted served in
      let (now, below) = enter-admitted category limit counts entered in
      omega (arith, counted, now, below)
  Serving-Counted (refused {counts} {active} served not_entered) =
      let (counted, below) = Serving-Counted served in
      (ap (get category) (enter-refused category limit counts not_entered) ∙ counted, below)
  Serving-Counted (left {counts} served) =
      let (counted, below) = Serving-Counted served in
      let now = get-leave category counts in omega (arith, counted, now, below)
