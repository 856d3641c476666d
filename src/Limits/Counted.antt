-- ===== src/Limits/Counted.antt =====
-- backend/app/rate_limits.py: how much a window admits, and when it ends.
use native.Mathlib.Nat.{mod-lt, div-add-mod}
use race_frame.Prelude.{
  ℕ, ◌+◌, ◌-◌, ◌*◌, ◌/◌, ◌%◌, ◌≤◌, ◌<◌, ◌≡◌, refl, inl, inr, Bool, true, false, ◌&&◌, ◌||◌, List,
  [], ◌∷◌, none, some, leb, ◌==◌, if◌then◌else◌, take, All, arith, Bool-cases,
}
use race_frame.Matching.Token.{Text, text_eq, text_eq_sound}
use race_frame.Limits.FixedWindow.{
  second, Bucket, Hit, HitResult, not_positive, result, window_of, is_row, upsert, count_of,
  inserted, retry_after, judge, hit_persistent_limit,
}

same-is_row :
    (new row : Bucket) (bucket key_hash : Text) (window_start : ℕ)
    → is_row new.bucket new.key_hash new.window_start row ≡ true
    → is_row bucket key_hash window_start row ≡ is_row bucket key_hash window_start new
same-is_row new row bucket key_hash window_start h =
    let same_bucket : row.bucket ≡ new.bucket =
      text_eq_sound row.bucket new.bucket (ground arith) in
    let same_key : row.key_hash ≡ new.key_hash =
      text_eq_sound row.key_hash new.key_hash (ground arith) in
    let same_start : row.window_start ≡ new.window_start = ground arith in cc

-- Of two rows with different keys only one is the row that is looked for.
is_row_apart :
    (new row : Bucket) (bucket key_hash : Text) (window_start : ℕ)
    → is_row new.bucket new.key_hash new.window_start row ≡ false
    → is_row bucket key_hash window_start row ≡ true
    → is_row bucket key_hash window_start new ≡ false
is_row_apart new row bucket key_hash window_start apart is =
    elim (Bool-cases (is_row bucket key_hash window_start new)) [
      | inr isnt ↦ isnt
      | inl also ↦
          let row_bucket : row.bucket ≡ bucket = text_eq_sound row.bucket bucket (ground arith) in
          let row_key : row.key_hash ≡ key_hash =
            text_eq_sound row.key_hash key_hash (ground arith) in
          let row_start : row.window_start ≡ window_start = ground arith in
          let new_bucket : new.bucket ≡ bucket = text_eq_sound new.bucket bucket (ground arith) in
          let new_key : new.key_hash ≡ key_hash =
            text_eq_sound new.key_hash key_hash (ground arith) in
          let new_start : new.window_start ≡ window_start = ground arith in
          let same : is_row new.bucket new.key_hash new.window_start row
              ≡ is_row bucket key_hash window_start row =
            cc in
          cc
    ]

merge :
    (r n : Bool) (c d rest : ℕ)
    → r ≡ n
    → (if r then c + d else rest)
      ≡ (if n then (if r then c else rest) + d else (if r then c else rest))
merge true true c d rest h = refl
merge false false c d rest h = refl
merge true false c d rest h = cc
merge false true c d rest h = cc

count_of-upsert :
    (bucket key_hash : Text) (window_start : ℕ) (new : Bucket) (rows : List Bucket)
    → count_of bucket key_hash window_start (upsert new rows) ≡ (
        if is_row bucket key_hash window_start new
        then count_of bucket key_hash window_start rows + new.count
        else count_of bucket key_hash window_start rows)
unfolding count_of upsert
count_of-upsert bucket key_hash window_start new [] = ground arith
count_of-upsert bucket key_hash window_start new (row ∷ rows) =
    elim (Bool-cases (is_row new.bucket new.key_hash new.window_start row)) [
      | inl e ↦ rw e (
          merge (is_row bucket key_hash window_start row) (is_row bucket key_hash window_start new)
            row.count new.count (count_of bucket key_hash window_start rows)
            (same-is_row new row bucket key_hash window_start e))
      | inr e ↦ rw e elim (Bool-cases (is_row bucket key_hash window_start row)) [
        | inl is ↦ rw is rw (is_row_apart new row bucket key_hash window_start e is) refl
        | inr isnt ↦ rw isnt (count_of-upsert bucket key_hash window_start new rows)
      ]
    ]

module _ (privacy_hash : Text → Text) (bucket key_hash : Text) (window_start : ℕ) where
  -- The hit counts in the row of the bucket, the key and the window.
  abbrev pub is_of : Hit → Bool
  is_of h =
      text_eq (take 64 h.hit_bucket) bucket
      && text_eq (privacy_hash h.key) key_hash
      && window_of h == window_start

  abbrev units_in : Hit → HitResult → ℕ
  units_in h (result none) = if is_of h then h.units else 0
  units_in h _ = 0

  -- What the window admits in a run of hits, on any buckets and keys and at any moments.
  unfoldable pub admitted_units : List Hit → List Bucket → ℕ
  unfolding hit_persistent_limit
  admitted_units [] rows = 0
  admitted_units (h ∷ hits) rows =
      units_in h (hit_persistent_limit privacy_hash h rows).0
      + admitted_units hits (hit_persistent_limit privacy_hash h rows).1

  own_row :
      (h : Hit) (rows : List Bucket)
      → is_of h ≡ true
      → count_of (take 64 h.hit_bucket) (privacy_hash h.key) (window_of h) rows
        ≡ count_of bucket key_hash window_start rows
  own_row h rows is =
      let same_bucket : take 64 h.hit_bucket ≡ bucket =
        text_eq_sound (take 64 h.hit_bucket) bucket (ground arith) in
      let same_key : privacy_hash h.key ≡ key_hash =
        text_eq_sound (privacy_hash h.key) key_hash (ground arith) in
      let same_start : window_of h ≡ window_start = ground arith in cc

  none-units_in : (h : Hit) (verdict : HitResult) → is_of h ≡ false → units_in h verdict ≡ 0
  none-units_in h not_positive other = refl
  none-units_in h (result none) other = rw other refl
  none-units_in h (result (some _)) other = refl

  judged :
      (most : ℕ) (h : Hit) (count before : ℕ)
      → is_of h ≡ true
      → h.limit ≤ most
      → count ≡ before + h.units
      → units_in h (result (judge privacy_hash h count)) + (most - count) ≤ most - before
  unfolding judge
  judged most h count before is bounded counted = elim (Bool-cases (leb count h.limit)) [
    | inl e ↦ rw e rw is (ground arith)
    | inr e ↦ rw e (omega (arith, counted))
  ]

  -- One hit leaves the window what it has not used.
  hit_persistent_limit-Leaves :
      (most : ℕ) (h : Hit) (rows : List Bucket)
      → (is_of h ≡ true → h.limit ≤ most)
      → units_in h (hit_persistent_limit privacy_hash h rows).0
          + (most
              - count_of bucket key_hash window_start (hit_persistent_limit privacy_hash h rows).1)
        ≤ most - count_of bucket key_hash window_start rows
  unfolding hit_persistent_limit judge
  hit_persistent_limit-Leaves most h rows bounded =
      let rows' = upsert (inserted privacy_hash h) rows in
      let counted = count_of-upsert bucket key_hash window_start (inserted privacy_hash h) rows in
      elim (Bool-cases (h.limit == 0 || (h.window_seconds == 0 || h.units == 0))) [
        | inl e ↦ rw e (omega arith)
        | inr e ↦ rw e elim (Bool-cases (is_of h)) [
          | inr other ↦
              let verdict = result (
                judge privacy_hash h
                  (count_of (take 64 h.hit_bucket) (privacy_hash h.key) (window_of h) rows')) in
              omega (arith, none-units_in h verdict other, (rw other at counted))
          | inl is ↦ rw (own_row h rows' is) (
              judged most h (count_of bucket key_hash window_start rows')
                (count_of bucket key_hash window_start rows) is (bounded is) (rw is at counted))
        ]
      ]

  -- A window admits no more units than the limit its hits state, less those it counted before.
  pub admitted_units-Bounded :
      (most : ℕ) (hits : List Hit) (rows : List Bucket)
      → All (λ h. is_of h ≡ true → h.limit ≤ most) hits
      → admitted_units hits rows ≤ most - count_of bucket key_hash window_start rows
  unfolding admitted_units
  admitted_units-Bounded most [] rows bounded = omega arith
  admitted_units-Bounded most (h ∷ hits) rows (first, bounded) = omega (
    arith,
    hit_persistent_limit-Leaves most h rows first,
    admitted_units-Bounded most hits (hit_persistent_limit privacy_hash h rows).1 bounded,
  )

-- Who waits as long as a refusal says comes to the end of the window, and waits no more than a second
-- longer than the window is.
pub retry_after_lem :
    (privacy_hash : Text → Text) (h : Hit)
    → 0 < h.window_seconds
    → (1 ≤ retry_after privacy_hash h)
      × (retry_after privacy_hash h ≤ h.window_seconds + 1)
      × ((window_of h + h.window_seconds) * second ≤ h.now + retry_after privacy_hash h * second)
unfolding retry_after
retry_after_lem privacy_hash h positive =
    let epoch : ℕ = h.now / second in
    let within : epoch % h.window_seconds < h.window_seconds = mod-lt epoch positive in
    let whole : h.window_seconds * (epoch / h.window_seconds) + epoch % h.window_seconds ≡ epoch =
      div-add-mod epoch h.window_seconds in
    omega (arith, within, whole)
