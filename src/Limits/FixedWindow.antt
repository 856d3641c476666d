-- ===== src/Limits/FixedWindow.antt =====
-- backend/app/rate_limits.py: `hit_persistent_limit`. A moment is in microseconds since the epoch; the
-- keyed hash is an argument.
use race_frame.Prelude.{
  ℕ, ◌+◌, ◌-◌, ◌*◌, ◌/◌, ◌%◌, max, Bool, ◌&&◌, ◌||◌, List, [], ◌∷◌, Option, none, some, leb, ◌==◌,
  if◌then◌else◌, take,
}
use race_frame.Matching.Token.{Text, text_eq}

abbrev pub second : ℕ
second = 1_000_000

-- A row of RateLimitBucket; `window_start` in seconds.
pub record Bucket : Type 0 where
  pub bucket : Text
  pub key_hash : Text
  pub window_start : ℕ
  pub count : ℕ
  pub expires_at : ℕ
  pub updated_at : ℕ

pub record Hit : Type 0 where
  pub hit_bucket : Text
  pub key : Text
  pub limit : ℕ
  pub window_seconds : ℕ
  pub units : ℕ
  pub now : ℕ

-- RuntimeError, or the seconds to wait where there are any.
pub data HitResult : Type 0 where
  not_positive : HitResult
  result : Option ℕ → HitResult

abbrev pub window_of : Hit → ℕ
window_of h = let epoch = h.now / second in epoch - (epoch % h.window_seconds)

-- The unique index of the table: (bucket, key_hash, window_start).
abbrev pub is_row : Text → Text → ℕ → Bucket → Bool
is_row bucket key_hash window_start row =
    text_eq row.bucket bucket && text_eq row.key_hash key_hash && row.window_start == window_start

-- `INSERT … ON CONFLICT DO UPDATE SET count = count + units, …`
unfoldable pub upsert : Bucket → List Bucket → List Bucket
upsert new [] = new ∷ []
upsert new (row ∷ rows) =
    if is_row new.bucket new.key_hash new.window_start row
    then record {
      bucket = row.bucket;
      key_hash = row.key_hash;
      window_start = row.window_start;
      count = row.count + new.count;
      expires_at = new.expires_at;
      updated_at = new.updated_at;
    }
      ∷ rows
    else row ∷ upsert new rows

-- `RETURNING count`: 0 where there is no row.
unfoldable pub count_of : Text → Text → ℕ → List Bucket → ℕ
count_of bucket key_hash window_start [] = 0
count_of bucket key_hash window_start (row ∷ rows) =
    if is_row bucket key_hash window_start row
    then row.count
    else count_of bucket key_hash window_start rows

module _ (privacy_hash : Text → Text) where
  abbrev pub inserted : Hit → Bucket
  inserted h = record {
    bucket = take 64 h.hit_bucket;
    key_hash = privacy_hash h.key;
    window_start = window_of h;
    count = h.units;
    expires_at = (window_of h + h.window_seconds * 2) * second;
    updated_at = h.now;
  }

  -- The seconds until the window ends, rounded down, and one.
  unfoldable pub retry_after : Hit → ℕ
  retry_after h = max 1 (((window_of h + h.window_seconds) * second - h.now) / second + 1)

  unfoldable pub judge : Hit → ℕ → Option ℕ
  unfolding retry_after
  judge h count = if leb count h.limit then none else some (retry_after h)

  unfoldable pub hit_persistent_limit : Hit → List Bucket → HitResult × List Bucket
  unfolding upsert count_of judge
  hit_persistent_limit h rows =
      if h.limit == 0 || (h.window_seconds == 0 || h.units == 0)
      then (not_positive, rows)
      else let rows' = upsert (inserted h) rows in
        (
          result
              (judge h (count_of (take 64 h.hit_bucket) (privacy_hash h.key) (window_of h) rows')),
          rows',
        )
