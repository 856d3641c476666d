-- ===== src/Limits/SlidingWindow.antt =====
-- backend/app/web_security.py: `SlidingWindowLimiter.hit`. A moment of the monotonic clock is a number
-- of nanoseconds; a method runs under its lock, so it is one step.
use race_frame.Prelude.{
  ℕ, zero, suc, ◌+◌, ◌-◌, ◌*◌, ◌/◌, max, Bool, ◌&&◌, List, [], ◌∷◌, ◌++◌, leb, if◌then◌else◌,
  length,
}
use race_frame.Matching.Token.{Text, text_eq}

abbrev pub nanoseconds : ℕ
nanoseconds = 1_000_000_000

-- An entry: (bucket, key) and its timestamps, the oldest first.
pub record Entry : Type 0 where
  pub entry_bucket : Text
  pub entry_key : Text
  pub timestamps : List ℕ

pub record Call : Type 0 where
  pub bucket : Text
  pub key : Text
  pub limit : ℕ
  pub window_seconds : ℕ
  pub now : ℕ

-- `hit` comes back with None, with the seconds to wait, or raises IndexError on an empty deque.
pub data Answer : Type 0 where
  admitted : Answer
  retry : ℕ → Answer
  index_error : Answer

abbrev pub is_entry : Text → Text → Entry → Bool
is_entry bucket key entry = text_eq entry.entry_bucket bucket && text_eq entry.entry_key key

abbrev pub window_length : Call → ℕ
window_length c = c.window_seconds * nanoseconds

-- `self._entries.setdefault(entry_key, deque())`
unfoldable pub timestamps_of : Text → Text → List Entry → List ℕ
timestamps_of bucket key [] = []
timestamps_of bucket key (entry ∷ entries) =
    if is_entry bucket key entry then entry.timestamps else timestamps_of bucket key entries

-- `while timestamps and timestamps[0] <= cutoff: popleft()`, where `cutoff = now - window`.
unfoldable pub pop_expired : ℕ → ℕ → List ℕ → List ℕ
pop_expired window now [] = []
pop_expired window now (t ∷ timestamps) =
    if leb (t + window) now then pop_expired window now timestamps else t ∷ timestamps

unfoldable pub without : Text → Text → List Entry → List Entry
without bucket key [] = []
without bucket key (entry ∷ entries) =
    if is_entry bucket key entry
    then without bucket key entries
    else entry ∷ without bucket key entries

-- `move_to_end`
unfoldable pub put_last : Text → Text → List ℕ → List Entry → List Entry
unfolding without
put_last bucket key timestamps entries =
    without bucket key entries
    ++ (record { entry_bucket = bucket; entry_key = key; timestamps = timestamps } ∷ [])

-- `popitem(last=False)`, so often.
unfoldable pub drop_first : ℕ → List Entry → List Entry
drop_first zero entries = entries
drop_first (suc n) [] = []
drop_first (suc n) (entry ∷ entries) = drop_first n entries

abbrev pub refusal : Call → List ℕ → Answer
refusal c [] = index_error
refusal c (t ∷ timestamps) = retry (max 1 ((window_length c - (c.now - t)) / nanoseconds + 1))

unfoldable pub hit : ℕ → Call → List Entry → Answer × List Entry
unfolding timestamps_of pop_expired put_last drop_first
hit max_keys c entries =
    let timestamps = pop_expired (window_length c) c.now (timestamps_of c.bucket c.key entries) in
    if leb c.limit (length timestamps)
    then (refusal c timestamps, put_last c.bucket c.key timestamps entries)
    else let entries' = put_last c.bucket c.key (timestamps ++ (c.now ∷ [])) entries in
      (admitted, drop_first (length entries' - max_keys) entries')
