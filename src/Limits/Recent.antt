-- ===== src/Limits/Recent.antt =====
-- backend/app/web_security.py: how many hits of a key `SlidingWindowLimiter` admits in a window.
use race_frame.Prelude.{
  ℕ, ◌+◌, ◌*◌, ◌≤◌, ◌<◌, ◌≡◌, refl, sym, ap, ◌∙◌, inl, inr, false, List, [], ◌∷◌, ◌++◌, ltb, length,
  length-append, keep, All, All-mono, All-append, append_assoc, arith,
}
use race_frame.Matching.Token.{Text}
use race_frame.Limits.SlidingWindow.{nanoseconds, Entry, Call, timestamps_of, hit}
use race_frame.Limits.Entries.{
  length-keep-le, timestamps_of-put_last, timestamps_of-put_last_other, pop_expired-Splits,
  hit_cases, unexpired, differs, note,
}

module _ (max_keys : ℕ) (bucket key : Text) (limit window_seconds : ℕ) where
  abbrev own_call : ℕ → Call
  own_call now = record {
    bucket = bucket;
    key = key;
    limit = limit;
    window_seconds = window_seconds;
    now = now;
  }

  -- A limiter that has never evicted a key: its entries, the moments at which it admitted the key, and the
  -- time of its last call. The calls for the key have one limit and one window; others are free.
  pub data Watched : List Entry → List ℕ → ℕ → Type 0 where
    fresh : Watched [] [] 0
    own :
        {entries : List Entry} {log : List ℕ} {last : ℕ} (now : ℕ)
        → Watched entries log last
        → last ≤ now
        → length entries < max_keys
        → Watched
            (hit max_keys (own_call now) entries).1
            (note (hit max_keys (own_call now) entries).0 now log)
            now
    other :
        {entries : List Entry} {log : List ℕ} {last : ℕ} (c : Call)
        → Watched entries log last
        → last ≤ c.now
        → length entries < max_keys
        → differs c.bucket c.key bucket key ≡ false
        → Watched (hit max_keys c entries).1 log c.now

  -- The admitted hits that lie within a window before a moment.
  abbrev pub within_window : ℕ → List ℕ → List ℕ
  within_window now log = keep (λ t. ltb now (t + window_seconds * nanoseconds)) log

  -- The log is what has expired and what the entry holds.
  Tracks : List Entry → List ℕ → ℕ → Type 0
  Tracks entries log last =
      (old : List ℕ) × (log ≡ old ++ timestamps_of bucket key entries)
      × All (λ t. t + window_seconds * nanoseconds ≤ last) old
      × (length (timestamps_of bucket key entries) ≤ limit)

  tracked :
      (entries : List Entry) (log old timestamps : List ℕ) (last : ℕ)
      → timestamps_of bucket key entries ≡ timestamps
      → log ≡ old ++ timestamps
      → All (λ t. t + window_seconds * nanoseconds ≤ last) old
      → length timestamps ≤ limit
      → Tracks entries log last
  unfolding Tracks
  tracked entries log old timestamps last holds split gone few =
      (old, rw holds split, gone, rw holds few)

  Watched-Tracks :
      {entries : List Entry} {log : List ℕ} {last : ℕ}
      → Watched entries log last
      → Tracks entries log last
  unfolding Tracks timestamps_of
  Watched-Tracks fresh = ([], refl, tt, omega arith)
  Watched-Tracks (own {entries} {log} {last} now watched later room) =
      let (old, split, gone, few) = Watched-Tracks watched in
      let held : List ℕ = timestamps_of bucket key entries in
      let left : List ℕ = unexpired (own_call now) entries in
      let (popped, pops, expired) = pop_expired-Splits (window_seconds * nanoseconds) now held in
      let whole : log ≡ (old ++ popped) ++ left =
        split ∙ (ap (λ l. old ++ l) pops ∙ sym (append_assoc old popped left)) in
      let all_gone : All (λ t. t + window_seconds * nanoseconds ≤ now) (old ++ popped) =
        All-append (λ t. t + window_seconds * nanoseconds ≤ now) old popped
          (All-mono old (λ t h. omega (arith, h, later)) gone) expired in
      let counted : length held ≡ length popped + length left =
        ap length pops ∙ length-append popped left in
      elim (hit_cases max_keys (own_call now) entries log room) [
        | inl (noted, moved) ↦
            tracked _ _ (old ++ popped) left now
              (ap (timestamps_of bucket key) moved ∙ timestamps_of-put_last bucket key left entries)
              (noted ∙ whole) all_gone (omega (arith, few, counted))
        | inr (noted, fewer, moved) ↦
            tracked _ _ (old ++ popped) (left ++ (now ∷ [])) now
              (ap (timestamps_of bucket key) moved
                ∙ timestamps_of-put_last bucket key (left ++ (now ∷ [])) entries)
              (noted
                ∙ (ap (λ l. l ++ (now ∷ [])) whole ∙ append_assoc (old ++ popped) left (now ∷ [])))
              all_gone (omega (arith, fewer, length-append left (now ∷ [])))
      ]
  Watched-Tracks (other {entries} {log} {last} c watched later room differ) =
      let (old, split, gone, few) = Watched-Tracks watched in
      let all_gone : All (λ t. t + window_seconds * nanoseconds ≤ c.now) old =
        All-mono old (λ t h. omega (arith, h, later)) gone in
      let unmoved = λ (timestamps : List ℕ).
        timestamps_of-put_last_other bucket key c.bucket c.key timestamps entries differ in
      elim (hit_cases max_keys c entries log room) [
        | inl (_, moved) ↦
            tracked _ _ old (timestamps_of bucket key entries) c.now
              (ap (timestamps_of bucket key) moved ∙ unmoved (unexpired c entries)) split all_gone
              few
        | inr (_, _, moved) ↦
            tracked _ _ old (timestamps_of bucket key entries) c.now
              (ap (timestamps_of bucket key) moved ∙ unmoved (unexpired c entries ++ (c.now ∷ [])))
              split all_gone few
      ]

  none-old :
      (old rest : List ℕ) (now : ℕ)
      → All (λ t. t + window_seconds * nanoseconds ≤ now) old
      → within_window now (old ++ rest) ≡ within_window now rest
  unfolding keep
  none-old [] rest now gone = refl
  none-old (t ∷ old) rest now (first, gone) =
      let out : ltb now (t + window_seconds * nanoseconds) ≡ false = ground arith in
      rw out (none-old old rest now gone)

  -- At no moment since its last call has a limiter that never evicted a key admitted more than `limit` hits
  -- of the key within the window before the moment.
  pub Watched-Bounded :
      {entries : List Entry} {log : List ℕ} {last : ℕ} (now : ℕ)
      → Watched entries log last
      → last ≤ now
      → length (within_window now log) ≤ limit
  unfolding Tracks
  Watched-Bounded {entries} {log} {last} now watched later =
      let (old, split, gone, few) = Watched-Tracks watched in
      let held : List ℕ = timestamps_of bucket key entries in
      let all_gone : All (λ t. t + window_seconds * nanoseconds ≤ now) old =
        All-mono old (λ t h. omega (arith, h, later)) gone in
      let fewer : length (within_window now log) ≤ length held =
        rw (split ∙ refl) rw (none-old old held now all_gone)
          (length-keep-le (λ t. ltb now (t + window_seconds * nanoseconds)) held) in
      omega (arith, few, fewer)
