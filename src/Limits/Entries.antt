-- ===== src/Limits/Entries.antt =====
-- backend/app/web_security.py: what one call of `SlidingWindowLimiter.hit` does to the entries.
use race_frame.Prelude.{
  ℕ, ◌+◌, ◌-◌, ◌≤◌, ◌<◌, ◌≡◌, ◌⊎◌, refl, ap, inl, inr, Bool, true, false, ◌&&◌, List, [], ◌∷◌, ◌++◌,
  leb, length, length-append, keep, All, arith, Bool-cases,
}
use race_frame.Matching.Token.{Text, text_eq, text_eq_sound, text_eq_refl}
use race_frame.Limits.SlidingWindow.{
  Entry, Call, Answer, admitted, retry, index_error, is_entry, timestamps_of, pop_expired, without,
  put_last, drop_first, hit, refusal, window_length,
}

pub length-keep-le : (p : ℕ → Bool) (xs : List ℕ) → length (keep p xs) ≤ length xs
unfolding keep
length-keep-le p [] = omega arith
length-keep-le p (x ∷ xs) = ground (arith, length-keep-le p xs)

length-without-le :
    (bucket key : Text) (entries : List Entry)
    → length (without bucket key entries) ≤ length entries
unfolding without
length-without-le bucket key [] = omega arith
length-without-le bucket key (entry ∷ entries) =
    ground (arith, length-without-le bucket key entries)

put_last-le :
    (bucket key : Text) (timestamps : List ℕ) (entries : List Entry)
    → length (put_last bucket key timestamps entries) ≤ length entries + 1
unfolding put_last
put_last-le bucket key timestamps entries = omega (
  arith,
  length-append (without bucket key entries)
      (record { entry_bucket = bucket; entry_key = key; timestamps = timestamps } ∷ []),
  length-without-le bucket key entries,
)

pub timestamps_of-put_last :
    (bucket key : Text) (timestamps : List ℕ) (entries : List Entry)
    → timestamps_of bucket key (put_last bucket key timestamps entries) ≡ timestamps
unfolding timestamps_of put_last without
timestamps_of-put_last bucket key timestamps [] =
    rw (text_eq_refl bucket) rw (text_eq_refl key) refl
timestamps_of-put_last bucket key timestamps (entry ∷ entries) =
    elim (Bool-cases (is_entry bucket key entry)) [
      | inl e ↦ rw e (timestamps_of-put_last bucket key timestamps entries)
      | inr e ↦ rw e rw e (timestamps_of-put_last bucket key timestamps entries)
    ]

-- Another key's entry is not the one of the key.
abbrev pub differs : Text → Text → Text → Text → Bool
differs b k bucket key = text_eq b bucket && text_eq k key

is_entry_apart :
    (bucket key b k : Text) (entry : Entry)
    → differs b k bucket key ≡ false
    → is_entry b k entry ≡ true
    → is_entry bucket key entry ≡ false
is_entry_apart bucket key b k entry other is =
    let same_bucket : entry.entry_bucket ≡ b = text_eq_sound entry.entry_bucket b (ground arith) in
    let same_key : entry.entry_key ≡ k = text_eq_sound entry.entry_key k (ground arith) in cc

pub timestamps_of-put_last_other :
    (bucket key b k : Text) (timestamps : List ℕ) (entries : List Entry)
    → differs b k bucket key ≡ false
    → timestamps_of bucket key (put_last b k timestamps entries) ≡ timestamps_of bucket key entries
unfolding timestamps_of put_last without
timestamps_of-put_last_other bucket key b k timestamps [] other = rw other refl
timestamps_of-put_last_other bucket key b k timestamps (entry ∷ entries) other =
    elim (Bool-cases (is_entry b k entry)) [
      | inl e ↦
          rw e rw (is_entry_apart bucket key b k entry other e)
            (timestamps_of-put_last_other bucket key b k timestamps entries other)
      | inr e ↦ rw e elim (Bool-cases (is_entry bucket key entry)) [
        | inl is ↦ rw is refl
        | inr isnt ↦ rw isnt (timestamps_of-put_last_other bucket key b k timestamps entries other)
      ]
    ]

-- What is popped has expired.
pub pop_expired-Splits :
    (window now : ℕ) (timestamps : List ℕ)
    → (old : List ℕ) × (timestamps ≡ old ++ pop_expired window now timestamps)
      × All (λ t. t + window ≤ now) old
unfolding pop_expired
pop_expired-Splits window now [] = ([], refl, tt)
pop_expired-Splits window now (t ∷ timestamps) = elim (Bool-cases (leb (t + window) now)) [
  | inl e ↦
      let (old, split, expired) = pop_expired-Splits window now timestamps in
      rw e (t ∷ old, ap (◌∷◌ t) split, (ground arith, expired))
  | inr e ↦ rw e ([], refl, tt)
]

-- The timestamps that are left when a call looks at them.
abbrev pub unexpired : Call → List Entry → List ℕ
unexpired c entries = pop_expired (window_length c) c.now (timestamps_of c.bucket c.key entries)

-- The moments of the admitted hits, the newest last.
abbrev pub note : Answer → ℕ → List ℕ → List ℕ
note admitted now log = log ++ (now ∷ [])
note (retry _) now log = log
note index_error now log = log

note-refusal : (c : Call) (timestamps log : List ℕ) → note (refusal c timestamps) c.now log ≡ log
note-refusal c [] log = refl
note-refusal c (_ ∷ _) log = refl

-- A hit that evicts nothing is refused and leaves the timestamps that have not expired, or is admitted
-- with its own timestamp behind fewer than `limit` others.
pub hit_cases :
    (max_keys : ℕ) (c : Call) (entries : List Entry) (log : List ℕ)
    → length entries < max_keys
    → ((note (hit max_keys c entries).0 c.now log ≡ log)
        × ((hit max_keys c entries).1 ≡ put_last c.bucket c.key (unexpired c entries) entries))
      ⊎ ((note (hit max_keys c entries).0 c.now log ≡ log ++ (c.now ∷ []))
          × (length (unexpired c entries) < c.limit)
          × ((hit max_keys c entries).1
              ≡ put_last c.bucket c.key (unexpired c entries ++ (c.now ∷ [])) entries))
unfolding hit drop_first
hit_cases max_keys c entries log room =
    elim (Bool-cases (leb c.limit (length (unexpired c entries)))) [
      | inl e ↦ inl (rw e (note-refusal c (unexpired c entries) log), rw e refl)
      | inr e ↦
          let entries' = put_last c.bucket c.key (unexpired c entries ++ (c.now ∷ [])) entries in
          let none_over : length entries' - max_keys ≡ 0 = omega (
            arith,
            room,
            put_last-le c.bucket c.key (unexpired c entries ++ (c.now ∷ [])) entries,
          ) in
          inr (rw e refl, ground arith, rw e rw none_over refl)
    ]
