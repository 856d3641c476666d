-- ===== src/Client/Fairness.antt =====
-- raceframe-worker/worker.py: which queues `FairClaimPoller` serves in successive turns.
use race_frame.Prelude.{
  ℕ, zero, suc, ◌+◌, ◌-◌, ◌%◌, ◌≤◌, ◌<◌, ◌≡◌, ◌⊎◌, inl, inr, refl, Bool, Option, none, some, arith,
  Option-cases, some-injective, sym, ap, ◌∙◌,
}
use race_frame.Client.Failure.{Outcome, returned}
use race_frame.Client.Poller.{Claimed, no_job, job, Turn, work_from, work_once}

abbrev offered : {J : Type 0} → Option J → Claimed J
offered none = no_job
offered (some j) = job j

-- How many queues are asked before a queue.
abbrev ahead : ℕ → ℕ → ℕ
ahead cursor queue = (queue + 3 - cursor) % 3

module _ {J : Type 0} (handle : ℕ → J → Outcome Bool) where
  -- A turn with a backend that answers, where `available` is the next job of each queue.
  abbrev turn : (ℕ → Option J) → ℕ → Turn J
  turn available cursor = work_once (λ queue. returned (offered (available queue))) handle cursor

  -- The queue is not one of those before the one that is served: it is that one, or the cursor comes closer to it.
  comes_at :
      (cursor queue offset : ℕ)
      → cursor < 3
      → queue < 3
      → offset ≤ ahead cursor queue
      → offset < 3
      → ((cursor + offset) % 3 ≡ queue)
        ⊎ (ahead (((cursor + offset) % 3 + 1) % 3) queue < ahead cursor queue)
  comes_at cursor queue offset c q o l = ground arith

  reached :
      (cursor queue offset : ℕ)
      → cursor < 3
      → queue < 3
      → offset ≤ ahead cursor queue
      → ((cursor + offset) % 3 ≡ queue) ⊎ (offset + 1 ≤ ahead cursor queue)
  reached cursor queue offset c q o = ground arith

  passed_over :
      (available : ℕ → Option J) (cursor queue offset : ℕ) {j : J}
      → cursor < 3
      → queue < 3
      → offset ≤ ahead cursor queue
      → available queue ≡ some j
      → available ((cursor + offset) % 3) ≡ none
      → offset + 1 ≤ ahead cursor queue
  passed_over available cursor queue offset c q o a n = elim (reached cursor queue offset c q o) [
    | inl here ↦ let same = sym a ∙ ap available (sym here) ∙ n in cc
    | inr before ↦ before
  ]

  served_is :
      (available : ℕ → Option J) {index queue : ℕ} {found j : J}
      → index ≡ queue
      → available index ≡ some found
      → available queue ≡ some j
      → let first : Option (ℕ × J) = some (index, found) in first ≡ some (queue, j)
  served_is available {index} {queue} {found} {j} here is a =
      let same : found ≡ j = some-injective _ _ (sym is ∙ ap available here ∙ a) in cc

  -- A turn serves the queue, or the cursor comes closer to it.
  abbrev Comes : ℕ → ℕ → J → Turn J → Type 0
  Comes cursor queue j t =
      (t.cursor < 3) × ((t.served ≡ some (queue, j)) ⊎ (ahead t.cursor queue < ahead cursor queue))

  work_from-Comes :
      (available : ℕ → Option J) (cursor queue offset left : ℕ) (j : J)
      → cursor < 3
      → queue < 3
      → offset + left ≡ 3
      → offset ≤ ahead cursor queue
      → available queue ≡ some j
      → Comes cursor queue j
          (work_from (λ k. returned (offered (available k))) handle cursor offset left)
  unfolding work_from
  work_from-Comes available cursor queue offset zero j c q e o a = ground arith
  work_from-Comes available cursor queue offset (suc left) j c q e o a =
      let index = (cursor + offset) % 3 in
      elim (Option-cases (available index)) [
        | inl empty ↦ rw empty (
            work_from-Comes available cursor queue (offset + 1) left j c q (omega arith)
              (passed_over available cursor queue offset c q o a empty) a)
        | inr (found, is) ↦ elim (comes_at cursor queue offset c q o (omega arith)) [
          | inl here ↦ rw is (omega arith, inl (served_is available here is a))
          | inr closer ↦ rw is (omega arith, inr closer)
        ]
      ]

  turn-Comes :
      (available : ℕ → Option J) (cursor queue : ℕ) (j : J)
      → cursor < 3
      → queue < 3
      → available queue ≡ some j
      → Comes cursor queue j (turn available cursor)
  unfolding work_once
  turn-Comes available cursor queue j c q a =
      work_from-Comes available cursor queue 0 3 j c q refl (omega arith) a

  -- The cursors of successive turns, and what each serves.
  abbrev cursor_at : (ℕ → ℕ → Option J) → ℕ → ℕ → ℕ
  cursor_at available cursor zero = cursor
  cursor_at available cursor (suc n) = (turn (available n) (cursor_at available cursor n)).cursor

  abbrev pub served_at : (ℕ → ℕ → Option J) → ℕ → ℕ → Option (ℕ × J)
  served_at available cursor n = (turn (available n) (cursor_at available cursor n)).served

  -- While the backend answers, a queue that has a job at each of three turns is served in one of them, whatever
  -- the other queues have.
  pub work_once_fair :
      (available : ℕ → ℕ → Option J) (cursor queue : ℕ) (jobs : ℕ → J)
      → cursor < 3
      → queue < 3
      → ((n : ℕ) → available n queue ≡ some (jobs n))
      → (n : ℕ) × (n < 3) × (served_at available cursor n ≡ some (queue, jobs n))
  work_once_fair available cursor queue jobs c q has =
      let at = cursor_at available cursor in
      let (c1, first) = turn-Comes (available 0) (at 0) queue (jobs 0) c q (has 0) in
      let (c2, second) = turn-Comes (available 1) (at 1) queue (jobs 1) c1 q (has 1) in
      let (c3, third) = turn-Comes (available 2) (at 2) queue (jobs 2) c2 q (has 2) in
      elim first [
        | inl served ↦ (0, omega arith, served)
        | inr closer ↦ elim second [
          | inl served ↦ (1, omega arith, served)
          | inr nearer ↦ elim third [
            | inl served ↦ (2, omega arith, served)
            | inr nearest ↦ ground arith
          ]
        ]
      ]
