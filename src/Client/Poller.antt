-- ===== src/Client/Poller.antt =====
-- raceframe-worker/worker.py: `FairClaimPoller`. A queue is its place in `_claims`: the selfies, the searches and
-- the photos.
use race_frame.Prelude.{ℕ, zero, suc, ◌+◌, ◌%◌, Bool, false, Option, none, some, codes}
use race_frame.Client.Failure.{control_plane, Outcome, returned, raised}

pub data Claimed (J : Type 0) : Type 0 where
  no_job : Claimed J
  not_a_job : Claimed J
  job : J → Claimed J

-- A turn ends with the cursor, the job that was handed to `handle_claimed_job` with its queue, and the outcome.
pub record Turn (J : Type 0) : Type 0 where
  pub cursor : ℕ
  pub served : Option (ℕ × J)
  pub outcome : Outcome Bool

-- `claim` posts the claim of a queue, and `handle` is `handle_claimed_job` with the processor of the queue.
module _ {J : Type 0} (claim : ℕ → Outcome (Claimed J)) (handle : ℕ → J → Outcome Bool) where
  abbrev pub serve : ℕ → ℕ → Outcome (Claimed J) → Turn J → Turn J
  serve cursor index (raised kind text) next = record {
    cursor = cursor;
    served = none;
    outcome = raised kind text;
  }
  serve cursor index (returned no_job) next = next
  serve cursor index (returned not_a_job) next = record {
    cursor = cursor;
    served = none;
    outcome = raised control_plane (codes "Backend returned an invalid job payload.");
  }
  serve cursor index (returned (job claimed)) next = record {
    cursor = (index + 1) % 3;
    served = some (index, claimed);
    outcome = handle index claimed;
  }

  unfoldable pub work_from : ℕ → ℕ → ℕ → Turn J
  work_from cursor offset zero = record {
    cursor = (cursor + 1) % 3;
    served = none;
    outcome = returned false;
  }
  work_from cursor offset (suc left) =
      let rest = work_from cursor (offset + 1) left in
      let index = (cursor + offset) % 3 in serve cursor index (claim index) rest

  unfoldable pub work_once : ℕ → Turn J
  unfolding work_from
  work_once cursor = work_from cursor 0 3
