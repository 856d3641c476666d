-- ===== src/Client/Tests.antt =====
-- The worker at concrete replies.
use race_frame.Prelude.{
  ℕ, zero, suc, ◌≤◌, ◌<◌, ◌≡◌, refl, ◌⊎◌, Bool, true, false, List, [], ◌∷◌, Option, none, some,
  length, take, codes, arith, keep,
}
use race_frame.Http.{Result, ok}
use race_frame.Recognition.Tables.{Tables}
use race_frame.Search.Merge.{strip_start, strip_end}
use race_frame.Worker.Job.{Db, JobStatus}
use race_frame.Worker.Session.{select_jobs, select_statuses, assign_rows}
use race_frame.Worker.Attempt.{Current, state, verify_active_attempt}
use race_frame.Worker.Parents.{photo_outcome}
use race_frame.Worker.Report.{FailJobRequest, find_job, load_job}
use race_frame.Worker.CompleteRequest.{photo, complete_handler}
use race_frame.Worker.Samples.{outside, db, tables, seven}
use race_frame.Client.Failure.{permanent_job, transient_job, Outcome, returned, raised}
use race_frame.Client.Post.{judge_reply, post}
use race_frame.Client.Download.{
  bytes, broken, Fetch, fetched, read_chunks, judge_fetch, download_loop, download,
}
use race_frame.Client.Handle.{failure_message, handle_claimed_job}
use race_frame.Client.Poller.{work_once}
use race_frame.Client.Delivery.{
  Delivery, lost_request, lost_reply, delivered, exchange, Once, post-AtMostOnce,
}
use race_frame.Client.Fairness.{served_at, work_once_fair}
use race_frame.Client.Fetched.{download-IsWithin}
use race_frame.Client.Reports.{Reports, is_reported, handle_claimed_job-Reports}

program : Unit {0}
unfolding complete_handler find_job load_job verify_active_attempt select_jobs select_statuses
    assign_rows photo_outcome keep take judge_reply post read_chunks judge_fetch download_loop
    download failure_message handle_claimed_job strip_start strip_end work_once
program = tt

-- The first request is lost, the reply to the second is lost, and the third is answered.
abbrev plan : ℕ → Delivery
plan zero = lost_request
plan (suc zero) = lost_reply
plan _ = delivered

abbrev posted : (Db × Tables ℕ) × Outcome (Result Current)
posted = post (exchange (λ attempt. outside) (photo seven) 7 plan) 4 true (db, tables)

third_answers : posted.1 ≡ returned (ok (state JobStatus.completed))
unfolding program
third_answers = refl

post-AtMostOnce_example :
    ((posted.0 ≡ (db, tables))
      ⊎ Once (λ attempt. outside) (photo seven) 7 plan (db, tables) posted.0)
    × ((answer : Current)
        → posted.1 ≡ returned (ok answer)
        → Once (λ attempt. outside) (photo seven) 7 plan (db, tables) posted.0)
post-AtMostOnce_example = post-AtMostOnce (λ attempt. outside) (photo seven) 7 plan (db, tables) 4

-- The selfies and the photos always have a job.
abbrev busy : ℕ → ℕ → Option ℕ
busy n zero = some 50
busy n (suc zero) = none
busy n (suc (suc queue)) = some 70

abbrev handled : ℕ → ℕ → Outcome Bool
handled queue claimed = returned true

third_queue : served_at handled busy 0 1 ≡ some (2, 70)
unfolding program
third_queue = refl

work_once_fair_example : (n : ℕ) × (n < 3) × (served_at handled busy 0 n ≡ some (2, 70))
work_once_fair_example =
    work_once_fair handled busy 0 2 (λ n. 70) (omega arith) (omega arith) (λ n. refl)

-- The first download breaks off, and the second has an empty chunk.
abbrev storage : ℕ → Fetch
storage zero = fetched 200 (some 9) (bytes (codes "abc") ∷ broken ∷ [])
storage (suc n) = fetched 200 none (bytes (codes "abc") ∷ bytes [] ∷ bytes (codes "de") ∷ [])

download-IsWithin_example : (1 ≤ length (codes "abcde")) × (length (codes "abcde") ≤ 9)
unfolding program
download-IsWithin_example =
    download-IsWithin 9 (λ url. true) storage 3 (some (codes "https://r2")) refl

too_much :
    download 4 (λ url. true) storage 3 (some (codes "https://r2"))
    ≡ raised permanent_job (codes "Source image exceeds the worker download limit.")
unfolding program
too_much = refl

-- The reports are a list, the last first.
abbrev record_report : FailJobRequest → List FailJobRequest → List FailJobRequest × Outcome Bool
record_report payload reports = (payload ∷ reports, returned true)

handle_claimed_job-Reports_example :
    (is_reported transient_job ≡ true
      → Reports
          (λ c. false)
          100
          record_report
          transient_job
          []
          (handle_claimed_job
            (λ c. false)
            100
            record_report
            ([], raised transient_job (codes " "))))
    × (is_reported transient_job ≡ false
        → (handle_claimed_job
            (λ c. false)
            100
            record_report
            ([], raised transient_job (codes " "))).0
          ≡ [])
handle_claimed_job-Reports_example =
    handle_claimed_job-Reports (λ c. false) 100 record_report transient_job (codes " ") []
      (omega arith)
