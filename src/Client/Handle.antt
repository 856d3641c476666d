-- ===== src/Client/Handle.antt =====
-- raceframe-worker/worker.py: `process_photo_job`, `_report_failure` and `handle_claimed_job`. The path of a claim, the
-- log and the presence of the worker are left out.
use race_frame.Prelude.{ℕ, Bool, true, false, some, ◌++◌, take, is_empty, if◌then◌else◌, codes}
use race_frame.Matching.Token.{Text}
use race_frame.Search.Merge.{strip_start, strip_end}
use race_frame.Worker.Job.{JobType}
use race_frame.Worker.Report.{FailJobRequest}
use race_frame.Client.Failure.{
  Kind, worker_config, permanent_job, transient_job, control_plane, lease_lost, unexpected,
  class_name, Outcome, returned, raised,
}

abbrev pub and_then : {S A B : Type 0} → S → Outcome A → (A → S × Outcome B) → S × Outcome B
and_then s (returned a) next = next a
and_then s (raised kind text) next = (s, raised kind text)

-- Download, a look at the lease, recognition, another look at the lease, and the post of the completion.
abbrev pub scan_and_complete :
    {S R B : Type 0}
    → Outcome Text
    → (ℕ → Outcome Bool)
    → (Text → Outcome R)
    → (R → S → S × Outcome B)
    → S
    → S × Outcome B
scan_and_complete image owned scan complete s = and_then s image (λ content.
    and_then s (owned 0) (λ first.
      and_then s (scan content) (λ found. and_then s (owned 1) (λ second. complete found s))))

unfoldable pub process_face_job :
    {S R B : Type 0}
    → Outcome Text
    → (ℕ → Outcome Bool)
    → (Text → Outcome R)
    → (R → S → S × Outcome B)
    → S
    → S × Outcome B
process_face_job image owned enroll_best_face complete s =
    scan_and_complete image owned enroll_best_face complete s

unfoldable pub process_face_search_job :
    {S R B : Type 0}
    → Outcome Text
    → (ℕ → Outcome Bool)
    → (Text → Outcome R)
    → (R → S → S × Outcome B)
    → S
    → S × Outcome B
process_face_search_job image owned enroll_single_search_face complete s =
    scan_and_complete image owned enroll_single_search_face complete s

-- The recognition of texts and of faces, with the post of what each finds.
pub record PhotoScans (S T F B : Type 0) : Type 0 where
  pub scan_texts : Text → Outcome T
  pub scan_faces : Text → Outcome F
  pub complete_texts : T → S → S × Outcome B
  pub complete_faces : F → S → S × Outcome B

abbrev unsupported : {B : Type 0} → Text → Outcome B
unsupported job_type = raised permanent_job (codes "Unsupported photo job type: " ++ job_type)

unfoldable pub process_photo_job :
    {S T F B : Type 0}
    → Outcome Text
    → (ℕ → Outcome Bool)
    → PhotoScans S T F B
    → JobType
    → S
    → S × Outcome B
process_photo_job image owned scans JobType.ocr s =
    scan_and_complete image owned scans.scan_texts scans.complete_texts s
process_photo_job image owned scans JobType.face_photo_scan s =
    scan_and_complete image owned scans.scan_faces scans.complete_faces s
process_photo_job image owned scans JobType.face_selfie_enroll s =
    and_then s image
      (λ content. and_then s (owned 0) (λ first. (s, unsupported (codes "face_selfie_enroll"))))
process_photo_job image owned scans JobType.face_search_probe s =
    and_then s image
      (λ content. and_then s (owned 0) (λ first. (s, unsupported (codes "face_search_probe"))))

-- `str(error).strip() or error.__class__.__name__`, cut at 2000.
unfoldable pub failure_message : (ℕ → Bool) → Kind → Text → Text
unfolding strip_start strip_end take
failure_message wide_space kind text =
    let stripped = strip_end wide_space (strip_start wide_space text) in
    take 2_000 (if is_empty stripped then class_name kind else stripped)

module _ {S B : Type 0} (wide_space : ℕ → Bool) (attempt_id : ℕ)
    (report : FailJobRequest → S → S × Outcome B) where
  abbrev pub reported_or : S × Outcome B → S × Outcome Bool
  reported_or (s, returned body) = (s, returned true)
  reported_or (s, raised permanent_job text) = (s, returned true)
  reported_or (s, raised control_plane text) = (s, returned true)
  reported_or (s, raised lease_lost text) = (s, returned true)
  reported_or (s, raised kind text) = (s, raised kind text)

  abbrev pub report_failure : Kind → Text → Bool → Text → S → S × Outcome Bool
  report_failure kind text retryable error_code s =
      let payload : FailJobRequest = record {
        attempt_id = attempt_id;
        error_message = failure_message wide_space kind text;
        retryable = retryable;
        error_code = some error_code;
      } in
      reported_or (report payload s)

  -- On the state and the outcome of the processor; `true` stands for a return.
  unfoldable pub handle_claimed_job : S × Outcome B → S × Outcome Bool
  unfolding failure_message
  handle_claimed_job (s, returned body) = (s, returned true)
  handle_claimed_job (s, raised worker_config text) = (s, raised worker_config text)
  handle_claimed_job (s, raised lease_lost text) = (s, returned true)
  handle_claimed_job (s, raised control_plane text) = (s, returned true)
  handle_claimed_job (s, raised permanent_job text) =
      report_failure permanent_job text false (codes "invalid_job_input") s
  handle_claimed_job (s, raised transient_job text) =
      report_failure transient_job text true (codes "transient_processing_error") s
  handle_claimed_job (s, raised (unexpected name) text) =
      report_failure (unexpected name) text true (codes "unexpected_processing_error") s
