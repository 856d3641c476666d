-- ===== src/Client/Reports.antt =====
-- raceframe-worker/worker.py: which failures `handle_claimed_job` reports, and that the backend's request model takes
-- the report.
use race_frame.Prelude.{
  ℕ, zero, suc, [], ◌∷◌, ◌≤◌, ◌≡◌, refl, Bool, true, false, not, take, length, is_empty,
  if◌then◌else◌, arith,
}
use race_frame.Matching.Token.{Text}
use race_frame.Search.Merge.{strip_start, strip_end}
use race_frame.Worker.Report.{FailJobRequest}
use race_frame.Client.Failure.{
  Kind, worker_config, permanent_job, transient_job, control_plane, lease_lost, unexpected,
  class_name, Outcome, returned, raised,
}
use race_frame.Client.Handle.{failure_message, reported_or, report_failure, handle_claimed_job}

-- The lengths that `FailJobRequest` of the backend asks for.
abbrev pub FailJobRequest-IsValid : FailJobRequest → Type 0
FailJobRequest-IsValid payload =
    (1 ≤ length payload.error_message) × (length payload.error_message ≤ 2_000)

abbrev pub is_reported : Kind → Bool
is_reported permanent_job = true
is_reported transient_job = true
is_reported (unexpected name) = true
is_reported _ = false

abbrev pub is_permanent : Kind → Bool
is_permanent permanent_job = true
is_permanent _ = false

filled_or :
    (text other : Text) → 1 ≤ length other → 1 ≤ length (if is_empty text then other else text)
filled_or [] other o = o
filled_or (c ∷ text) other o = omega arith

take_short : (n : ℕ) (text : Text) → length (take n text) ≤ n
unfolding take
take_short zero text = omega arith
take_short (suc n) [] = omega arith
take_short (suc n) (c ∷ text) = omega (arith, take_short n text)

take_filled : (text : Text) → 1 ≤ length text → 1 ≤ length (take 2_000 text)
unfolding take
take_filled [] l = l
take_filled (c ∷ text) l = omega arith

failure_message-filled :
    (wide_space : ℕ → Bool) (kind : Kind) (text : Text)
    → 1 ≤ length (class_name kind)
    → (1 ≤ length (failure_message wide_space kind text))
      × (length (failure_message wide_space kind text) ≤ 2_000)
unfolding failure_message
failure_message-filled wide_space kind text l =
    let stripped = strip_end wide_space (strip_start wide_space text) in
    (take_filled _ (filled_or stripped (class_name kind) l), take_short 2_000 _)

module _ {S B : Type 0} (wide_space : ℕ → Bool) (attempt_id : ℕ)
    (report : FailJobRequest → S → S × Outcome B) where
  -- A valid report of the attempt was posted, for a retry unless the failure is permanent.
  pub record Reports (kind : Kind) (s : S) (ended : S × Outcome Bool) : Type 0 where
    pub payload : FailJobRequest
    pub valid : FailJobRequest-IsValid payload
    pub own : payload.attempt_id ≡ attempt_id
    pub for_retry : payload.retryable ≡ not (is_permanent kind)
    pub posted : ended.0 ≡ (report payload s).0

  reported_or-state : (r : S × Outcome B) → (reported_or wide_space attempt_id report r).0 ≡ r.0
  reported_or-state (s, returned body) = refl
  reported_or-state (s, raised worker_config text) = refl
  reported_or-state (s, raised permanent_job text) = refl
  reported_or-state (s, raised transient_job text) = refl
  reported_or-state (s, raised control_plane text) = refl
  reported_or-state (s, raised lease_lost text) = refl
  reported_or-state (s, raised (unexpected name) text) = refl

  reported-Reports :
      (kind : Kind) (text code : Text) (s : S)
      → 1 ≤ length (class_name kind)
      → Reports kind s
          (report_failure wide_space attempt_id report kind text (not (is_permanent kind)) code s)
  reported-Reports kind text code s l = record {
    payload = _;
    valid = failure_message-filled wide_space kind text l;
    own = refl;
    for_retry = refl;
    posted = reported_or-state _;
  }

  -- A failure of the input, of a provider or of an unknown kind is reported under the attempt, with a text that the
  -- backend takes, and for a retry unless it is of the input; after any other outcome nothing is posted.
  pub handle_claimed_job-Reports :
      (kind : Kind) (text : Text) (s : S)
      → 1 ≤ length (class_name kind)
      → let ended = handle_claimed_job wide_space attempt_id report (s, raised kind text) in
        (is_reported kind ≡ true → Reports kind s ended) × (is_reported kind ≡ false → ended.0 ≡ s)
  unfolding handle_claimed_job
  handle_claimed_job-Reports worker_config text s l = (λ e. cc, λ e. refl)
  handle_claimed_job-Reports permanent_job text s l =
      (λ e. reported-Reports permanent_job text _ s l, λ e. cc)
  handle_claimed_job-Reports transient_job text s l =
      (λ e. reported-Reports transient_job text _ s l, λ e. cc)
  handle_claimed_job-Reports control_plane text s l = (λ e. cc, λ e. refl)
  handle_claimed_job-Reports lease_lost text s l = (λ e. cc, λ e. refl)
  handle_claimed_job-Reports (unexpected name) text s l =
      (λ e. reported-Reports (unexpected name) text _ s l, λ e. cc)
