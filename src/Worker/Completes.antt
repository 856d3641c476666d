-- ===== src/Worker/Completes.antt =====
-- backend/app/worker_api.py: what each of the three handlers does to the job that it completes.
use race_frame.Prelude.{
  ℕ, ◌≡◌, sym, ap, subst, List, map, inl, inr, Option, none, some, Bool-cases, not, is_empty,
}
use race_frame.Http.{Result, ok, ok-injective}
use race_frame.Search.Best.{SearchResult}
use race_frame.Worker.Job.{Job, JobStatus, JobType, Model}
use race_frame.Worker.Session.{Session, live_of}
use race_frame.Worker.Attempt.{Current, state}
use race_frame.Worker.Report.{find_job}
use race_frame.Worker.Complete.{Work, CompletionOutside, cleared, completed_job}
use race_frame.Worker.CompletePhoto.{
  CompletePhotoJobRequest, complete_photo_ocr_job, complete_photo_face_job, complete_by_type,
}
use race_frame.Worker.CompleteFaces.{enroll, enroll_if, store_results, search_if}
use race_frame.Worker.Leaves.{Leaves, finish_photo-Leaves, enroll-Leaves, finish_search-Leaves}

-- What a handler's completion of a job does to it, where it comes back.
abbrev pub Completes :
    {E : Type 0}
    → CompletionOutside E
    → Model
    → ℕ
    → (Job → Work E → Result (Work E × Current))
    → Type 0
Completes {E = E} outside model job_id complete =
    (job : Job) (work after : Work E) (current : Current)
    → find_job model job_id (map live_of work.session.rows) ≡ some job
    → complete job work ≡ ok (after, current)
    → (current ≡ state JobStatus.completed)
      × (find_job model job_id after.session.durable.jobs
          ≡ some (completed_job outside.finished_now (cleared job)))

abbrev pub completed_with : {E : Type 0} → Work E → Result (Work E × Current)
completed_with work = ok (work, state JobStatus.completed)

pub answer_is :
    {E : Type 0} (P : Session → Type 0) (work after : Work E) (current : Current)
    → P work.session
    → completed_with work ≡ ok (after, current)
    → (current ≡ state JobStatus.completed) × P after.session
answer_is {E} P work after current p h =
    let same = ok-injective h in
    (
      ap (λ (r : Work E × Current). r.1) (sym same),
      subst (λ (r : Work E × Current). P r.0.session) same p,
    )

module _ {E : Type 0} (outside : CompletionOutside E) where
  pub complete_by_type-Completes :
      (payload : CompletePhotoJobRequest E) (model : Model) (job_id : ℕ)
      → Completes outside model job_id (λ job. complete_by_type outside payload job job.job_type)
  unfolding complete_by_type complete_photo_ocr_job complete_photo_face_job
  complete_by_type-Completes payload model job_id job work after current found h = go job.job_type h
    where
      go :
          (t : JobType)
          → complete_by_type outside payload job t work ≡ ok (after, current)
          → (current ≡ state JobStatus.completed) × Leaves outside model job_id job after.session
      go JobType.ocr e = elim (Bool-cases (not (is_empty payload.face_detections))) [
        | inl some_faces ↦ let refused = rw (some_faces, complete_by_type) at e in cc
        | inr no_faces ↦
            answer_is (Leaves outside model job_id job)
              (complete_photo_ocr_job outside job payload.detections work) after current
              (finish_photo-Leaves outside model job_id job work.session found)
              (rw (no_faces, complete_by_type) at e)
      ]
      go JobType.face_photo_scan e = elim (Bool-cases (not (is_empty payload.detections))) [
        | inl some_texts ↦ let refused = rw (some_texts, complete_by_type) at e in cc
        | inr no_texts ↦
            answer_is (Leaves outside model job_id job)
              (complete_photo_face_job outside job payload.face_detections work) after current
              (finish_photo-Leaves outside model job_id job work.session found)
              (rw (no_texts, complete_by_type) at e)
      ]
      go JobType.face_selfie_enroll e = cc
      go JobType.face_search_probe e = cc

  pub enroll_if-Completes :
      (embedding : E) (model : Model) (job_id : ℕ)
      → Completes outside model job_id (λ job. enroll_if outside job (outside.normalize embedding))
  enroll_if-Completes embedding model job_id job work after current found h =
      go (outside.normalize embedding) h
    where
      go :
          (o : Option E)
          → enroll_if outside job o work ≡ ok (after, current)
          → (current ≡ state JobStatus.completed) × Leaves outside model job_id job after.session
      go none e = cc
      go (some normal) e =
          answer_is (Leaves outside model job_id job) (enroll outside job normal work) after current
            (enroll-Leaves outside model job_id job work.session found normal work.tables) e

  pub search_if-Completes :
      (embedding : E) (model : Model) (job_id : ℕ)
      → Completes outside model job_id (λ job. search_if outside job (outside.normalize embedding))
  search_if-Completes embedding model job_id job work after current found h =
      go (outside.normalize embedding) h
    where
      stored :
          (o : Option (List SearchResult))
          → store_results outside job work o ≡ ok (after, current)
          → (current ≡ state JobStatus.completed) × Leaves outside model job_id job after.session
      stored none e = cc
      stored (some results) e =
          answer_is (Leaves outside model job_id job) _ after current
            (finish_search-Leaves outside model job_id job work.session found) e

      go :
          (o : Option E)
          → search_if outside job o work ≡ ok (after, current)
          → (current ≡ state JobStatus.completed) × Leaves outside model job_id job after.session
      go none e = cc
      go (some normal) e = stored _ e
