-- ===== src/Client/Download.antt =====
-- raceframe-worker/worker.py: `BackendClient.download`, with the responses of its attempts given; the waits between
-- them are left out.
use race_frame.Prelude.{
  ℕ, zero, suc, ◌+◌, Bool, false, ◌||◌, not, List, [], ◌∷◌, ◌++◌, Option, none, some, ltb, leb,
  ◌==◌, if◌then◌else◌, codes, length, is_empty,
}
use race_frame.Matching.Token.{Text}
use race_frame.Archive.Decimal.{str}
use race_frame.Client.Failure.{permanent_job, transient_job, Outcome, returned, raised}

-- A chunk of the content, or a RequestException; the content ends after the last.
pub data Chunk : Type 0 where
  bytes : Text → Chunk
  broken : Chunk

-- `content_length` is the header's number if it is all digits; `failed` is a RequestException.
pub data Fetch : Type 0 where
  failed : Fetch
  fetched : (status_code : ℕ) → (content_length : Option ℕ) → List Chunk → Fetch

-- What an attempt ends in; `again` is a RequestException.
pub data Attempt : Type 0 where
  done : Outcome Text → Attempt
  retry : Attempt
  again : Attempt

abbrev too_large : Outcome Text
too_large = raised permanent_job (codes "Source image exceeds the worker download limit.")

module _ (worker_max_download_bytes : ℕ) where
  -- The content so far and its length.
  unfoldable pub read_chunks : Text → ℕ → List Chunk → Attempt
  read_chunks content received [] =
      if received == 0
      then done (raised permanent_job (codes "Source image is empty."))
      else done (returned content)
  read_chunks content received (broken ∷ chunks) = again
  read_chunks content received (bytes chunk ∷ chunks) =
      let skipped = read_chunks content received chunks in
      let longer = received + length chunk in
      let rest = read_chunks (content ++ chunk) longer chunks in
      if is_empty chunk
      then skipped
      else if ltb worker_max_download_bytes longer
      then done too_large
      else rest

  abbrev pub is_too_long : Option ℕ → Bool
  is_too_long none = false
  is_too_long (some n) = ltb worker_max_download_bytes n

  unfoldable pub judge_fetch : Bool → Fetch → Attempt
  unfolding read_chunks str
  judge_fetch is_last failed = again
  judge_fetch is_last (fetched status content_length chunks) =
      let transient =
        raised transient_job (codes "Object storage returned HTTP " ++ (str status ++ codes ".")) in
      let rejected =
        raised transient_job
          (codes "Object download was rejected with HTTP " ++ (str status ++ codes ".")) in
      if status == 404
      then done
          (raised permanent_job (codes "The source image no longer exists in object storage."))
      else if status == 429 || leb 500 status || status == 408 || status == 425
      then (if is_last then done transient else retry)
      else if leb 400 status
      then done rejected
      else if is_too_long content_length
      then done too_large
      else read_chunks [] 0 chunks

  abbrev pub next_attempt : Bool → Attempt → Outcome Text → Outcome Text
  next_attempt is_last (done outcome) rest = outcome
  next_attempt is_last retry rest = rest
  next_attempt is_last again rest =
      if is_last
      then raised transient_job (codes "Object download failed after bounded retries.")
      else rest

  unfoldable pub download_loop : (ℕ → Fetch) → (retries attempt left : ℕ) → Outcome Text
  unfolding judge_fetch
  download_loop fetch retries attempt zero =
      raised transient_job (codes "Object download exhausted its retry budget.")
  download_loop fetch retries attempt (suc left) =
      let rest = download_loop fetch retries (attempt + 1) left in
      let is_last = leb retries (attempt + 1) in
      next_attempt is_last (judge_fetch is_last (fetch attempt)) rest

  -- `is_valid_url` is what `urlparse` finds: a scheme of HTTP and a host.
  unfoldable pub download :
      (is_valid_url : Text → Bool) → (ℕ → Fetch) → ℕ → Option Text → Outcome Text
  unfolding download_loop
  download is_valid_url fetch retries none =
      raised permanent_job (codes "Backend did not provide a download URL for this job.")
  download is_valid_url fetch retries (some url) =
      let loop = download_loop fetch retries 0 retries in
      if is_empty url
      then raised permanent_job (codes "Backend did not provide a download URL for this job.")
      else if not (is_valid_url url)
      then raised permanent_job (codes "Backend provided an invalid download URL.")
      else loop
