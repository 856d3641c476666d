-- ===== src/Client/Fetched.antt =====
-- raceframe-worker/worker.py: how large the content is that `BackendClient.download` returns.
use race_frame.Prelude.{
  ℕ, zero, suc, ◌+◌, ◌≤◌, ◌≡◌, refl, ap, ◌∙◌, subst, inl, inr, Bool, true, false, List, [], ◌∷◌,
  ◌++◌, Option, none, some, ltb, leb, ◌==◌, length, length-append, is_empty, arith, Bool-cases,
  if◌then◌else◌, not, ◌||◌,
}
use race_frame.Matching.Token.{Text}
use race_frame.Client.Failure.{Outcome, returned}
use race_frame.Client.Download.{
  Chunk, bytes, broken, Fetch, failed, fetched, Attempt, done, retry, again, read_chunks,
  judge_fetch, next_attempt, download_loop, download, is_too_long,
}

module _ (worker_max_download_bytes : ℕ) where
  abbrev IsWithin : Text → Type 0
  IsWithin content = (1 ≤ length content) × (length content ≤ worker_max_download_bytes)

  abbrev Ends : Attempt → Type 0
  Ends a = (content : Text) → a ≡ done (returned content) → IsWithin content

  if-Ends :
      (test : Bool) {x y : Attempt}
      → (test ≡ true → Ends x)
      → (test ≡ false → Ends y)
      → Ends (if test then x else y)
  if-Ends true p q = p refl
  if-Ends false p q = q refl

  read_chunks-Ends :
      (content : Text) (received : ℕ) (chunks : List Chunk)
      → length content ≡ received
      → received ≤ worker_max_download_bytes
      → Ends (read_chunks worker_max_download_bytes content received chunks)
  unfolding read_chunks
  read_chunks-Ends content received [] l b =
      if-Ends (received == 0) (λ empty result e. cc)
        (λ filled result e.
          let same : content ≡ result = cc in subst IsWithin same (ground arith, omega (arith, l)))
  read_chunks-Ends content received (broken ∷ chunks) l b = λ result e. cc
  read_chunks-Ends content received (bytes chunk ∷ chunks) l b =
      if-Ends (is_empty chunk) (λ empty. read_chunks-Ends content received chunks l b)
        (λ filled.
          if-Ends (ltb worker_max_download_bytes (received + length chunk)) (λ large result e. cc)
            (λ fits.
              read_chunks-Ends (content ++ chunk) (received + length chunk) chunks
                (length-append content chunk ∙ ap (λ n. n + length chunk) l) (ground arith)))

  judge_fetch-Ends :
      (is_last : Bool) (f : Fetch) → Ends (judge_fetch worker_max_download_bytes is_last f)
  unfolding judge_fetch
  judge_fetch-Ends is_last failed = λ result e. cc
  judge_fetch-Ends is_last (fetched status content_length chunks) =
      if-Ends (status == 404) (λ gone result e. cc)
        (λ there.
          if-Ends (status == 429 || leb 500 status || status == 408 || status == 425)
            (λ transient. if-Ends is_last (λ last result e. cc) (λ first result e. cc))
            (λ lasting.
              if-Ends (leb 400 status) (λ rejected result e. cc)
                (λ accepted.
                  if-Ends (is_too_long worker_max_download_bytes content_length)
                    (λ long result e. cc)
                    (λ short. read_chunks-Ends [] 0 chunks refl (omega arith)))))

  abbrev Returns : Outcome Text → Type 0
  Returns outcome = (content : Text) → outcome ≡ returned content → IsWithin content

  next_attempt-Returns :
      (is_last : Bool) (a : Attempt) (rest : Outcome Text)
      → Ends a
      → Returns rest
      → Returns (next_attempt worker_max_download_bytes is_last a rest)
  next_attempt-Returns is_last (done outcome) rest p q = λ content e. p content (ap done e)
  next_attempt-Returns is_last retry rest p q = q
  next_attempt-Returns true again rest p q = λ content e. cc
  next_attempt-Returns false again rest p q = q

  download_loop-Returns :
      (fetch : ℕ → Fetch) (retries attempt left : ℕ)
      → Returns (download_loop worker_max_download_bytes fetch retries attempt left)
  unfolding download_loop
  download_loop-Returns fetch retries attempt zero = λ content e. cc
  download_loop-Returns fetch retries attempt (suc left) =
      let is_last = leb retries (attempt + 1) in
      next_attempt-Returns is_last (judge_fetch worker_max_download_bytes is_last (fetch attempt))
        (download_loop worker_max_download_bytes fetch retries (attempt + 1) left)
        (judge_fetch-Ends is_last (fetch attempt))
        (download_loop-Returns fetch retries (attempt + 1) left)

  -- A download that returns has at least a byte and at most the limit, whatever the storage sends in the attempts.
  pub download-IsWithin :
      (is_valid_url : Text → Bool) (fetch : ℕ → Fetch) (retries : ℕ) (download_url : Option Text)
      {content : Text}
      → download worker_max_download_bytes is_valid_url fetch retries download_url
        ≡ returned content
      → (1 ≤ length content) × (length content ≤ worker_max_download_bytes)
  unfolding download
  download-IsWithin is_valid_url fetch retries none e = cc
  download-IsWithin is_valid_url fetch retries (some []) e = cc
  download-IsWithin is_valid_url fetch retries (some (c ∷ url)) {content} e =
      elim (Bool-cases (not (is_valid_url (c ∷ url)))) [
        | inl invalid ↦ let refused = rw invalid at e in cc
        | inr valid ↦ download_loop-Returns fetch retries 0 retries content (rw valid at e)
      ]
