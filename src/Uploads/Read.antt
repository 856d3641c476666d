-- ===== src/Uploads/Read.antt =====
-- backend/app/uploads.py: `read_upload_limited`. The upload is its bytes, as Starlette has spooled them.
use race_frame.Prelude.{
  ℕ, ◌+◌, [], ◌∷◌, Option, none, some, ltb, ◌==◌, if◌then◌else◌, take, length, is_empty,
}
use race_frame.Matching.Token.{Text}
use race_frame.Limits.Headers.{parse_int, exceeds}

pub data UploadResult : Type 0 where
  read : Text → UploadResult
  http_error : ℕ → UploadResult
  runtime_error : UploadResult

-- The status of a declared length that refuses the upload; an empty header declares nothing.
unfoldable pub declared_error : ℕ → Option Text → Option ℕ
unfolding parse_int
declared_error limit none = none
declared_error limit (some []) = none
declared_error limit (some (c ∷ declared)) = elim (parse_int (c ∷ declared)) [
  | none ↦ some 400
  | some n ↦ if exceeds n limit then some 413 else none
]

-- The content that `upload.read(limit + 1)` returned.
unfoldable pub checked : ℕ → Text → UploadResult
checked limit content =
    if ltb limit (length content)
    then http_error 413
    else if is_empty content
    then http_error 400
    else read content

unfoldable pub read_declared : ℕ → Option ℕ → Text → UploadResult
unfolding checked take
read_declared limit (some status_code) stored = http_error status_code
read_declared limit none stored = checked limit (take (limit + 1) stored)

unfoldable pub read_upload_limited : ℕ → Option Text → Text → UploadResult
unfolding read_declared declared_error
read_upload_limited limit declared stored =
    if limit == 0 then runtime_error else read_declared limit (declared_error limit declared) stored
