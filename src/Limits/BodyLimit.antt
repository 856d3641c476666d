-- ===== src/Limits/BodyLimit.antt =====
-- backend/app/web_security.py: `RequestBodyLimitMiddleware`.
use race_frame.Prelude.{
  ℕ, ◌+◌, ◌*◌, min, not, ◌&&◌, ◌||◌, List, [], ◌∷◌, Option, none, some, if◌then◌else◌, codes,
}
use race_frame.Matching.Token.{Text, text_eq, is_member, upper}
use race_frame.Matching.Substring.{is_prefix}
use race_frame.Limits.Headers.{Scope, ends_with, get_header, parse_int, is_negative, exceeds}
use race_frame.Limits.Receive.{
  Message, App, Outcome, responded, body_too_large, waiting, run_app, run_limited,
}

pub record LimitSettings : Type 0 where
  pub max_photo_upload_bytes : ℕ
  pub max_photo_batch_files : ℕ
  pub max_photo_request_bytes : ℕ
  pub max_selfie_upload_bytes : ℕ
  pub max_selfie_batch_files : ℕ
  pub max_participant_upload_bytes : ℕ
  pub max_event_thumbnail_upload_bytes : ℕ
  pub max_form_request_bytes : ℕ

abbrev pub safe_methods : List Text
safe_methods = codes "GET" ∷ codes "HEAD" ∷ codes "OPTIONS" ∷ []

abbrev pub overhead : ℕ
overhead = 1_048_576

-- The status of a request that its Content-Length already refuses.
unfoldable pub refuse_declared : ℕ → Option Text → Option ℕ
unfolding parse_int
refuse_declared limit none = none
refuse_declared limit (some declared_length) = elim (parse_int declared_length) [
  | none ↦ some 400
  | some n ↦ if is_negative n then some 400 else if exceeds n limit then some 413 else none
]

abbrev pub answer : Outcome × List Message → Outcome × List Message
answer (body_too_large, delivered) = (responded 413, delivered)
answer (responded status_code, delivered) = (responded status_code, delivered)
answer (waiting, delivered) = (waiting, delivered)

-- Behind the check of the declared length.
unfoldable pub limited_call : Option ℕ → ℕ → App → List Message → Outcome × List Message
unfolding run_limited
limited_call (some status_code) limit app messages = (responded status_code, [])
limited_call none limit app messages = answer (run_limited limit 0 app messages)

module _ (wide : ℕ → Text) (settings : LimitSettings) where
  unfoldable pub limit_for : Scope → Option ℕ
  limit_for scope =
      let path = scope.path in
      if not (text_eq scope.scope_type (codes "http"))
        || is_member (upper wide scope.method) safe_methods
      then none
      else if is_prefix (codes "/internal/worker/") path
      then none
      else if is_prefix (codes "/upload/events/") path
      then some (
          min (settings.max_photo_upload_bytes * settings.max_photo_batch_files + overhead)
            settings.max_photo_request_bytes)
      else if is_prefix (codes "/user/events/") path && ends_with (codes "/selfies") path
      then some (settings.max_selfie_upload_bytes * settings.max_selfie_batch_files + overhead)
      else if is_prefix (codes "/admin/events/") path
          && ends_with (codes "/participants/upload") path
      then some (settings.max_participant_upload_bytes + overhead)
      else if text_eq path (codes "/admin/events/new")
          || (is_prefix (codes "/admin/events/") path && ends_with (codes "/edit") path)
      then some (settings.max_event_thumbnail_upload_bytes + overhead)
      else some settings.max_form_request_bytes

  -- `__call__`: the response, and the messages that the application was given.
  unfoldable pub call : App → Scope → List Message → Outcome × List Message
  unfolding limit_for get_header refuse_declared run_app limited_call
  call app scope messages = elim (limit_for scope) [
    | none ↦ run_app app messages
    | some limit ↦
        limited_call (refuse_declared limit (get_header (codes "content-length") scope.headers))
          limit app messages
  ]
