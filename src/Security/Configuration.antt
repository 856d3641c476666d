-- ===== src/Security/Configuration.antt =====
-- backend/app/web_security.py: `validate_production_configuration`. `urlsplit` is an argument, its
-- `none` a ValueError; an error that is raised within is an exception of the whole.
use race_frame.Prelude.{
  ℕ, Bool, true, false, not, ◌&&◌, ◌||◌, List, [], ◌∷◌, ◌++◌, Option, none, some, map, ltb,
  if◌then◌else◌, length, is_empty, any, codes,
}
use race_frame.Matching.Token.{Text, text_eq, is_member}
use race_frame.Matching.Substring.{is_prefix, is_substring}
use race_frame.Archive.Bytes.{Bytes, encode_utf8}
use race_frame.Uploads.Image.{lower, text_or_empty}
use race_frame.Security.Settings.{
  ℤ, pos, is_positive, leb_ℤ, SecuritySettings, production_environments, is_production,
}

-- The parts of a URL that are read.
pub record SplitUrl : Type 0 where
  pub scheme : Text
  pub hostname : Option Text
  pub url_path : Text
  pub query : Text
  pub fragment : Text
  pub username : Option Text
  pub password : Option Text
  pub port : Option (Option ℕ)

pub data Problem : Type 0 where
  sqlite short_secret_key short_worker_token short_metrics_token open_hosts no_origin insecure_r2 :
      Problem
  lease_range attempts_range retry_base_range retry_max_range : Problem
  invalid_origin : Text → Problem
  unlisted_host : Text → Problem
  incomplete_r2 : List Text → Problem
  not_positive : Text → Problem

-- Whether the backend boots, and else with which error it stops.
pub data Boot : Type 0 where
  boots unknown_environment not_explicit value_error : Boot
  unsafe_configuration : List Problem → Boot

-- A check: the problems that it appends, or `none` if it raises.
abbrev pub Check : Type 0
Check = Option (List Problem)

abbrev pub problem_if : Bool → Problem → Check
problem_if true problem = some (problem ∷ [])
problem_if false problem = some []

abbrev pub both : Check → Check → Check
both none _ = none
both (some ps) none = none
both (some ps) (some qs) = some (ps ++ qs)

unfoldable pub gather : List Check → Check
gather [] = some []
gather (check ∷ checks) = both check (gather checks)

-- `len(value.encode("utf-8")) < 32`
abbrev pub short_bytes : Option Bytes → Problem → Check
short_bytes none problem = none
short_bytes (some bytes) problem = problem_if (ltb (length bytes) 32) problem

abbrev pub is_open_host : Text → Bool
is_open_host host =
    is_substring (codes "*") host
    || (is_substring (codes "://") host || is_substring (codes "/") host)

unfoldable pub is_invalid_origin : SplitUrl → Bool
is_invalid_origin parsed =
    not (text_eq parsed.scheme (codes "https"))
    || (is_empty (text_or_empty parsed.hostname)
        || (not (is_member parsed.url_path ([] ∷ codes "/" ∷ []))
            || (not (is_empty parsed.query)
                || (not (is_empty parsed.fragment)
                    || (not (is_empty (text_or_empty parsed.username))
                        || not (is_empty (text_or_empty parsed.password)))))))

unfoldable pub is_sqlite : (ℕ → Text) → SecuritySettings → Bool
unfolding lower
is_sqlite low settings = is_prefix (codes "sqlite") (lower low settings.database_url)

unfoldable pub r2_values : SecuritySettings → List (Text × Text)
r2_values settings =
    (codes "CLOUDFLARE_R2_ACCOUNT_ID", settings.r2_account_id)
    ∷ (codes "CLOUDFLARE_R2_BUCKET_NAME", settings.r2_bucket_name)
    ∷ (codes "CLOUDFLARE_R2_ENDPOINT", settings.r2_endpoint)
    ∷ (codes "CLOUDFLARE_R2_ACCESS_KEY_ID", settings.r2_access_key_id)
    ∷ (codes "CLOUDFLARE_R2_SECRET_ACCESS_KEY", settings.r2_secret_access_key)
    ∷ []

unfoldable pub missing_names : List (Text × Text) → List Text
missing_names [] = []
missing_names ((name, value) ∷ values) =
    if is_empty value then name ∷ missing_names values else missing_names values

abbrev pub r2_problem : List Text → Check
r2_problem [] = some []
r2_problem (name ∷ names) = some (incomplete_r2 (name ∷ names) ∷ [])

unfoldable pub positive_limits : SecuritySettings → List (Text × ℤ)
positive_limits settings =
    (codes "MAX_PHOTO_UPLOAD_BYTES", settings.max_photo_upload_bytes)
    ∷ (codes "MAX_SELFIE_UPLOAD_BYTES", settings.max_selfie_upload_bytes)
    ∷ (codes "MAX_PHOTO_BATCH_FILES", settings.max_photo_batch_files)
    ∷ (codes "MAX_SELFIE_BATCH_FILES", settings.max_selfie_batch_files)
    ∷ (codes "MAX_FACE_SEARCH_BACKLOG", settings.max_face_search_backlog)
    ∷ (codes "MAX_PHOTO_JOB_BACKLOG", settings.max_photo_job_backlog)
    ∷ (codes "SEARCH_CAPABILITY_TTL_SECONDS", settings.search_capability_ttl_seconds)
    ∷ (codes "MAX_PHOTO_REQUEST_BYTES", settings.max_photo_request_bytes)
    ∷ (codes "MAX_FORM_REQUEST_BYTES", settings.max_form_request_bytes)
    ∷ (codes "WORKER_HEARTBEAT_STALE_SECONDS", settings.worker_heartbeat_stale_seconds)
    ∷ (codes "WORKER_LEASE_SECONDS", settings.worker_lease_seconds)
    ∷ (codes "WORKER_MAX_ATTEMPTS", settings.worker_max_attempts)
    ∷ (codes "WORKER_RETRY_BASE_SECONDS", settings.worker_retry_base_seconds)
    ∷ (codes "WORKER_RETRY_MAX_SECONDS", settings.worker_retry_max_seconds)
    ∷ (codes "DELETION_TASK_RETENTION_DAYS", settings.deletion_task_retention_days)
    ∷ (codes "WORKER_HEARTBEAT_RETENTION_DAYS", settings.worker_heartbeat_retention_days)
    ∷ []

unfoldable pub positive_checks : List (Text × ℤ) → List Check
positive_checks [] = []
positive_checks ((name, value) ∷ limits) =
    problem_if (not (is_positive value)) (not_positive name) ∷ positive_checks limits

-- `low <= value <= high`
abbrev pub within : ℤ → ℤ → ℤ → Bool
within low value high = leb_ℤ low value && leb_ℤ value high

unfoldable pub range_checks : SecuritySettings → List Check
range_checks settings =
    problem_if (not (within (pos 30) settings.worker_lease_seconds (pos 3_600))) lease_range
    ∷ problem_if (not (within (pos 1) settings.worker_max_attempts (pos 20))) attempts_range
    ∷ problem_if (not (within (pos 1) settings.worker_retry_base_seconds (pos 3_600)))
        retry_base_range
    ∷ problem_if
        (not (
          within settings.worker_retry_base_seconds settings.worker_retry_max_seconds (pos 86_400)))
        retry_max_range
    ∷ []

-- The environments beside the production ones.
abbrev pub other_environments : List Text
other_environments = codes "development" ∷ codes "dev" ∷ codes "test" ∷ []

module _ (low : ℕ → Text) (urlsplit : Text → Option SplitUrl) where
  abbrev pub parsed_check : SecuritySettings → Text → Option SplitUrl → Check
  parsed_check settings origin none = none
  parsed_check settings origin (some parsed) =
      if is_invalid_origin parsed
      then some (invalid_origin origin ∷ [])
      else problem_if
          (not (
            is_member (lower low (text_or_empty parsed.hostname))
              (map (lower low) settings.allowed_hosts)))
          (unlisted_host (text_or_empty parsed.hostname))

  unfoldable pub origin_checks : SecuritySettings → List Text → List Check
  unfolding lower is_invalid_origin
  origin_checks settings [] = []
  origin_checks settings (origin ∷ origins) =
      parsed_check settings origin (urlsplit origin) ∷ origin_checks settings origins

  unfoldable pub first_checks : SecuritySettings → List Check
  unfolding is_sqlite encode_utf8
  first_checks settings =
      problem_if (is_sqlite low settings) sqlite
      ∷ short_bytes (encode_utf8 settings.app_secret_key) short_secret_key
      ∷ short_bytes (encode_utf8 settings.worker_api_token) short_worker_token
      ∷ short_bytes (encode_utf8 settings.metrics_api_token) short_metrics_token
      ∷ problem_if (is_empty settings.allowed_hosts || any is_open_host settings.allowed_hosts)
          open_hosts
      ∷ problem_if (is_empty settings.public_origins) no_origin
      ∷ []

  unfoldable pub r2_checks : SecuritySettings → List Check
  unfolding r2_values missing_names lower
  r2_checks settings =
      r2_problem (missing_names (r2_values settings))
      ∷ problem_if
          (not (is_empty settings.r2_endpoint)
            && not (is_prefix (codes "https://") (lower low settings.r2_endpoint)))
          insecure_r2
      ∷ []

  unfoldable pub production_checks : SecuritySettings → List Check
  unfolding first_checks origin_checks r2_checks positive_checks positive_limits range_checks
  production_checks settings =
      first_checks settings
      ++ (origin_checks settings settings.public_origins
          ++ (r2_checks settings
              ++ (positive_checks (positive_limits settings) ++ range_checks settings)))

  abbrev pub raise_for : Check → Boot
  raise_for none = value_error
  raise_for (some []) = boots
  raise_for (some (problem ∷ problems)) = unsafe_configuration (problem ∷ problems)

  unfoldable pub validate_production_configuration : SecuritySettings → Boot
  unfolding is_production is_sqlite gather production_checks
  validate_production_configuration settings =
      if not (is_member settings.environment production_environments)
        && not (is_member settings.environment other_environments)
      then unknown_environment
      else if not (is_production settings)
      then (if (not (is_sqlite low settings) && not (is_empty settings.r2_bucket_name))
            && is_member settings.environment (codes "development" ∷ codes "dev" ∷ [])
          then not_explicit
          else boots)
      else raise_for (gather (production_checks settings))
