-- ===== src/Security/Settings.antt =====
-- backend/app/config.py: the settings that backend/app/web_security.py reads, integers with their sign
-- since they are read from the environment.
use race_frame.Prelude.{ℕ, Bool, true, false, List, [], ◌∷◌, leb, codes}
use race_frame.Matching.Token.{Text, is_member}

-- `negsuc n` is -(n + 1).
pub data ℤ : Type 0 where
  pos : ℕ → ℤ
  negsuc : ℕ → ℤ

abbrev pub is_positive : ℤ → Bool
is_positive (pos n) = leb 1 n
is_positive (negsuc n) = false

-- `a <= b`
abbrev pub leb_ℤ : ℤ → ℤ → Bool
leb_ℤ (pos a) (pos b) = leb a b
leb_ℤ (pos a) (negsuc b) = false
leb_ℤ (negsuc a) (pos b) = true
leb_ℤ (negsuc a) (negsuc b) = leb b a

pub record SecuritySettings : Type 0 where
  pub environment : Text
  pub database_url : Text
  pub app_secret_key : Text
  pub worker_api_token : Text
  pub metrics_api_token : Text
  pub allowed_hosts : List Text
  pub public_origins : List Text
  pub r2_account_id : Text
  pub r2_bucket_name : Text
  pub r2_endpoint : Text
  pub r2_access_key_id : Text
  pub r2_secret_access_key : Text
  pub max_photo_upload_bytes : ℤ
  pub max_selfie_upload_bytes : ℤ
  pub max_photo_batch_files : ℤ
  pub max_selfie_batch_files : ℤ
  pub max_face_search_backlog : ℤ
  pub max_photo_job_backlog : ℤ
  pub search_capability_ttl_seconds : ℤ
  pub max_photo_request_bytes : ℤ
  pub max_form_request_bytes : ℤ
  pub worker_heartbeat_stale_seconds : ℤ
  pub worker_lease_seconds : ℤ
  pub worker_max_attempts : ℤ
  pub worker_retry_base_seconds : ℤ
  pub worker_retry_max_seconds : ℤ
  pub deletion_task_retention_days : ℤ
  pub worker_heartbeat_retention_days : ℤ

abbrev pub production_environments : List Text
production_environments = codes "production" ∷ codes "prod" ∷ codes "staging" ∷ []

unfoldable pub is_production : SecuritySettings → Bool
is_production settings = is_member settings.environment production_environments
