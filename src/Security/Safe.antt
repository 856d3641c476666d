-- ===== src/Security/Safe.antt =====
-- backend/app/web_security.py: what holds of the settings that boot in production.
use race_frame.Prelude.{
  ℕ, ◌≤◌, ◌≡◌, refl, true, false, not, ◌||◌, List, [], ◌∷◌, ◌++◌, Option, none, some, map, length,
  is_empty, any, All, All-parts, codes, arith, Bool-cases, inl, inr,
}
use race_frame.Matching.Token.{Text, text_eq_sound, is_member}
use race_frame.Matching.Substring.{is_prefix}
use race_frame.Archive.Bytes.{encode_utf8}
use race_frame.Uploads.Image.{lower, text_or_empty}
use race_frame.Security.Settings.{pos, SecuritySettings, is_production}
use race_frame.Security.Configuration.{
  SplitUrl, Problem, boots, Check, problem_if, gather, is_open_host, is_invalid_origin, is_sqlite,
  r2_values, missing_names, positive_limits, positive_checks, within, range_checks, parsed_check,
  origin_checks, first_checks, r2_checks, production_checks, raise_for,
  validate_production_configuration,
}
use race_frame.Security.Cleared.{
  IsClear, gather-IsClear, problem_if-cleared, HasKeyLength, short_bytes-cleared,
  missing_names-cleared, r2_problem-cleared, AtLeast, Between, positive_checks-cleared,
  within-Between, no_open_host, filled, is_filled, is_empty-nil,
}

module _ (low : ℕ → Text) (urlsplit : Text → Option SplitUrl) where
  -- An origin that is an HTTPS URL with nothing but its host, which is one of the allowed hosts.
  pub record IsSafeOrigin (settings : SecuritySettings) (origin : Text) : Type 0 where
    pub parsed : SplitUrl
    pub splits : urlsplit origin ≡ some parsed
    pub is_https : parsed.scheme ≡ codes "https"
    pub short_path : is_member parsed.url_path ([] ∷ codes "/" ∷ []) ≡ true
    pub no_query : parsed.query ≡ []
    pub no_fragment : parsed.fragment ≡ []
    pub no_username : text_or_empty parsed.username ≡ []
    pub no_password : text_or_empty parsed.password ≡ []
    pub listed :
        is_member
          (lower low (text_or_empty parsed.hostname))
          (map (lower low) settings.allowed_hosts)
        ≡ true

  pub record IsSafe (settings : SecuritySettings) : Type 0 where
    pub database : is_sqlite low settings ≡ false
    pub secret_key : HasKeyLength settings.app_secret_key
    pub worker_token : HasKeyLength settings.worker_api_token
    pub metrics_token : HasKeyLength settings.metrics_api_token
    pub has_host : 1 ≤ length settings.allowed_hosts
    pub closed_hosts : All (λ h. is_open_host h ≡ false) settings.allowed_hosts
    pub has_origin : 1 ≤ length settings.public_origins
    pub origins : All (IsSafeOrigin settings) settings.public_origins
    pub has_r2 : All (λ v. 1 ≤ length v.1) (r2_values settings)
    pub r2_https : is_prefix (codes "https://") (lower low settings.r2_endpoint) ≡ true
    pub limits : All (λ l. AtLeast 1 l.1) (positive_limits settings)
    pub lease : Between 30 settings.worker_lease_seconds 3_600
    pub attempts : Between 1 settings.worker_max_attempts 20
    pub retry_base : Between 1 settings.worker_retry_base_seconds 3_600
    pub retry_max :
        (base : ℕ) × (settings.worker_retry_base_seconds ≡ pos base)
        × Between base settings.worker_retry_max_seconds 86_400

  raise_for-boots : (check : Check) → raise_for low urlsplit check ≡ boots → check ≡ some []
  raise_for-boots none h = cc
  raise_for-boots (some []) h = refl
  raise_for-boots (some (problem ∷ problems)) h = cc

  parsed_check-IsSafeOrigin :
      (settings : SecuritySettings) (origin : Text) (split : Option SplitUrl)
      → urlsplit origin ≡ split
      → IsClear (parsed_check low urlsplit settings origin split)
      → IsSafeOrigin settings origin
  unfolding is_invalid_origin
  parsed_check-IsSafeOrigin settings origin none e h = cc
  parsed_check-IsSafeOrigin settings origin (some parsed) e h =
      elim (Bool-cases (is_invalid_origin parsed)) [
        | inl bad ↦
            let absurd_clear : IsClear (some (Problem.invalid_origin origin ∷ [])) = rw bad at h in
            cc
        | inr good ↦
            let hosts = map (lower low) settings.allowed_hosts in
            let host = lower low (text_or_empty parsed.hostname) in
            let known =
              problem_if-cleared (not (is_member host hosts))
                (Problem.unlisted_host (text_or_empty parsed.hostname)) (rw good at h) in
            record {
              parsed = parsed;
              splits = e;
              is_https = text_eq_sound parsed.scheme (codes "https") (ground arith);
              short_path = ground arith;
              no_query = is_empty-nil parsed.query (ground arith);
              no_fragment = is_empty-nil parsed.fragment (ground arith);
              no_username = is_empty-nil (text_or_empty parsed.username) (ground arith);
              no_password = is_empty-nil (text_or_empty parsed.password) (ground arith);
              listed = ground arith;
            }
      ]

  origin_checks-IsSafe :
      (settings : SecuritySettings) (origins : List Text)
      → All IsClear (origin_checks low urlsplit settings origins)
      → All (IsSafeOrigin settings) origins
  unfolding origin_checks
  origin_checks-IsSafe settings [] h = tt
  origin_checks-IsSafe settings (origin ∷ origins) (first, h) = (
    parsed_check-IsSafeOrigin settings origin (urlsplit origin) refl first,
    origin_checks-IsSafe settings origins h,
  )

  range-Between :
      (settings : SecuritySettings) (base : ℕ)
      → settings.worker_retry_base_seconds ≡ pos base
      → IsClear (
          problem_if
            (not (
              within settings.worker_retry_base_seconds settings.worker_retry_max_seconds
                (pos 86_400)))
            Problem.retry_max_range)
      → Between base settings.worker_retry_max_seconds 86_400
  range-Between settings base e h =
      within-Between base settings.worker_retry_max_seconds 86_400 Problem.retry_max_range
        (rw e at h)

  checks-IsSafe :
      (settings : SecuritySettings)
      → All IsClear (production_checks low urlsplit settings)
      → IsSafe settings
  unfolding production_checks first_checks r2_checks range_checks r2_values
  checks-IsSafe settings h =
      let limit_checks = positive_checks (positive_limits settings) in
      let after_r2 = limit_checks ++ range_checks settings in
      let after_origins = r2_checks low urlsplit settings ++ after_r2 in
      let every_origin = origin_checks low urlsplit settings settings.public_origins in
      let (first, h1) =
        All-parts IsClear (first_checks low urlsplit settings) (every_origin ++ after_origins) h in
      let (of_origins, h2) = All-parts IsClear every_origin after_origins h1 in
      let (of_r2, h3) = All-parts IsClear (r2_checks low urlsplit settings) after_r2 h2 in
      let (of_limits, ranges) = All-parts IsClear limit_checks (range_checks settings) h3 in
      let (c_sqlite, (c_secret, (c_worker, (c_metrics, (c_hosts, (c_origin, _)))))) = first in
      let (c_r2, (c_https, _)) = of_r2 in
      let (c_lease, (c_attempts, (c_base, (c_max, _)))) = ranges in
      let no_open =
        problem_if-cleared
          (is_empty settings.allowed_hosts || any is_open_host settings.allowed_hosts)
          Problem.open_hosts c_hosts in
      let some_origin =
        problem_if-cleared (is_empty settings.public_origins) Problem.no_origin c_origin in
      let values =
        missing_names-cleared (r2_values settings)
          (r2_problem-cleared (missing_names (r2_values settings)) c_r2) in
      let endpoint = is_filled settings.r2_endpoint values.1.1.0 in
      let https = problem_if-cleared _ Problem.insecure_r2 c_https in
      let (base, base_is, low_base, high_base) =
        within-Between 1 settings.worker_retry_base_seconds 3_600 Problem.retry_base_range c_base in
      record {
        database = problem_if-cleared (is_sqlite low settings) Problem.sqlite c_sqlite;
        secret_key =
            short_bytes-cleared (encode_utf8 settings.app_secret_key) Problem.short_secret_key
              c_secret;
        worker_token =
            short_bytes-cleared (encode_utf8 settings.worker_api_token) Problem.short_worker_token
              c_worker;
        metrics_token =
            short_bytes-cleared (encode_utf8 settings.metrics_api_token) Problem.short_metrics_token
              c_metrics;
        has_host = filled settings.allowed_hosts (any is_open_host settings.allowed_hosts) no_open;
        closed_hosts = no_open_host settings.allowed_hosts (ground arith);
        has_origin = filled settings.public_origins false (ground arith);
        origins = origin_checks-IsSafe settings settings.public_origins of_origins;
        has_r2 = values;
        r2_https = ground arith;
        limits = positive_checks-cleared (positive_limits settings) of_limits;
        lease = within-Between 30 settings.worker_lease_seconds 3_600 Problem.lease_range c_lease;
        attempts =
            within-Between 1 settings.worker_max_attempts 20 Problem.attempts_range c_attempts;
        retry_base = (base, base_is, low_base, high_base);
        retry_max = (base, base_is, range-Between settings base base_is c_max);
      }

  -- In production the backend boots only on a safe configuration: another database than SQLite, keys of 32
  -- bytes, explicit hosts, HTTPS origins on those hosts, a complete object storage over HTTPS, positive limits,
  -- and the leases, attempts and retries within their ranges.
  pub validate_production_configuration-IsSafe :
      (settings : SecuritySettings)
      → is_production settings ≡ true
      → validate_production_configuration low urlsplit settings ≡ boots
      → IsSafe settings
  unfolding validate_production_configuration is_production
  validate_production_configuration-IsSafe settings production booted =
      let raised : raise_for low urlsplit (gather (production_checks low urlsplit settings))
          ≡ boots =
        rw production at booted in
      checks-IsSafe settings (
        gather-IsClear (production_checks low urlsplit settings)
          (raise_for-boots (gather (production_checks low urlsplit settings)) raised))
