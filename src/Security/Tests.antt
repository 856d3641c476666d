-- ===== src/Security/Tests.antt =====
-- The browser's side of the backend at concrete settings and requests.
use race_frame.Prelude.{
  codes, ℕ, arith, All, ◌≤◌, ◌≡◌, refl, true, false, List, [], ◌∷◌, ◌++◌, Option, none, some,
}
use race_frame.Matching.Token.{Text, upper}
use race_frame.Archive.Bytes.{encode_utf8}
use race_frame.Uploads.Image.{lower}
use race_frame.Security.Settings.{pos, negsuc, SecuritySettings, is_production}
use race_frame.Security.Configuration.{
  SplitUrl, Problem, unsafe_configuration, gather, is_invalid_origin, is_sqlite, r2_values,
  missing_names, positive_limits, positive_checks, range_checks, origin_checks, first_checks,
  r2_checks, production_checks, validate_production_configuration,
}
use race_frame.Security.Safe.{IsSafe, validate_production_configuration-IsSafe}
use race_frame.Security.Base64.{
  urlsafe_b64encode, rstrip_pad, b64encode, translate, a2b_base64, replicate, padding, b64decode,
}
use race_frame.Security.Base64.RoundTrip.{b64decode-b64encode}
use race_frame.Security.Capability.{
  SearchCapability, split_dot, owner_binding_hash, signature_of, issued, issue_search_capability,
  check_owner, check_payload, check_parts, decode_search_capability,
}
use race_frame.Security.Capability.Genuine.{IsGenuine, decode_search_capability-IsGenuine}
use race_frame.Security.Capability.Issued.{decode-issue_search_capability}
use race_frame.Security.UnaryCodec.{put_number, put_text, parse, toy_crypto, toy_crypto-IsCodec}
use race_frame.Archive.Decimal.{digits, str}
use race_frame.Uploads.Image.{strip_behind, strip_before}
use race_frame.Limits.SlidingWindow
use race_frame.Limits.SlidingWindow.{timestamps_of, pop_expired, without, put_last, drop_first}
use race_frame.Limits.InFlight.{get, set, pop, enter, leave}
use race_frame.Security.Request.{
  BrowserRequest, value_of, cookie_of, csrf_cookie, secure_cookies, normalized_origin,
  configured_origins, allowed_origins, request_origin_is_allowed, require_browser_csrf,
  valid_browser_token, before_comma, client_ip,
}
use race_frame.Security.Admission.{
  Outside, Limiters, refused, forwarded, run_checks, enter_category, public_search,
  has_browser_admission_context, search_checks, upload_checks, split_slash, admit, release,
}
use race_frame.Security.InService.{
  InService, quiet, arrives, in_category, fresh, InService-AreCounted,
}
use race_frame.Security.Response.{
  Token, BrowserResponse, SetCookie, remove_header, set_header, set_headers, fixed_headers,
  transport_header, private_headers, content_security_policy, security_headers, finalize_response,
}
use race_frame.Security.Response.Hardened.{AreSet, IsProtected, finalize_response-IsHardened}

abbrev ascii : ℕ → Text
ascii c = c ∷ []

abbrev key_text : Text
key_text = codes "0123456789abcdef0123456789abcdef"

abbrev live : SecuritySettings
live = record {
  environment = codes "production";
  database_url = codes "postgresql://db";
  app_secret_key = key_text;
  worker_api_token = key_text;
  metrics_api_token = key_text;
  allowed_hosts = codes "race.example" ∷ [];
  public_origins = codes "https://Race.example" ∷ [];
  r2_account_id = codes "a";
  r2_bucket_name = codes "b";
  r2_endpoint = codes "https://r2.example";
  r2_access_key_id = codes "k";
  r2_secret_access_key = codes "s";
  max_photo_upload_bytes = pos 26_214_400;
  max_selfie_upload_bytes = pos 10_485_760;
  max_photo_batch_files = pos 50;
  max_selfie_batch_files = pos 5;
  max_face_search_backlog = pos 100;
  max_photo_job_backlog = pos 10_000;
  search_capability_ttl_seconds = pos 3_600;
  max_photo_request_bytes = pos 268_435_456;
  max_form_request_bytes = pos 2_097_152;
  worker_heartbeat_stale_seconds = pos 120;
  worker_lease_seconds = pos 300;
  worker_max_attempts = pos 5;
  worker_retry_base_seconds = pos 10;
  worker_retry_max_seconds = pos 900;
  deletion_task_retention_days = pos 7;
  worker_heartbeat_retention_days = pos 30;
}

-- The parts of the one URL of the tests.
abbrev race_url : Text → Option SplitUrl
race_url url = some (record {
  scheme = codes "https";
  hostname = some (codes "race.example");
  url_path = [];
  query = [];
  fragment = [];
  username = none;
  password = none;
  port = some none;
})

configured : Unit {0}
unfolding encode_utf8 lower is_production gather is_invalid_origin is_sqlite r2_values missing_names
    positive_limits positive_checks range_checks origin_checks first_checks r2_checks
    production_checks validate_production_configuration
configured = tt

refused_lease :
    validate_production_configuration ascii race_url
      (record live { worker_lease_seconds = negsuc 0 })
    ≡ unsafe_configuration
        (Problem.not_positive (codes "WORKER_LEASE_SECONDS") ∷ Problem.lease_range ∷ [])
unfolding configured
refused_lease = refl

validate_production_configuration-IsSafe_example : IsSafe ascii race_url live
unfolding configured
validate_production_configuration-IsSafe_example =
    validate_production_configuration-IsSafe ascii race_url live refl refl

coded : b64encode (codes "light w") ≡ codes "bGlnaHQgdw"
unfolding b64encode urlsafe_b64encode rstrip_pad
coded = refl

lenient : b64decode (codes "b G+n-") ≡ none
unfolding b64decode padding replicate translate a2b_base64
lenient = refl

b64decode-b64encode_example :
    b64decode (b64encode (255 ∷ 0 ∷ 62 ∷ 9 ∷ [])) ≡ some (255 ∷ 0 ∷ 62 ∷ 9 ∷ [])
b64decode-b64encode_example = b64decode-b64encode (255 ∷ 0 ∷ 62 ∷ 9 ∷ []) (omega arith)

signed : Unit {0}
unfolding encode_utf8 b64encode urlsafe_b64encode rstrip_pad b64decode padding replicate translate
    a2b_base64 split_dot owner_binding_hash signature_of issued issue_search_capability check_owner
    check_payload check_parts decode_search_capability put_number put_text parse
signed = tt

-- Issued at the start of the clock for a minute: the signature of the stand-in is "Bw".
abbrev ticket : SearchCapability
ticket = record {
  session_id = 5 ∷ [];
  event_id = 3 ∷ [];
  secret = codes "AQEBAQEAAgEBAQACAAIBAQEBAQEBAAIBAAI.Bw";
  expires_at = 1_500_000;
  capability_hash = 0 ∷ [];
  owner_hash = 7 ∷ [];
}

abbrev kept : SearchCapability
kept = record ticket { expires_at = 1_000_000 }

ticket_is :
    issue_search_capability toy_crypto 500_000 1 (0 ∷ []) (5 ∷ []) (3 ∷ []) (codes "v")
    ≡ some ticket
unfolding signed
ticket_is = refl

decode-issue_search_capability_example :
    decode_search_capability toy_crypto 999_999 ticket.secret (3 ∷ []) (codes "v") ≡ some kept
decode-issue_search_capability_example =
    decode-issue_search_capability toy_crypto toy_crypto-IsCodec 500_000 1 (0 ∷ []) (5 ∷ [])
      (3 ∷ []) (codes "v") ticket_is refl refl 999_999 (omega arith)

decode_search_capability-IsGenuine_example :
    IsGenuine toy_crypto 999_999 ticket.secret (3 ∷ []) (codes "v") kept
unfolding signed
decode_search_capability-IsGenuine_example =
    decode_search_capability-IsGenuine toy_crypto 999_999 ticket.secret (3 ∷ []) (codes "v") refl

abbrev outside : Outside
outside = record {
  settings = live;
  trust_proxy_headers = false;
  max_keys = 10;
  low = ascii;
  is_alnum = λ c. false;
  urlsplit = race_url;
  ip_address = some;
}

abbrev search_request : BrowserRequest
search_request = record {
  method = codes "POST";
  path = codes "/user/events/e7/bib-only";
  url_scheme = codes "https";
  headers = (codes "origin", codes "https://race.example") ∷ [];
  cookies = (csrf_cookie, codes "tokentokentokentokentoken") ∷ [];
  client_host = some (codes "10.0.0.1");
}

answered : Unit {0}
unfolding digits str strip_behind strip_before lower upper is_production SlidingWindow.hit
    timestamps_of pop_expired without put_last drop_first get set pop enter leave value_of cookie_of
    secure_cookies normalized_origin configured_origins allowed_origins request_origin_is_allowed
    require_browser_csrf valid_browser_token before_comma client_ip run_checks enter_category
    has_browser_admission_context search_checks upload_checks split_slash admit release in_category
    remove_header set_header set_headers security_headers finalize_response
answered = tt

abbrev visitor_id : Text
visitor_id = codes "visitorvisitorvisitor"

abbrev at_noon : Text → ℕ
at_noon bucket = 43_200_000_000_000

abbrev after_one : Limiters
after_one = (admit outside at_noon search_request visitor_id fresh).1

goes_on : (admit outside at_noon search_request visitor_id fresh).0 ≡ forwarded (some public_search)
unfolding answered
goes_on = refl

-- The visitor's sixth search within the minute waits for the first to leave the window.
sixth_waits :
    (let again = λ (limiters : Limiters).
        (admit outside at_noon search_request visitor_id
          (release (some public_search) limiters)).1 in
      (admit outside at_noon search_request visitor_id
        (release (some public_search) (again (again (again (again after_one)))))).0)
    ≡ refused 429 61
unfolding answered
sixth_waits = refl

one_search : InService outside after_one (some public_search ∷ [])
unfolding answered
one_search = arrives quiet at_noon search_request visitor_id

InService-AreCounted_example :
    (get public_search after_one.counts ≡ 1) × (get public_search after_one.counts ≤ 4)
unfolding answered
InService-AreCounted_example = InService-AreCounted outside one_search public_search

abbrev page : BrowserResponse
page = record { headers = (codes "x-frame-options", codes "ALLOWALL") ∷ []; set_cookies = [] }

abbrev new_token : Token
new_token = record { token = codes "drawndrawndrawndrawndrawn"; is_new = true }

abbrev old_token : Token
old_token = record { token = codes "visitorvisitorvisitor"; is_new = false }

finalize_response-IsHardened_example :
    AreSet
      ((codes "content-security-policy", content_security_policy (codes "n")) ∷ fixed_headers)
      (finalize_response ascii live (codes "/user") (codes "n") new_token old_token page).headers
    × AreSet transport_header
        (finalize_response ascii live (codes "/user") (codes "n") new_token old_token page).headers
    × AreSet private_headers
        (finalize_response ascii live (codes "/user") (codes "n") new_token old_token page).headers
    × ((added : List SetCookie) × ((finalize_response ascii live
            (codes "/user")
            (codes "n")
            new_token
            old_token
            page).set_cookies
          ≡ [] ++ added)
        × All IsProtected added)
unfolding is_production
finalize_response-IsHardened_example =
    finalize_response-IsHardened ascii live refl (codes "/user") (codes "n") new_token old_token
      page
