-- ===== src/Security/Admission.antt =====
-- backend/app/web_security.py: `BrowserSecurityMiddleware.dispatch` up to `call_next`, and behind it. None of
-- the methods that it awaits suspends while it holds its lock, so each part is one step.
use race_frame.Prelude.{
  ℕ, zero, suc, Bool, true, false, ◌&&◌, ◌||◌, List, [], ◌∷◌, Option, none, some, ◌==◌,
  if◌then◌else◌, codes,
}
use race_frame.Matching.Token.{Text, text_eq}
use race_frame.Matching.Substring.{is_prefix}
use race_frame.Limits.Headers.{ends_with}
use race_frame.Limits.SlidingWindow.{Entry, Call, Answer, admitted, retry, index_error, hit}
use race_frame.Limits.InFlight.{Counts, enter, leave}
use race_frame.Security.Settings.{SecuritySettings}
use race_frame.Security.Configuration.{SplitUrl}
use race_frame.Security.Request.{
  BrowserRequest, cookie_of, csrf_cookie, request_origin_is_allowed, valid_browser_token, client_ip,
}

-- The limiters of the middleware.
pub record Limiters : Type 0 where
  pub entries : List Entry
  pub counts : Counts

-- The request is answered at once, with a status and a Retry-After, or goes on to the application, in a
-- category that counts it; or the limiter raised.
pub data Decision : Type 0 where
  refused : ℕ → ℕ → Decision
  forwarded : Option Text → Decision
  raised : Decision

-- What is read from outside: the clock at a hit of a bucket, and the parsers of Python.
pub record Outside : Type 0 where
  pub settings : SecuritySettings
  pub trust_proxy_headers : Bool
  pub max_keys : ℕ
  pub low : ℕ → Text
  pub is_alnum : ℕ → Bool
  pub urlsplit : Text → Option SplitUrl
  pub ip_address : Text → Option Text

abbrev pub push_char : ℕ → List Text → List Text
push_char c [] = (c ∷ []) ∷ []
push_char c (part ∷ parts) = (c ∷ part) ∷ parts

-- `path.split("/", n)`
unfoldable pub split_slash : ℕ → Text → List Text
split_slash zero s = s ∷ []
split_slash (suc n) [] = [] ∷ []
split_slash (suc n) (c ∷ s) =
    let at_slash = [] ∷ split_slash n s in
    let within = push_char c (split_slash (suc n) s) in if c == b'/' then at_slash else within

abbrev pub fourth : List Text → Text
fourth (a ∷ b ∷ c ∷ d ∷ parts) = d
fourth _ = codes "unknown"

abbrev pub call_at : (Text → ℕ) → Text → Text → ℕ → ℕ → Call
call_at clock bucket key limit window = record {
  bucket = bucket;
  key = key;
  limit = limit;
  window_seconds = window;
  now = clock bucket;
}

-- The loop over the checks: the answer of the first that does not admit.
unfoldable pub run_checks : ℕ → List Call → List Entry → Answer × List Entry
run_checks max_keys [] entries = (admitted, entries)
run_checks max_keys (c ∷ checks) entries =
    let (answer, entries') = hit max_keys c entries in
    elim answer [
      | admitted ↦ run_checks max_keys checks entries'
      | retry seconds ↦ (retry seconds, entries')
      | index_error ↦ (index_error, entries')
    ]

-- Behind the checks the request enters its category, or the capacity is full.
unfoldable pub enter_category : Text → Counts → Bool × Counts
unfolding enter
enter_category category counts = enter category 4 counts

abbrev pub entered : Text → List Entry → Bool × Counts → Decision × Limiters
entered category entries (true, counts) =
    (forwarded (some category), record { entries = entries; counts = counts })
entered category entries (false, counts) =
    (refused 503 10, record { entries = entries; counts = counts })

abbrev pub behind_checks : Text → Counts → Answer × List Entry → Decision × Limiters
behind_checks category counts (admitted, entries) =
    entered category entries (enter_category category counts)
behind_checks category counts (retry seconds, entries) =
    (refused 429 seconds, record { entries = entries; counts = counts })
behind_checks category counts (index_error, entries) =
    (raised, record { entries = entries; counts = counts })

abbrev pub public_search : Text
public_search = codes "public-search"

abbrev pub photo_upload : Text
photo_upload = codes "photo-upload"

module _ (outside : Outside) where
  open outside use {settings, trust_proxy_headers, max_keys, low, is_alnum, urlsplit, ip_address}

  unfoldable pub has_browser_admission_context : BrowserRequest → Bool
  unfolding valid_browser_token cookie_of request_origin_is_allowed
  has_browser_admission_context request =
      valid_browser_token is_alnum (cookie_of csrf_cookie request)
      && request_origin_is_allowed low urlsplit settings request

  unfoldable pub search_checks : (Text → ℕ) → BrowserRequest → Text → List Call
  unfolding client_ip split_slash
  search_checks clock request visitor_id =
      call_at clock (codes "public-search-visitor") visitor_id 5 60
      ∷ call_at clock (codes "public-search-ip") (client_ip ip_address trust_proxy_headers request)
          300 600
      ∷ call_at clock (codes "public-search-event") (fourth (split_slash 4 request.path)) 500 600
      ∷ []

  unfoldable pub upload_checks : (Text → ℕ) → Text → List Call
  upload_checks clock visitor_id =
      call_at clock (codes "photo-upload-visitor") visitor_id 120 60 ∷ []

  abbrev pub is_public_search : Text → Bool
  is_public_search path =
      is_prefix (codes "/user/events/") path
      && (ends_with (codes "/selfies") path || ends_with (codes "/bib-only") path)

  unfoldable pub admit : (Text → ℕ) → BrowserRequest → Text → Limiters → Decision × Limiters
  unfolding has_browser_admission_context search_checks upload_checks run_checks enter_category
  admit clock request visitor_id limiters =
      let is_browser_post =
        text_eq request.method (codes "POST") && has_browser_admission_context request in
      if is_browser_post && is_public_search request.path
      then behind_checks public_search limiters.counts
          (run_checks max_keys (search_checks clock request visitor_id) limiters.entries)
      else if is_browser_post && is_prefix (codes "/upload/events/") request.path
      then behind_checks photo_upload limiters.counts
          (run_checks max_keys (upload_checks clock visitor_id) limiters.entries)
      else (forwarded none, limiters)

-- The `finally` around `call_next`, which runs when the application returns and when it raises.
unfoldable pub release : Option Text → Limiters → Limiters
unfolding leave
release none limiters = limiters
release (some category) limiters = record limiters { counts = leave category limiters.counts }
