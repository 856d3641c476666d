-- ===== src/Security/Request.antt =====
-- backend/app/web_security.py: what is read of a request: its origin, its tokens and its address.
use race_frame.Prelude.{
  ℕ, Bool, true, false, not, ◌&&◌, ◌||◌, List, [], ◌∷◌, ◌++◌, Option, none, some, leb, ltb, ◌==◌,
  if◌then◌else◌, length, is_empty, all, codes,
}
use race_frame.Http.{Result, ok, http}
use race_frame.Matching.Token.{Text, text_eq, is_member, is_alphanumeric, upper}
use race_frame.Matching.Substring.{is_prefix}
use race_frame.Limits.BodyLimit.{safe_methods}
use race_frame.Archive.Decimal.{str}
use race_frame.Uploads.Image.{lower, text_or_empty, strip_behind, strip_before}
use race_frame.Security.Settings.{SecuritySettings, is_production}
use race_frame.Security.Configuration.{SplitUrl}
use race_frame.Security.Capability.{is_ascii, compare_digest}

-- Names of headers are in lower case, and a cookie's name stands once.
pub record BrowserRequest : Type 0 where
  pub method : Text
  pub path : Text
  pub url_scheme : Text
  pub headers : List (Text × Text)
  pub cookies : List (Text × Text)
  pub client_host : Option Text

unfoldable pub value_of : Text → List (Text × Text) → Option Text
value_of name [] = none
value_of name ((n, value) ∷ values) = if text_eq n name then some value else value_of name values

-- `cookies.get(name, "")`
unfoldable pub cookie_of : Text → BrowserRequest → Text
unfolding value_of
cookie_of name request = text_or_empty (value_of name request.cookies)

-- `a or b` at optional texts.
abbrev pub or_else : Option Text → Option Text → Option Text
or_else none b = b
or_else (some []) b = b
or_else (some (c ∷ s)) b = some (c ∷ s)

abbrev pub csrf_cookie : Text
csrf_cookie = codes "raceframe_csrf"

abbrev pub visitor_cookie : Text
visitor_cookie = codes "raceframe_visitor"

-- `parsed.port or default_port`: port 0 is false.
abbrev pub port_or : Option ℕ → ℕ → ℕ
port_or none d = d
port_or (some n) d = if n == 0 then d else n

unfoldable pub secure_cookies : (ℕ → Text) → SecuritySettings → Bool
unfolding lower is_production
secure_cookies low settings =
    is_production settings
    || (not (is_empty settings.public_origins)
        && all (λ origin. is_prefix (codes "https://") (lower low origin)) settings.public_origins)

module _ (low : ℕ → Text) (urlsplit : Text → Option SplitUrl) where
  abbrev pub origin_text : SplitUrl → ℕ → ℕ → Text
  origin_text parsed default_port port =
      parsed.scheme
      ++ (codes "://"
          ++ (lower low (text_or_empty parsed.hostname)
              ++ (if port == default_port then [] else b':' ∷ str port)))

  abbrev pub origin_at_port : SplitUrl → ℕ → Option (Option ℕ) → Option Text
  origin_at_port parsed default_port none = none
  origin_at_port parsed default_port (some port) =
      some (origin_text parsed default_port (port_or port default_port))

  abbrev pub origin_of : Option SplitUrl → Option Text
  origin_of none = none
  origin_of (some parsed) =
      if not (is_member parsed.scheme (codes "http" ∷ codes "https" ∷ []))
        || (is_empty (text_or_empty parsed.hostname)
            || (not (is_empty (text_or_empty parsed.username))
                || not (is_empty (text_or_empty parsed.password))))
      then none
      else origin_at_port parsed (if text_eq parsed.scheme (codes "http") then 80 else 443)
          parsed.port

  unfoldable pub normalized_origin : Text → Option Text
  unfolding lower str
  normalized_origin value = origin_of (urlsplit value)

  abbrev pub add_origin : Option Text → List Text → List Text
  add_origin none origins = origins
  add_origin (some []) origins = origins
  add_origin (some (c ∷ s)) origins = (c ∷ s) ∷ origins

  unfoldable pub configured_origins : List Text → List Text
  unfolding normalized_origin
  configured_origins [] = []
  configured_origins (value ∷ values) =
      add_origin (normalized_origin value) (configured_origins values)

  abbrev pub host_origin : BrowserRequest → Text → List Text
  host_origin request [] = []
  host_origin request (c ∷ host) =
      (request.url_scheme ++ (codes "://" ++ lower low (c ∷ host))) ∷ []

  unfoldable pub allowed_origins : SecuritySettings → BrowserRequest → List Text
  unfolding configured_origins is_production value_of
  allowed_origins settings request =
      configured_origins settings.public_origins
      ++ (if is_production settings
          then []
          else host_origin request (text_or_empty (value_of (codes "host") request.headers)))

  abbrev pub is_allowed : Option Text → List Text → Bool
  is_allowed none origins = false
  is_allowed (some origin) origins = is_member origin origins

  abbrev pub source_is_allowed : SecuritySettings → BrowserRequest → Option Text → Bool
  source_is_allowed settings request none = true
  source_is_allowed settings request (some source) =
      is_allowed (normalized_origin source) (allowed_origins settings request)

  unfoldable pub request_origin_is_allowed : SecuritySettings → BrowserRequest → Bool
  unfolding normalized_origin allowed_origins value_of
  request_origin_is_allowed settings request = source_is_allowed settings request (
      or_else (value_of (codes "origin") request.headers)
        (value_of (codes "referer") request.headers))

  -- The token of the header, or else of the form. A token beyond ASCII makes `compare_digest` raise a
  -- TypeError, which the server answers with 500.
  unfoldable pub require_browser_csrf :
      (ℕ → Text) → SecuritySettings → BrowserRequest → Option Text → Option Text → Result (Unit {0})
  unfolding upper cookie_of request_origin_is_allowed
  require_browser_csrf wide settings request csrf_token x_csrf_token =
      let expected_token = cookie_of csrf_cookie request in
      let supplied_token = text_or_empty (or_else x_csrf_token csrf_token) in
      if is_member (upper wide request.method) safe_methods
      then ok tt
      else if is_empty expected_token || is_empty supplied_token
      then http 403 "Invalid or missing CSRF token."
      else if not (is_ascii expected_token && is_ascii supplied_token)
      then http 500 "Internal Server Error"
      else if not (compare_digest expected_token supplied_token)
      then http 403 "Invalid or missing CSRF token."
      else if not (request_origin_is_allowed settings request)
      then http 403 "Request origin is not allowed."
      else ok tt

-- `is_alnum` is `str.isalnum` beyond ASCII.
unfoldable pub valid_browser_token : (ℕ → Bool) → Text → Bool
valid_browser_token is_alnum value =
    (leb 20 (length value) && leb (length value) 128)
    && all (λ c. (if ltb c 128 then is_alphanumeric c else is_alnum c) || (c == b'-' || c == b'_'))
        value

unfoldable pub before_comma : Text → Text
before_comma [] = []
before_comma (c ∷ s) = if c == b',' then [] else c ∷ before_comma s

abbrev pub or_unknown : Option Text → Text
or_unknown none = codes "unknown"
or_unknown (some s) = s

-- A header is ASCII. `ip_address` is the normal form of an address, `none` a ValueError.
unfoldable pub client_ip : (Text → Option Text) → Bool → BrowserRequest → Text
unfolding value_of before_comma strip_behind strip_before
client_ip ip_address trust_proxy_headers request =
    let direct = or_unknown request.client_host in
    let forwarded =
      before_comma (text_or_empty (value_of (codes "x-forwarded-for") request.headers)) in
    let proxied =
      or_else (value_of (codes "cf-connecting-ip") request.headers)
        (or_else (some forwarded) (some direct)) in
    let candidate = if trust_proxy_headers then text_or_empty proxied else direct in
    or_unknown (ip_address (strip_behind (strip_before candidate)))
