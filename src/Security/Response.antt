-- ===== src/Security/Response.antt =====
-- backend/app/web_security.py: the tokens of `BrowserSecurityMiddleware.dispatch` and `_finalize_response`.
pub mod Hardened
use race_frame.Prelude.{
  ℕ, ◌*◌, Bool, true, false, not, ◌||◌, List, [], ◌∷◌, ◌++◌, if◌then◌else◌, any, codes,
}
use race_frame.Matching.Token.{Text, text_eq, is_member}
use race_frame.Matching.Substring.{is_prefix}
use race_frame.Security.Settings.{SecuritySettings, is_production}
use race_frame.Security.Request.{csrf_cookie, visitor_cookie, secure_cookies, valid_browser_token}

pub record SetCookie : Type 0 where
  pub name : Text
  pub value : Text
  pub max_age : ℕ
  pub cookie_path : Text
  pub secure : Bool
  pub httponly : Bool
  pub samesite : Text

-- The headers of a response, names in lower case, and the cookies that it sets.
pub record BrowserResponse : Type 0 where
  pub headers : List (Text × Text)
  pub set_cookies : List SetCookie

-- A token, and whether it is a new one.
pub record Token : Type 0 where
  pub token : Text
  pub is_new : Bool

-- The token of the cookie, or the drawn one where that is not valid.
unfoldable pub token_of : (ℕ → Bool) → Text → Text → Token
unfolding valid_browser_token
token_of is_alnum cookie_value drawn =
    if valid_browser_token is_alnum cookie_value
    then record { token = cookie_value; is_new = false }
    else record { token = drawn; is_new = true }

unfoldable pub remove_header : Text → List (Text × Text) → List (Text × Text)
remove_header name [] = []
remove_header name ((n, value) ∷ headers) =
    if text_eq n name then remove_header name headers else (n, value) ∷ remove_header name headers

-- `headers[name] = value`: the first header of the name takes the value, and others of it are deleted.
unfoldable pub set_header : Text → Text → List (Text × Text) → List (Text × Text)
unfolding remove_header
set_header name value [] = (name, value) ∷ []
set_header name value ((n, old) ∷ headers) =
    if text_eq n name
    then (n, value) ∷ remove_header name headers
    else (n, old) ∷ set_header name value headers

unfoldable pub set_headers : List (Text × Text) → List (Text × Text) → List (Text × Text)
unfolding set_header
set_headers [] headers = headers
set_headers ((name, value) ∷ values) headers = set_headers values (set_header name value headers)

unfoldable pub content_security_policy : Text → Text
content_security_policy nonce =
    codes
      "default-src 'self'; base-uri 'self'; object-src 'none'; frame-ancestors 'none'; form-action 'self'; "
    ++ (codes "script-src 'self' 'nonce-"
        ++ (nonce
            ++ codes
                "'; style-src 'self' https://fonts.googleapis.com; img-src 'self' data: https:; font-src 'self' https://fonts.gstatic.com; connect-src 'self'; media-src 'none'; worker-src 'none'; manifest-src 'self'"))

abbrev pub fixed_headers : List (Text × Text)
fixed_headers =
    (codes "referrer-policy", codes "strict-origin-when-cross-origin")
    ∷ (codes "x-content-type-options", codes "nosniff")
    ∷ (codes "x-frame-options", codes "DENY")
    ∷ (codes "permissions-policy", codes "camera=(), microphone=(), geolocation=(), payment=()")
    ∷ (codes "cross-origin-opener-policy", codes "same-origin")
    ∷ (codes "cross-origin-resource-policy", codes "same-origin")
    ∷ (codes "x-permitted-cross-domain-policies", codes "none")
    ∷ []

abbrev pub transport_header : List (Text × Text)
transport_header =
    (codes "strict-transport-security", codes "max-age=31536000; includeSubDomains") ∷ []

abbrev pub private_headers : List (Text × Text)
private_headers =
    (codes "cache-control", codes "no-store, max-age=0")
    ∷ (codes "pragma", codes "no-cache")
    ∷ (codes "x-robots-tag", codes "noindex, nofollow, noarchive")
    ∷ []

abbrev pub is_private : Text → Bool
is_private path =
    any (λ start. is_prefix start path) (codes "/admin" ∷ codes "/upload" ∷ codes "/user" ∷ [])

abbrev pub is_documentation : Text → Bool
is_documentation path = is_member path (codes "/docs" ∷ codes "/redoc" ∷ codes "/openapi.json" ∷ [])

module _ (low : ℕ → Text) (settings : SecuritySettings) where
  abbrev pub token_cookie : Text → Token → ℕ → Text → List SetCookie
  token_cookie name t max_age samesite =
      if t.is_new
      then record {
        name = name;
        value = t.token;
        max_age = max_age;
        cookie_path = codes "/";
        secure = secure_cookies low settings;
        httponly = true;
        samesite = samesite;
      }
        ∷ []
      else []

  -- The headers that are set, in their order.
  unfoldable pub security_headers : Text → Text → List (Text × Text)
  unfolding is_production content_security_policy
  security_headers path nonce =
      (if is_production settings || not (is_documentation path)
        then (codes "content-security-policy", content_security_policy nonce) ∷ []
        else [])
      ++ (fixed_headers
          ++ ((if is_production settings then transport_header else [])
              ++ (if is_private path then private_headers else [])))

  unfoldable pub finalize_response : Text → Text → Token → Token → BrowserResponse → BrowserResponse
  unfolding set_headers
  finalize_response path nonce csrf visitor response = record {
    headers = set_headers (security_headers path nonce) response.headers;
    set_cookies =
        response.set_cookies
        ++ (token_cookie csrf_cookie csrf (12 * 60 * 60) (codes "strict")
            ++ token_cookie visitor_cookie visitor (24 * 60 * 60) (codes "lax"));
  }
