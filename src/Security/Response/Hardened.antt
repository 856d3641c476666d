-- ===== src/Security/Response/Hardened.antt =====
-- backend/app/web_security.py: what every response says that has passed `_finalize_response`.
use race_frame.Prelude.{
  ℕ, ◌*◌, All-parts, All-append, ◌≡◌, refl, sym, ap, ◌∙◌, Bool, true, false, ◌||◌, List, [], ◌∷◌,
  ◌++◌, some, if◌then◌else◌, All, codes, arith, Bool-cases, inl, inr,
}
use race_frame.Matching.Token.{Text, text_eq, text_eq_sound, text_eq_refl}
use race_frame.Security.Settings.{SecuritySettings, is_production}
use race_frame.Security.Request.{value_of, secure_cookies, csrf_cookie, visitor_cookie}
use race_frame.Security.Response.{
  content_security_policy, SetCookie, BrowserResponse, Token, remove_header, set_header,
  set_headers, fixed_headers, transport_header, private_headers, is_private, token_cookie,
  security_headers, finalize_response,
}

-- Every header of a list is what is found under its name.
abbrev pub AreSet : List (Text × Text) → List (Text × Text) → Type 0
AreSet expected headers = All (λ h. value_of h.0 headers ≡ some h.1) expected

value_of-remove_header :
    (name other : Text) (headers : List (Text × Text))
    → text_eq name other ≡ false
    → value_of other (remove_header name headers) ≡ value_of other headers
unfolding value_of remove_header
value_of-remove_header name other [] h = refl
value_of-remove_header name other ((n, value) ∷ headers) h = elim (Bool-cases (text_eq n name)) [
  | inl e ↦
      let apart : text_eq n other ≡ false = rw (text_eq_sound n name e) h in
      rw e rw apart (value_of-remove_header name other headers h)
  | inr e ↦ rw e (
      ap (λ o. if text_eq n other then some value else o)
        (value_of-remove_header name other headers h))
]

value_of-set_header :
    (name value other : Text) (headers : List (Text × Text))
    → value_of other (set_header name value headers)
      ≡ (if text_eq name other then some value else value_of other headers)
unfolding value_of set_header
value_of-set_header name value other [] = refl
value_of-set_header name value other ((n, old) ∷ headers) = elim (Bool-cases (text_eq n name)) [
  | inl e ↦ rw e rw (text_eq_sound n name e) elim (Bool-cases (text_eq name other)) [
    | inl same ↦ rw same refl
    | inr apart ↦ rw apart (value_of-remove_header name other headers apart)
  ]
  | inr e ↦ rw e elim (Bool-cases (text_eq n other)) [
    | inl same ↦
        let different : text_eq name n ≡ false = text_eq_false name n e in
        rw (sym (text_eq_sound n other same)) rw (text_eq_refl n) rw different refl
    | inr apart ↦ rw apart (value_of-set_header name value other headers)
  ]
]
  where
    text_eq_false : (a b : Text) → text_eq b a ≡ false → text_eq a b ≡ false
    text_eq_false a b h = elim (Bool-cases (text_eq a b)) [
      | inl same ↦ let is : text_eq b a ≡ true = rw (text_eq_sound a b same) (text_eq_refl b) in cc
      | inr apart ↦ apart
    ]

-- Whether a later header of the list has the name.
abbrev names : Text → List (Text × Text) → Bool
names name [] = false
names name ((n, value) ∷ values) = text_eq n name || names name values

value_of-set_headers :
    (name : Text) (values headers : List (Text × Text))
    → names name values ≡ false
    → value_of name (set_headers values headers) ≡ value_of name headers
unfolding set_headers
value_of-set_headers name [] headers h = refl
value_of-set_headers name ((n, value) ∷ values) headers h =
    let apart : text_eq n name ≡ false = ground arith in
    value_of-set_headers name values (set_header n value headers) (ground arith)
    ∙ value_of-set_header n value name headers
    ∙ rw apart refl

-- A list of headers each of which stands once.
abbrev AreDistinct : List (Text × Text) → Type 0
AreDistinct [] = Unit {0}
AreDistinct ((name, value) ∷ values) = (names name values ≡ false) × AreDistinct values

AreSet-set_headers :
    (values headers : List (Text × Text))
    → AreDistinct values
    → AreSet values (set_headers values headers)
unfolding set_headers
AreSet-set_headers [] headers h = tt
AreSet-set_headers ((name, value) ∷ values) headers (fresh, h) = (
  value_of-set_headers name values (set_header name value headers) fresh
      ∙ value_of-set_header name value name headers
      ∙ rw (text_eq_refl name) refl,
  AreSet-set_headers values (set_header name value headers) h,
)

-- The headers in production, on a private path or another.
distinct_if :
    (nonce_header : Text) (private : Bool)
    → AreDistinct (
        ((codes "content-security-policy", nonce_header) ∷ [])
        ++ (fixed_headers ++ (transport_header ++ (if private then private_headers else []))))
distinct_if nonce_header true = (
  refl,
  (refl, (refl, (refl, (refl, (refl, (refl, (refl, (refl, (refl, (refl, (refl, tt))))))))))),
)
distinct_if nonce_header false =
    (refl, (refl, (refl, (refl, (refl, (refl, (refl, (refl, (refl, tt)))))))))

-- A cookie that a script does not see and that is sent over HTTPS only.
abbrev pub IsProtected : SetCookie → Type 0
IsProtected cookie = (cookie.httponly ≡ true) × (cookie.secure ≡ true)

module _ (low : ℕ → Text) (settings : SecuritySettings)
    (production : is_production settings ≡ true) where
  secure_in_production : secure_cookies low settings ≡ true
  unfolding secure_cookies
  secure_in_production = rw production refl

  token_cookie-IsProtected :
      (name : Text) (t : Token) (max_age : ℕ) (samesite : Text)
      → All IsProtected (token_cookie low settings name t max_age samesite)
  token_cookie-IsProtected name t max_age samesite = elim (Bool-cases t.is_new) [
    | inl e ↦ rw e ((refl, secure_in_production), tt)
    | inr e ↦ rw e tt
  ]

  security_headers-production :
      (path nonce : Text)
      → security_headers low settings path nonce
        ≡ ((codes "content-security-policy", content_security_policy nonce) ∷ [])
          ++ (fixed_headers
              ++ (transport_header ++ (if is_private path then private_headers else [])))
  unfolding security_headers
  security_headers-production path nonce = rw production refl

  -- In production every response leaves with the security headers, whatever the application had set under their
  -- names, on a private path also with those against caching, and beside the application's cookies it sets only
  -- cookies that are hidden from scripts and sent over HTTPS.
  pub finalize_response-IsHardened :
      (path nonce : Text) (csrf visitor : Token) (response : BrowserResponse)
      → let final = finalize_response low settings path nonce csrf visitor response in
        AreSet
          ((codes "content-security-policy", content_security_policy nonce) ∷ fixed_headers)
          final.headers
        × AreSet transport_header final.headers
        × AreSet (if is_private path then private_headers else []) final.headers
        × ((added : List SetCookie) × (final.set_cookies ≡ response.set_cookies ++ added)
            × All IsProtected added)
  unfolding finalize_response
  finalize_response-IsHardened path nonce csrf visitor response =
      let policy = (codes "content-security-policy", content_security_policy nonce) ∷ [] in
      let private = if is_private path then private_headers else [] in
      let rest = transport_header ++ private in
      let values = policy ++ (fixed_headers ++ rest) in
      let headers = set_headers values response.headers in
      let found : Text × Text → Type 0 = λ h. value_of h.0 headers ≡ some h.1 in
      let every =
        AreSet-set_headers values response.headers
          (distinct_if (content_security_policy nonce) (is_private path)) in
      let (policy_set, behind) = every in
      let (fixed_set, of_rest) = All-parts found fixed_headers rest behind in
      let (transport_set, private_set) = All-parts found transport_header private of_rest in
      let cookies =
        All-append IsProtected
          (token_cookie low settings csrf_cookie csrf (12 * 60 * 60) (codes "strict"))
          (token_cookie low settings visitor_cookie visitor (24 * 60 * 60) (codes "lax"))
          (token_cookie-IsProtected csrf_cookie csrf (12 * 60 * 60) (codes "strict"))
          (token_cookie-IsProtected visitor_cookie visitor (24 * 60 * 60) (codes "lax")) in
      rw (security_headers-production path nonce)
        ((policy_set, fixed_set), transport_set, private_set, (_, refl, cookies))
