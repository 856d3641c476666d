-- ===== src/Security/Capability/Issued.antt =====
-- backend/app/web_security.py: a capability that was issued, at the visitor, the event and the moment that
-- `decode_search_capability` is called with.
use race_frame.Prelude.{
  ℕ, ◌+◌, ◌*◌, ◌/◌, ◌<◌, ◌≡◌, refl, ◌∙◌, subst, true, false, [], ◌∷◌, ◌++◌, Option, none, some,
  some-injective, leb, ◌==◌, All, arith,
}
use race_frame.Matching.Token.{Text, text_eq_refl}
use race_frame.Security.Base64.{b64encode}
use race_frame.Security.Base64.RoundTrip.{
  IsByte, no_dot, b64decode-b64encode, b64encode-ascii, b64encode-no_dot,
}
use race_frame.Security.Capability.{
  Payload, SearchCapability, Crypto, is_ascii, compare_digest, split_dot, second,
  owner_binding_hash, signature_of, issued, map_option, issue_search_capability, decoded,
  check_owner, check_payload, check_parts, decode_search_capability,
}

split_dot-no_dot : (s t : Text) → no_dot s ≡ true → split_dot (s ++ (b'.' ∷ t)) ≡ some (s, t)
unfolding split_dot
split_dot-no_dot [] t h = refl
split_dot-no_dot (c ∷ s) t h =
    let other : (c == b'.') ≡ false = ground arith in
    rw other rw (split_dot-no_dot s t (ground arith)) refl

digest_refl : (s : Text) → is_ascii s ≡ true → compare_digest s s ≡ true
digest_refl s h = rw h rw (text_eq_refl s) refl

-- JSON that is written in bytes is read back.
pub record IsCodec (crypto : Crypto) : Type 0 where
  pub dumps_bytes : (payload : Payload) → All IsByte (crypto.dumps payload)
  pub loads-dumps : (payload : Payload) → crypto.loads (crypto.dumps payload) ≡ some payload

module _ (crypto : Crypto) (codec : IsCodec crypto) where
  check_parts-issued :
      (now : ℕ) (value event_id visitor_id : Text) (payload : Payload)
      → let encoded = b64encode (crypto.dumps payload) in
        check_parts crypto now value event_id visitor_id
          (some (encoded, signature_of crypto encoded))
        ≡ check_payload crypto now value event_id visitor_id (some payload)
  unfolding check_parts signature_of
  check_parts-issued now value event_id visitor_id payload =
      let dumped = crypto.dumps payload in
      rw (b64encode-ascii dumped) rw
        (digest_refl (b64encode (crypto.mac (b64encode dumped)))
          (b64encode-ascii (crypto.mac (b64encode dumped))))
        rw (b64decode-b64encode dumped (codec.dumps_bytes payload)) rw (codec.loads-dumps payload)
        refl

  decode-issued :
      (now expires_at : ℕ) (event_id visitor_id : Text) (payload : Payload)
      → decode_search_capability crypto now
          (issued crypto payload expires_at).secret
          event_id
          visitor_id
        ≡ check_payload crypto now
            (issued crypto payload expires_at).secret
            event_id
            visitor_id
            (some payload)
  unfolding decode_search_capability issued
  decode-issued now expires_at event_id visitor_id payload =
      let encoded = b64encode (crypto.dumps payload) in
      rw
        (split_dot-no_dot encoded (signature_of crypto encoded)
          (b64encode-no_dot (crypto.dumps payload)))
        (check_parts-issued now (encoded ++ (b'.' ∷ signature_of crypto encoded)) event_id
          visitor_id payload)

  check_payload-owner :
      (now : ℕ) (value event_id visitor_id : Text) (payload : Payload)
      → now < payload.exp * second
      → payload.eid ≡ event_id
      → is_ascii event_id ≡ true
      → owner_binding_hash crypto visitor_id ≡ some payload.own
      → is_ascii payload.own ≡ true
      → check_payload crypto now value event_id visitor_id (some payload)
        ≡ some (decoded crypto value event_id payload payload.own)
  unfolding check_payload check_owner
  check_payload-owner now value event_id visitor_id payload fresh same_event ascii_event owner
        ascii_owner =
      let not_over : leb (payload.exp * second) now ≡ false = ground arith in
      let event_is : compare_digest payload.eid event_id ≡ true =
        rw same_event (digest_refl event_id ascii_event) in
      rw not_over rw event_is rw owner rw (digest_refl payload.own ascii_owner) refl

  map_option-some :
      {A B : Type 0} (f : A → B) (o : Option A) {b : B}
      → map_option f o ≡ some b
      → (a : A) × (o ≡ some a) × (f a ≡ b)
  map_option-some f none h = cc
  map_option-some f (some a) {b} h = (a, refl, some-injective _ _ h)

  -- A capability that was issued is accepted from its visitor, for its event, until the whole second at or before
  -- its expiry, and comes back as it was issued but for that rounding.
  pub decode-issue_search_capability :
      (issued_at ttl_seconds : ℕ) (raw_secret session_id event_id visitor_id : Text)
      {c : SearchCapability}
      → issue_search_capability crypto issued_at ttl_seconds raw_secret session_id event_id
          visitor_id
        ≡ some c
      → is_ascii event_id ≡ true
      → is_ascii c.owner_hash ≡ true
      → (now : ℕ) → now < c.expires_at / second * second
      → decode_search_capability crypto now c.secret event_id visitor_id
        ≡ some (record c { expires_at = c.expires_at / second * second })
  unfolding issue_search_capability issued
  decode-issue_search_capability issued_at ttl_seconds raw_secret session_id event_id visitor_id {c}
        h ascii_event =
      let expires_at = issued_at + ttl_seconds * second in
      let payload_of : Text → Payload = λ own. record {
        sid = session_id;
        eid = event_id;
        cap = raw_secret;
        exp = expires_at / second;
        own = own;
      } in
      let (own, owner, is) =
        map_option-some (λ own. issued crypto (payload_of own) expires_at)
          (owner_binding_hash crypto visitor_id) h in
      subst
        (λ (d : SearchCapability).
          is_ascii d.owner_hash ≡ true
          → (now : ℕ) → now < d.expires_at / second * second
          → decode_search_capability crypto now d.secret event_id visitor_id
            ≡ some (record d { expires_at = d.expires_at / second * second }))
        is
        (λ ascii_owner now fresh.
          decode-issued now expires_at event_id visitor_id (payload_of own)
          ∙ check_payload-owner now (issued crypto (payload_of own) expires_at).secret event_id
              visitor_id (payload_of own) fresh refl ascii_event owner ascii_owner)
