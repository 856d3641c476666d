-- ===== src/Security/Capability.antt =====
-- backend/app/web_security.py: the search capability, a signed text in a cookie. The keyed hash, SHA-256
-- and the JSON of the payload are arguments; a moment is in microseconds.

pub mod Genuine
pub mod Issued
use race_frame.Prelude.{
  ℕ, ◌+◌, ◌*◌, ◌/◌, Bool, not, ◌&&◌, ◌||◌, [], ◌∷◌, ◌++◌, Option, none, some, leb, ltb, ◌==◌,
  if◌then◌else◌, is_empty, all,
}
use race_frame.Matching.Token.{Text, text_eq}
use race_frame.Archive.Bytes.{Bytes, encode_utf8}
use race_frame.Security.Base64.{b64encode, b64decode}

pub record Payload : Type 0 where
  pub sid : Text
  pub eid : Text
  pub cap : Text
  pub exp : ℕ
  pub own : Text

pub record SearchCapability : Type 0 where
  pub session_id : Text
  pub event_id : Text
  pub secret : Text
  pub expires_at : ℕ
  pub capability_hash : Text
  pub owner_hash : Text

abbrev pub is_ascii : Text → Bool
is_ascii s = all (λ c. ltb c 128) s

-- `hmac.compare_digest`: beyond ASCII it raises, and an error refuses too.
abbrev pub compare_digest : Text → Text → Bool
compare_digest a b = is_ascii a && (is_ascii b && text_eq a b)

abbrev pub split_behind : ℕ → Option (Text × Text) → Option (Text × Text)
split_behind c none = none
split_behind c (some (before, behind)) = some (c ∷ before, behind)

-- `value.split(".", 1)` into two parts; one part alone cannot be unpacked.
unfoldable pub split_dot : Text → Option (Text × Text)
split_dot [] = none
split_dot (c ∷ s) = if c == b'.' then some ([], s) else split_behind c (split_dot s)

abbrev pub map_option {ℓ κ} : {A : Type ℓ} {B : Type κ} → (A → B) → Option A → Option B
map_option f none = none
map_option f (some a) = some (f a)

-- What is outside: `hmac.new(_signing_key(), …)`, its hexadecimal form, `secret_hash`, the JSON that
-- `issue_search_capability` writes, and the fields that `decode_search_capability` reads of a JSON text.
pub record Crypto : Type 0 where
  pub mac : Bytes → Bytes
  pub hex : Bytes → Text
  pub secret_hash : Text → Text
  pub dumps : Payload → Bytes
  pub loads : Bytes → Option Payload

abbrev pub second : ℕ
second = 1_000_000

module _ (crypto : Crypto) where
  open crypto use {mac, hex, secret_hash, dumps, loads}

  -- `none` is a UnicodeEncodeError.
  unfoldable pub owner_binding_hash : Text → Option Text
  unfolding encode_utf8
  owner_binding_hash visitor_id = map_option (λ bytes. hex (mac bytes)) (encode_utf8 visitor_id)

  unfoldable pub signature_of : Text → Text
  signature_of encoded_payload = b64encode (mac encoded_payload)

  unfoldable pub issued : Payload → ℕ → SearchCapability
  unfolding signature_of
  issued payload expires_at =
      let encoded_payload = b64encode (dumps payload) in
      record {
        session_id = payload.sid;
        event_id = payload.eid;
        secret = encoded_payload ++ (b'.' ∷ signature_of encoded_payload);
        expires_at = expires_at;
        capability_hash = secret_hash payload.cap;
        owner_hash = payload.own;
      }

  -- `raw_secret` is what `token_urlsafe` drew.
  unfoldable pub issue_search_capability :
      ℕ → ℕ → Text → Text → Text → Text → Option SearchCapability
  unfolding owner_binding_hash issued
  issue_search_capability now ttl_seconds raw_secret session_id event_id visitor_id =
      let expires_at = now + ttl_seconds * second in
      map_option
        (λ own.
          issued
            (record {
              sid = session_id;
              eid = event_id;
              cap = raw_secret;
              exp = expires_at / second;
              own = own;
            })
            expires_at)
        (owner_binding_hash visitor_id)

  abbrev pub decoded : Text → Text → Payload → Text → SearchCapability
  decoded value event_id payload own = record {
    session_id = payload.sid;
    event_id = event_id;
    secret = value;
    expires_at = payload.exp * second;
    capability_hash = secret_hash payload.cap;
    owner_hash = own;
  }

  unfoldable pub check_owner : Text → Text → Payload → Option Text → Option SearchCapability
  check_owner value event_id payload none = none
  check_owner value event_id payload (some own) =
      if compare_digest payload.own own then some (decoded value event_id payload own) else none

  unfoldable pub check_payload : ℕ → Text → Text → Text → Option Payload → Option SearchCapability
  unfolding check_owner owner_binding_hash
  check_payload now value event_id visitor_id none = none
  check_payload now value event_id visitor_id (some payload) =
      if leb (payload.exp * second) now
      then none
      else if not (compare_digest payload.eid event_id)
      then none
      else check_owner value event_id payload (owner_binding_hash visitor_id)

  abbrev pub load_bytes : Option Bytes → Option Payload
  load_bytes none = none
  load_bytes (some bytes) = loads bytes

  unfoldable pub check_parts :
      ℕ → Text → Text → Text → Option (Text × Text) → Option SearchCapability
  unfolding check_payload signature_of
  check_parts now value event_id visitor_id none = none
  check_parts now value event_id visitor_id (some (encoded_payload, supplied_signature)) =
      if not (is_ascii encoded_payload)
      then none
      else if not (compare_digest supplied_signature (signature_of encoded_payload))
      then none
      else check_payload now value event_id visitor_id (load_bytes (b64decode encoded_payload))

  unfoldable pub decode_search_capability : ℕ → Text → Text → Text → Option SearchCapability
  unfolding check_parts split_dot
  decode_search_capability now value event_id visitor_id =
      check_parts now value event_id visitor_id (split_dot value)

  -- `request_search_capability`, by the visitor of the request and its cookie of the event.
  unfoldable pub request_search_capability : ℕ → Text → Text → Text → Option SearchCapability
  unfolding decode_search_capability
  request_search_capability now visitor_id cookie_value event_id =
      if is_empty visitor_id || is_empty cookie_value
      then none
      else decode_search_capability now cookie_value event_id visitor_id
