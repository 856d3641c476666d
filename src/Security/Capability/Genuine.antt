-- ===== src/Security/Capability/Genuine.antt =====
-- backend/app/web_security.py: what `decode_search_capability` accepts.
use race_frame.Prelude.{
  ℕ, ◌*◌, ◌<◌, ◌≡◌, refl, sym, ap, ◌∙◌, Bool, true, false, not, [], ◌∷◌, ◌++◌, Option, none, some,
  some-injective, leb, ◌==◌, if◌then◌else◌, arith, Bool-cases, inl, inr,
}
use race_frame.Matching.Token.{Text, text_eq_sound}
use race_frame.Archive.Bytes.{Bytes}
use race_frame.Security.Base64.{b64decode}
use race_frame.Security.Capability.{
  Payload, SearchCapability, Crypto, is_ascii, compare_digest, split_behind, split_dot, load_bytes,
  second, owner_binding_hash, signature_of, decoded, check_owner, check_payload, check_parts,
  decode_search_capability,
}

-- A text that is split is the two parts with the dot between them.
split_behind-parts :
    (c : ℕ) (o : Option (Text × Text)) {before behind : Text}
    → split_behind c o ≡ some (before, behind)
    → (rest : Text) × (o ≡ some (rest, behind)) × (before ≡ c ∷ rest)
split_behind-parts c none h = cc
split_behind-parts c (some (rest, t)) h = (rest, ground arith, ground arith)

pub split_dot-append :
    (s : Text) {before behind : Text}
    → split_dot s ≡ some (before, behind)
    → s ≡ before ++ (b'.' ∷ behind)
unfolding split_dot
split_dot-append [] h = cc
split_dot-append (c ∷ s) {before} {behind} h = elim (Bool-cases (c == b'.')) [
  | inl e ↦ let parts = rw e at h in ground arith
  | inr e ↦
      let (rest, tail, first) = split_behind-parts c (split_dot s) (rw e at h) in
      let whole = split_dot-append s tail in ground arith
]

-- A guard that was passed.
pub unless_none {ℓ} :
    {A : Type ℓ} (b : Bool) (o : Option A) {a : A}
    → (if b then none else o) ≡ some a
    → (b ≡ false) × (o ≡ some a)
unless_none true o h = cc
unless_none false o h = (refl, h)

digest_same : (a b : Text) → compare_digest a b ≡ true → a ≡ b
digest_same a b h = text_eq_sound a b (ground arith)

module _ (crypto : Crypto) where
  open crypto use {mac, hex, secret_hash, dumps, loads}

  -- Signed with the key, of this event and this visitor, and not expired; the result repeats the payload.
  pub record IsGenuine (now : ℕ) (value event_id visitor_id : Text) (capability : SearchCapability)
      : Type 0 where
    pub encoded_payload : Text
    pub bytes : Bytes
    pub payload : Payload
    pub is_signed : value ≡ encoded_payload ++ (b'.' ∷ signature_of crypto encoded_payload)
    pub is_encoded : b64decode encoded_payload ≡ some bytes
    pub is_loaded : loads bytes ≡ some payload
    pub not_expired : now < payload.exp * second
    pub of_event : payload.eid ≡ event_id
    pub of_visitor : owner_binding_hash crypto visitor_id ≡ some payload.own
    pub result : capability ≡ decoded crypto value event_id payload payload.own

  check_owner-result :
      (value event_id : Text) (payload : Payload) (own : Option Text) {c : SearchCapability}
      → check_owner crypto value event_id payload own ≡ some c
      → (own ≡ some payload.own) × (c ≡ decoded crypto value event_id payload payload.own)
  unfolding check_owner
  check_owner-result value event_id payload none h = cc
  check_owner-result value event_id payload (some own) h =
      elim (Bool-cases (compare_digest payload.own own)) [
        | inl e ↦
            let same = digest_same payload.own own e in
            (
              ap some (sym same),
              some-injective _ _ (sym (rw e at h))
                  ∙ ap (decoded crypto value event_id payload) (sym same),
            )
        | inr e ↦ let absurd_result = rw e at h in cc
      ]

  load_bytes-parts :
      (o : Option Bytes) {payload : Payload}
      → load_bytes crypto o ≡ some payload
      → (bytes : Bytes) × (o ≡ some bytes) × (loads bytes ≡ some payload)
  load_bytes-parts none h = cc
  load_bytes-parts (some bytes) h = (bytes, refl, h)

  module _ (now : ℕ) (value event_id visitor_id : Text) {c : SearchCapability} where
    payload-IsGenuine :
        (encoded : Text) (o : Option Payload)
        → load_bytes crypto (b64decode encoded) ≡ o
        → value ≡ encoded ++ (b'.' ∷ signature_of crypto encoded)
        → check_payload crypto now value event_id visitor_id o ≡ some c
        → IsGenuine now value event_id visitor_id c
    unfolding check_payload
    payload-IsGenuine encoded none loaded signed h = cc
    payload-IsGenuine encoded (some payload) loaded signed h =
        let (fresh, h1) = unless_none (leb (payload.exp * second) now) _ h in
        let (same_event, h2) = unless_none (not (compare_digest payload.eid event_id)) _ h1 in
        let (own, is) =
          check_owner-result value event_id payload (owner_binding_hash crypto visitor_id) h2 in
        let (bytes, is_decoded, is_loaded) = load_bytes-parts (b64decode encoded) loaded in
        record {
          encoded_payload = encoded;
          bytes = bytes;
          payload = payload;
          is_signed = signed;
          is_encoded = is_decoded;
          is_loaded = is_loaded;
          not_expired = ground arith;
          of_event = digest_same payload.eid event_id (ground arith);
          of_visitor = own;
          result = is;
        }

    parts-IsGenuine :
        (o : Option (Text × Text))
        → split_dot value ≡ o
        → check_parts crypto now value event_id visitor_id o ≡ some c
        → IsGenuine now value event_id visitor_id c
    unfolding check_parts
    parts-IsGenuine none e h = cc
    parts-IsGenuine (some (encoded, supplied)) e h =
        let (ascii, h1) = unless_none (not (is_ascii encoded)) _ h in
        let (same, h2) =
          unless_none (not (compare_digest supplied (signature_of crypto encoded))) _ h1 in
        let signature = digest_same supplied (signature_of crypto encoded) (ground arith) in
        payload-IsGenuine encoded (load_bytes crypto (b64decode encoded)) refl
          (split_dot-append value e ∙ ap (λ s. encoded ++ (b'.' ∷ s)) signature) h2

    -- A text is accepted only if it is a payload with its signature under the key, the payload is of this event
    -- and of this visitor and has not expired, and the result is what the payload says.
    pub decode_search_capability-IsGenuine :
        decode_search_capability crypto now value event_id visitor_id ≡ some c
        → IsGenuine now value event_id visitor_id c
    unfolding decode_search_capability
    decode_search_capability-IsGenuine h = parts-IsGenuine (split_dot value) refl h
