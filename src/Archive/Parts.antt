-- ===== src/Archive/Parts.antt =====
-- backend/app/photo_archive.py: the parts of what `stream_photo_zip` sends for a file.
use race_frame.Prelude.{
  ℕ, ◌+◌, ◌≡◌, sym, ap, ◌∙◌, Bool, true, false, List, ◌++◌, Option, none, some, some-injective, ltb,
  if◌then◌else◌, length, length-append, append-nil, arith,
}
use race_frame.Matching.Token.{Text}
use race_frame.Archive.Bytes.{Bytes, encode_utf8}
use race_frame.Archive.Stream.{ended, raised, yielded, sent, end, andthen_parts, or_raise_parts}
use race_frame.Archive.Zip.{
  Central, DateTime, dos_time, dos_date, local_header, local_fields, descriptor, copy_body,
  end_file, local_file, zip32_max,
}
use race_frame.Archive.Extract.{content, length-pack, copy_body-content}

length-local_header :
    (encoded_name : Bytes) (time date : ℕ) {header : Bytes}
    → local_header encoded_name time date ≡ some header
    → length header ≡ 30
unfolding local_header
length-local_header encoded_name time date h = length-pack (local_fields encoded_name time date) h

ended_if :
    {A : Type 0} (test : Bool) (chunk : Bytes) (a : A) {b : A}
    → end (yielded chunk (if test then raised else ended a)) ≡ some b
    → (a ≡ b) × (sent (yielded chunk (if test then raised else ended a)) ≡ chunk)
unfolding sent end
ended_if true chunk a h = cc
ended_if false chunk a h = (some-injective _ _ h, append-nil chunk)

-- The content that a reader of the object gets.
abbrev pub whole_body : Option (List Bytes) → Option Bytes
whole_body none = none
whole_body (some chunks) = some (content chunks)

-- What is sent for a file that ends, and what its record says of it.
pub record FileParts (body : Option (List Bytes)) (offset : ℕ) (bytes : Bytes) (r : Central)
    (next : ℕ) : Type 0 where
  pub front : Bytes
  pub whole : Bytes
  pub back : Bytes
  pub bytes_eq : bytes ≡ front ++ (whole ++ back)
  pub whole_eq : whole_body body ≡ some whole
  pub front_length : length front ≡ 30 + length r.encoded_name
  pub offset_eq : r.local_offset ≡ offset
  pub size_eq : r.file_size ≡ length whole
  pub next_eq : next ≡ offset + length bytes

end_file_parts :
    (encoded_name : Bytes) (now : DateTime) (offset header_length crc file_size : ℕ) {r : Central}
    {next : ℕ}
    → end (end_file encoded_name now offset header_length (crc, file_size)) ≡ some (r, next)
    → (back : Bytes) × (sent (end_file encoded_name now offset header_length (crc, file_size))
        ≡ back)
      × (r.encoded_name ≡ encoded_name)
      × (r.local_offset ≡ offset)
      × (r.file_size ≡ file_size)
      × (next ≡ offset + header_length + file_size + length back)
unfolding end_file
end_file_parts encoded_name now offset header_length crc file_size {r} {next} h =
    let (back, packed, ends, same) = or_raise_parts (descriptor crc file_size) _ h in
    let (value, sends) =
      ended_if (ltb zip32_max (offset + header_length + file_size + length back)) back _ ends in
    (
      back,
      same ∙ sends,
      ap (λ (p : Central × ℕ). p.0.encoded_name) (sym value),
      ap (λ (p : Central × ℕ). p.0.local_offset) (sym value),
      ap (λ (p : Central × ℕ). p.0.file_size) (sym value),
      ap (λ (p : Central × ℕ). p.1) (sym value),
    )

pub local_file_parts :
    (body : Option (List Bytes)) (now : DateTime) (safe_name : Text) (offset : ℕ) {r : Central}
    {next : ℕ}
    → end (local_file body now safe_name offset) ≡ some (r, next)
    → FileParts body offset (sent (local_file body now safe_name offset)) r next
unfolding local_file sent end
local_file_parts body now safe_name offset {r} {next} h =
    let (encoded_name, _, ends, sends) = or_raise_parts (encode_utf8 safe_name) _ h in
    let (header, packed, header_ends, header_sends) =
      or_raise_parts (local_header encoded_name (dos_time now) (dos_date now)) _ ends in
    let (chunks, is, body_ends, body_sends) = or_raise_parts body _ header_ends in
    let ((crc, file_size), copied, file_ends, file_sends) =
      andthen_parts (copy_body 0 0 chunks) _ body_ends in
    let (same_content, counted) = copy_body-content 0 0 chunks copied in
    let front : Bytes = header ++ encoded_name in
    let (back, back_sends, name_eq, offset_is, size_is, next_is) =
      end_file_parts encoded_name now offset (length front) crc file_size file_ends in
    let tail =
      body_sends
      ∙ (file_sends
          ∙ (ap (λ w. w ++ sent (end_file encoded_name now offset (length front) (crc, file_size)))
                same_content
              ∙ ap (λ b. content chunks ++ b) back_sends)) in
    let bytes_are = sends ∙ (header_sends ∙ ap (λ rest. front ++ rest) tail) in
    let all_length = ap length bytes_are ∙ (length-append front (content chunks ++ back)) in
    record {
      front = front;
      whole = content chunks;
      back = back;
      bytes_eq = bytes_are;
      whole_eq = ap whole_body is;
      front_length =
          length-append header encoded_name
          ∙ omega (
            arith,
            length-local_header encoded_name (dos_time now) (dos_date now) packed,
            ap length name_eq,
          );
      offset_eq = offset_is;
      size_eq = size_is ∙ omega (arith, counted);
      next_eq = next_is ∙ omega (arith, counted, all_length, length-append (content chunks) back);
    }
