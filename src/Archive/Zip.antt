-- ===== src/Archive/Zip.antt =====
-- backend/app/photo_archive.py: `stream_photo_zip`. The objects and the clock are arguments; a body is
-- the chunks that its reads return.
use race_frame.Prelude.{
  ℕ, ◌+◌, ◌-◌, ◌*◌, ◌/◌, min, max, List, [], ◌∷◌, ◌++◌, Option, ltb, if◌then◌else◌, length,
}
use race_frame.Matching.Token.{Text}
use race_frame.Archive.Bytes.{Bytes, pack, encode_utf8, crc32}
use race_frame.Archive.Stream.{Stream, ended, raised, yielded, ◌andthen◌, or_raise}

pub record DateTime : Type 0 where
  pub year : ℕ
  pub month : ℕ
  pub day : ℕ
  pub hour : ℕ
  pub minute : ℕ
  pub second : ℕ

abbrev pub zip32_max : ℕ
zip32_max = 0xFFFFFFFF

abbrev flags : ℕ
flags = 0x0808

-- The fields of a date and a time lie in bits of their own, so their `|` is a sum.
abbrev pub dos_time : DateTime → ℕ
dos_time now = now.hour * 2_048 + now.minute * 32 + now.second / 2

abbrev pub dos_date : DateTime → ℕ
dos_date now = (max 1980 (min now.year 2107) - 1980) * 512 + now.month * 32 + now.day

-- What the central directory keeps of a file.
pub record Central : Type 0 where
  pub encoded_name : Bytes
  pub crc : ℕ
  pub file_size : ℕ
  pub local_offset : ℕ
  pub time : ℕ
  pub date : ℕ

abbrev pub local_fields : Bytes → ℕ → ℕ → List (ℕ × ℕ)
local_fields encoded_name time date =
    (4, 0x04034B50)
    ∷ (2, 20)
    ∷ (2, flags)
    ∷ (2, 0)
    ∷ (2, time)
    ∷ (2, date)
    ∷ (4, 0)
    ∷ (4, 0)
    ∷ (4, 0)
    ∷ (2, length encoded_name)
    ∷ (2, 0)
    ∷ []

-- `struct.pack("<IHHHHHIIIHH", …)`
unfoldable pub local_header : Bytes → ℕ → ℕ → Option Bytes
unfolding pack
local_header encoded_name time date = pack (local_fields encoded_name time date)

-- `struct.pack("<IHHHHHHIIIHHHHHII", …)`
unfoldable pub central_header : Central → Option Bytes
unfolding pack
central_header r = pack (
    (4, 0x02014B50)
    ∷ (2, 20)
    ∷ (2, 20)
    ∷ (2, flags)
    ∷ (2, 0)
    ∷ (2, r.time)
    ∷ (2, r.date)
    ∷ (4, r.crc)
    ∷ (4, r.file_size)
    ∷ (4, r.file_size)
    ∷ (2, length r.encoded_name)
    ∷ (2, 0)
    ∷ (2, 0)
    ∷ (2, 0)
    ∷ (2, 0)
    ∷ (4, 0)
    ∷ (4, r.local_offset)
    ∷ [])

unfoldable pub descriptor : ℕ → ℕ → Option Bytes
unfolding pack
descriptor crc file_size = pack ((4, 0x08074B50) ∷ (4, crc) ∷ (4, file_size) ∷ (4, file_size) ∷ [])

unfoldable pub end_record : ℕ → ℕ → ℕ → Option Bytes
unfolding pack
end_record count central_size central_offset = pack (
    (4, 0x06054B50)
    ∷ (2, 0)
    ∷ (2, 0)
    ∷ (2, count)
    ∷ (2, count)
    ∷ (4, central_size)
    ∷ (4, central_offset)
    ∷ (2, 0)
    ∷ [])

-- The loop over the chunks; it ends in the CRC and the size. An empty chunk is the end of the body.
unfoldable pub copy_body : ℕ → ℕ → List Bytes → Stream (ℕ × ℕ)
unfolding crc32
copy_body crc file_size [] = ended (crc, file_size)
copy_body crc file_size ([] ∷ chunks) = ended (crc, file_size)
copy_body crc file_size ((b ∷ chunk) ∷ chunks) =
    let file_size' = file_size + length (b ∷ chunk) in
    let rest = copy_body (crc32 (b ∷ chunk) crc) file_size' chunks in
    if ltb zip32_max file_size' then raised else yielded (b ∷ chunk) rest

-- Behind the body of a file that starts at `offset`: its descriptor, the record for the directory, and
-- the offset of what comes next.
unfoldable pub end_file : Bytes → DateTime → ℕ → ℕ → ℕ × ℕ → Stream (Central × ℕ)
unfolding descriptor or_raise
end_file encoded_name now offset header_length (crc, file_size) =
    or_raise (descriptor crc file_size) (λ end_bytes.
      let offset' = offset + header_length + file_size + length end_bytes in
      let record' : Central = record {
        encoded_name = encoded_name;
        crc = crc;
        file_size = file_size;
        local_offset = offset;
        time = dos_time now;
        date = dos_date now;
      } in
      yielded end_bytes (if ltb zip32_max offset' then raised else ended (record', offset')))

unfoldable pub local_file : Option (List Bytes) → DateTime → Text → ℕ → Stream (Central × ℕ)
unfolding or_raise ◌andthen◌ encode_utf8 local_header copy_body end_file
local_file body now safe_name offset = or_raise (encode_utf8 safe_name) (λ encoded_name.
    or_raise (local_header encoded_name (dos_time now) (dos_date now)) (λ header.
      yielded (header ++ encoded_name) (
        or_raise body (λ chunks.
          copy_body 0 0 chunks
          andthen end_file encoded_name now offset (length (header ++ encoded_name))))))

-- An entry of the archive: its object key, its name as `unique_download_names` gives it, and the time at
-- which the loop comes to it.
pub record Item : Type 0 where
  pub object_key : Text
  pub safe_name : Text
  pub now : DateTime

-- The second loop; it ends in the offset behind the directory.
unfoldable pub central_directory : List Central → ℕ → Stream ℕ
unfolding or_raise central_header
central_directory [] offset = ended offset
central_directory (r ∷ records) offset = or_raise (central_header r) (λ header.
    yielded (header ++ r.encoded_name)
      (central_directory records (offset + length (header ++ r.encoded_name))))

-- Behind the files.
unfoldable pub close_archive : List Central × ℕ → Stream (List Central)
unfolding ◌andthen◌ or_raise central_directory end_record
close_archive (records, central_offset) =
    central_directory records central_offset andthen (λ offset.
      or_raise (end_record (length records) (offset - central_offset) central_offset)
        (λ bytes. yielded bytes (ended records)))

module _ (get_object_body : Text → Option (List Bytes)) where
  -- The first loop; it ends in the records and the offset behind the files.
  unfoldable pub local_files : List Item → ℕ → Stream (List Central × ℕ)
  unfolding ◌andthen◌ local_file
  local_files [] offset = ended ([], offset)
  local_files (item ∷ items) offset =
      local_file (get_object_body item.object_key) item.now item.safe_name offset
      andthen (λ (record', offset').
          local_files items offset' andthen (λ (records, last). ended (record' ∷ records, last)))

  -- The archive; the model ends in the records that the directory holds.
  unfoldable pub stream_photo_zip : List Item → Stream (List Central)
  unfolding ◌andthen◌ local_files close_archive
  stream_photo_zip items = local_files items 0 andthen close_archive
