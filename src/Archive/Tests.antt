-- ===== src/Archive/Tests.antt =====
-- Names and archives as in backend/tests.
use race_frame.Prelude.{
  ℕ, ◌≡◌, refl, List, [], ◌∷◌, Option, none, some, map, length, keep, take, codes,
}
use race_frame.Matching.Token.{Text}
use race_frame.Matching.Canonical.{Distinct}
use race_frame.Archive.Bytes.{Bytes, little_endian, pack, encode_utf8, crc32}
use race_frame.Archive.Stream.{◌andthen◌, or_raise, sent, end}
use race_frame.Archive.Zip.{
  Central, DateTime, Item, local_header, central_header, descriptor, end_record, copy_body,
  end_file, local_file, local_files, central_directory, close_archive, stream_photo_zip,
}
use race_frame.Archive.Extract.{drop, extract, content}
use race_frame.Archive.Decimal.{digits, str}
use race_frame.Archive.Names.{
  split_path, path_name, strip_left, strip_right, safe_download_name, rpartition, numbered,
  casefold, first_unused, pick_name, names_from, unique_download_names,
}
use race_frame.Archive.Unique.{unique_download_names-Distinct}

abbrev ascii : ℕ → Text
ascii c = []

abbrev noon : DateTime
noon = record { year = 2024; month = 6; day = 2; hour = 12; minute = 0; second = 0 }

abbrev items : List Item
items =
    record { object_key = codes "k1"; safe_name = codes "a"; now = noon }
    ∷ record { object_key = codes "k2"; safe_name = codes "b"; now = noon }
    ∷ []

-- Each object has two chunks.
abbrev object_body : Text → Option (List Bytes)
object_body key = some (codes "hi" ∷ codes "!" ∷ [])

abbrev records : Option (List Central) → List Central
records none = []
records (some rs) = rs

program : Unit {0}
unfolding little_endian pack encode_utf8 crc32 ◌andthen◌ or_raise sent end local_header
    central_header descriptor end_record copy_body end_file local_file local_files central_directory
    close_archive stream_photo_zip drop extract content digits str split_path path_name strip_left
    strip_right safe_download_name rpartition numbered casefold first_unused pick_name names_from
    unique_download_names keep take
program = tt

check_value : crc32 (codes "123456789") 0 ≡ 0xCBF43926
unfolding program
check_value = refl

offset_of_second :
    map (λ (r : Central). r.local_offset) (records (end (stream_photo_zip object_body items)))
    ≡ 0 ∷ 50 ∷ []
unfolding program
offset_of_second = refl

names_of_files :
    unique_download_names ascii
      (codes "x/IMG.jpg" ∷ codes "img.JPG" ∷ codes "C:\\img.jpg" ∷ codes "..." ∷ [])
    ≡ some (codes "IMG.jpg" ∷ codes "img-2.JPG" ∷ codes "img-3.jpg" ∷ codes "photo-4.jpg" ∷ [])
unfolding program
names_of_files = refl

unique_download_names-Distinct_example :
    (names : List Text) × (unique_download_names ascii (codes "a.jpg" ∷ codes "A.jpg" ∷ [])
      ≡ some names)
    × (length names ≡ 2)
    × Distinct (map (casefold ascii) names)
unique_download_names-Distinct_example =
    unique_download_names-Distinct ascii (codes "a.jpg" ∷ codes "A.jpg" ∷ [])
