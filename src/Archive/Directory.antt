-- ===== src/Archive/Directory.antt =====
-- backend/app/photo_archive.py: the directory of the archive leads to every file.
use race_frame.Prelude.{List, [], Option, none, some, map}
use race_frame.Matching.Token.{Text}
use race_frame.Archive.Bytes.{Bytes}
use race_frame.Archive.Zip.{Central, Item}
use race_frame.Archive.Extract.{extract}
use race_frame.Archive.Parts.{whole_body}

abbrev records_of : {A : Type 0} → Option (List Central × A) → List Central
records_of none = []
records_of (some (records, _)) = records

-- What a reader takes out of an archive for each of the records.
abbrev extract_all : Bytes → List Central → List (Option Bytes)
extract_all archive records = map (λ r. some (extract archive r)) records

module _ (get_object_body : Text → Option (List Bytes)) where
  abbrev bodies : List Item → List (Option Bytes)
  bodies items = map (λ (item : Item). whole_body (get_object_body item.object_key)) items
