-- ===== src/Archive/Names.antt =====
-- backend/app/photo_archive.py: `safe_download_name` and `unique_download_names`. `str.casefold` lowers
-- ASCII; beyond, the Unicode table is an argument.
use race_frame.Prelude.{
  ℕ, zero, suc, ◌+◌, Bool, not, ◌&&◌, ◌||◌, List, [], ◌∷◌, ◌++◌, Option, none, some, map, leb, ltb,
  ◌==◌, if◌then◌else◌, take, keep, is_empty, length, codes,
}
use race_frame.Matching.Token.{Text, text_eq, is_member, to_lower}
use race_frame.Archive.Decimal.{str}

-- The parts between the separators.
abbrev push_char : ℕ → List Text → List Text
push_char c [] = (c ∷ []) ∷ []
push_char c (part ∷ parts) = (c ∷ part) ∷ parts

unfoldable pub split_path : Text → List Text
split_path [] = [] ∷ []
split_path (c ∷ s) = let parts = split_path s in if c == b'/' then [] ∷ parts else push_char c parts

abbrev last_part : Text → List Text → Text
last_part part [] = part
last_part part (next ∷ parts) = last_part next parts

-- `PurePath(s).name`: empty parts and dots are no parts of a path.
unfoldable pub path_name : Text → Text
unfolding split_path keep
path_name s =
    last_part [] (keep (λ part. not (is_empty part || text_eq part (codes "."))) (split_path s))

abbrev is_edge : ℕ → Bool
is_edge c = c == b' ' || c == b'.'

unfoldable pub strip_left : Text → Text
strip_left [] = []
strip_left (c ∷ s) = if is_edge c then strip_left s else c ∷ s

abbrev drop_edge : ℕ → Text → Text
drop_edge c [] = if is_edge c then [] else c ∷ []
drop_edge c (d ∷ s) = c ∷ d ∷ s

unfoldable pub strip_right : Text → Text
strip_right [] = []
strip_right (c ∷ s) = drop_edge c (strip_right s)

abbrev or_else : Text → Text → Text
or_else [] fallback = fallback
or_else (c ∷ s) fallback = c ∷ s

abbrev pub is_printable : ℕ → Bool
is_printable c = leb 32 c && not (c == b'"' || c == b':')

unfoldable pub safe_download_name : Text → Text → Text
unfolding path_name keep take strip_left strip_right
safe_download_name file_name fallback =
    let normalized = map (λ c. if c == b'\\' then b'/' else c) file_name in
    let name = keep is_printable (path_name normalized) in
    or_else (strip_right (strip_left (take 200 name))) fallback

-- `name.rpartition(".")`, where `none` is a name without a dot.
unfoldable pub rpartition : Text → Option (Text × Text)
rpartition [] = none
rpartition (c ∷ s) = elim (rpartition s) [
  | some (stem, extension) ↦ some (c ∷ stem, extension)
  | none ↦ if c == b'.' then some ([], s) else none
]

-- What stands around the number in a numbered candidate.
abbrev pub around : Text → Option (Text × Text) → Text × Text
around name none = (name ++ codes "-", [])
around name (some (stem, extension)) = (or_else stem name ++ codes "-", codes "." ++ extension)

unfoldable pub numbered : Text → ℕ → Text
unfolding rpartition str
numbered name suffix =
    let (before, after) = around name (rpartition name) in before ++ (str suffix ++ after)

module _ (wide : ℕ → Text) where
  abbrev pub fold_char : ℕ → Text
  fold_char c = if ltb c 128 then to_lower c ∷ [] else wide c

  unfoldable pub casefold : Text → Text
  casefold [] = []
  casefold (c ∷ s) = fold_char c ++ casefold s

  -- The `while` loop on its candidates from a suffix on; `none` is a loop that has not ended with the fuel.
  unfoldable pub first_unused : List Text → Text → ℕ → ℕ → Option Text
  unfolding casefold numbered
  first_unused used name zero suffix = none
  first_unused used name (suc fuel) suffix =
      let next = first_unused used name fuel (suffix + 1) in
      if is_member (casefold (numbered name suffix)) used then next else some (numbered name suffix)

  unfoldable pub pick_name : List Text → Text → Option Text
  unfolding casefold first_unused
  pick_name used name =
      if is_member (casefold name) used
      then first_unused used name (length used + 1) 2
      else some name

  abbrev add_name : Option Text → (Text → Option (List Text)) → Option (List Text)
  add_name none rest = none
  add_name (some name) rest = elim (rest name) [ some names ↦ some (name ∷ names) | none ↦ none ]

  unfoldable pub names_from : ℕ → List Text → List Text → Option (List Text)
  unfolding safe_download_name str pick_name casefold
  names_from index used [] = some []
  names_from index used (raw_name ∷ file_names) =
      let name = safe_download_name raw_name (codes "photo-" ++ (str index ++ codes ".jpg")) in
      add_name (pick_name used name)
        (λ candidate. names_from (index + 1) (casefold candidate ∷ used) file_names)

  unfoldable pub unique_download_names : List Text → Option (List Text)
  unfolding names_from
  unique_download_names file_names = names_from 1 [] file_names
