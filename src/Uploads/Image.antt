-- ===== src/Uploads/Image.antt =====
-- backend/app/uploads.py: `validate_image_bytes`. Pillow, SHA-256 and the case table beyond ASCII are
-- arguments.
use race_frame.Prelude.{
  codes, ℕ, ◌*◌, Bool, not, ◌&&◌, ◌||◌, List, [], ◌∷◌, ◌++◌, Option, none, some, leb, ltb, ◌==◌,
  if◌then◌else◌, length, is_empty,
}
use race_frame.Matching.Token.{Text, text_eq, is_member, to_lower, upper}
use race_frame.Archive.Names.{path_name, rpartition}

-- What `Image.open` and `verify` find: a decompression bomb, no image, or an image.
pub data Probe : Type 0 where
  too_many_pixels : Probe
  not_an_image : Probe
  image : Text → ℕ → ℕ → ℕ → Probe

pub data ImageFormat : Type 0 where
  jpeg png webp : ImageFormat

pub record ValidatedImage : Type 0 where
  pub content_type : Text
  pub width : ℕ
  pub height : ℕ
  pub sha256 : Text

pub record ImageLimits : Type 0 where
  pub max_image_dimension : ℕ
  pub max_image_pixels : ℕ

-- The reasons of the ValueErrors.
pub data Reason : Type 0 where
  empty too_large name_too_long bomb invalid format extension declared_type no_size dimension pixels
        frames :
      Reason

pub data Validation : Type 0 where
  valid : ValidatedImage → Validation
  refuse : Reason → Validation

-- `ALLOWED_IMAGE_FORMATS.get(image_format)`
unfoldable pub allowed_format : Text → Option ImageFormat
allowed_format name =
    if text_eq name (codes "JPEG")
    then some jpeg
    else if text_eq name (codes "PNG")
    then some png
    else if text_eq name (codes "WEBP")
    then some webp
    else none

abbrev pub content_type_of : ImageFormat → Text
content_type_of jpeg = codes "image/jpeg"
content_type_of png = codes "image/png"
content_type_of webp = codes "image/webp"

abbrev pub extensions_of : ImageFormat → List Text
extensions_of jpeg = codes ".jpg" ∷ codes ".jpeg" ∷ []
extensions_of png = codes ".png" ∷ []
extensions_of webp = codes ".webp" ∷ []

-- `str.lower`, one code point at a time.
unfoldable pub lower : (ℕ → Text) → Text → Text
lower low [] = []
lower low (c ∷ s) = (if ltb c 128 then to_lower c ∷ [] else low c) ++ lower low s

-- `Path(file_name).suffix`
abbrev suffix_of : Option (Text × Text) → Text
suffix_of none = []
suffix_of (some ([], _)) = []
suffix_of (some (_ ∷ _, [])) = []
suffix_of (some (_ ∷ _, c ∷ behind)) = codes "." ++ (c ∷ behind)

unfoldable pub path_suffix : Text → Text
unfolding path_name rpartition
path_suffix file_name = suffix_of (rpartition (path_name file_name))

abbrev is_space : ℕ → Bool
is_space c = c == 32 || ((leb 9 c && leb c 13) || (leb 28 c && leb c 31))

-- `(declared or "").split(";", 1)[0].strip().lower()`, a header being ASCII.
unfoldable pub before_semicolon : Text → Text
before_semicolon [] = []
before_semicolon (c ∷ s) = if c == b';' then [] else c ∷ before_semicolon s

abbrev drop_space : ℕ → Text → Text
drop_space c [] = if is_space c then [] else c ∷ []
drop_space c (d ∷ s) = c ∷ d ∷ s

unfoldable pub strip_behind : Text → Text
strip_behind [] = []
strip_behind (c ∷ s) = drop_space c (strip_behind s)

unfoldable pub strip_before : Text → Text
strip_before [] = []
strip_before (c ∷ s) = if is_space c then strip_before s else c ∷ s

abbrev pub text_or_empty : Option Text → Text
text_or_empty none = []
text_or_empty (some s) = s

unfoldable pub declared_type_of : (ℕ → Text) → Option Text → Text
unfolding lower before_semicolon strip_behind strip_before
declared_type_of low declared =
    lower low (strip_behind (strip_before (before_semicolon (text_or_empty declared))))

module _ (wide low : ℕ → Text) (sha256 : Text → Text) (limits : ImageLimits) where
  abbrev pub has_other_type : Text → ImageFormat → Bool
  has_other_type declared f = not (is_empty declared) && not (text_eq declared (content_type_of f))

  abbrev pub has_extension : Text → ImageFormat → Bool
  has_extension file_name f = is_member (lower low (path_suffix file_name)) (extensions_of f)

  unfoldable pub check_format : Text → Text → Text → ℕ → ℕ → ℕ → Option ImageFormat → Validation
  unfolding lower path_suffix
  check_format content file_name declared width height frame_count none = refuse Reason.format
  check_format content file_name declared width height frame_count (some f) =
      if not (has_extension file_name f)
      then refuse extension
      else if has_other_type declared f
      then refuse declared_type
      else if width == 0 || height == 0
      then refuse no_size
      else if ltb limits.max_image_dimension width || ltb limits.max_image_dimension height
      then refuse dimension
      else if ltb limits.max_image_pixels (width * height)
      then refuse pixels
      else if not (frame_count == 1)
      then refuse frames
      else valid (record {
        content_type = content_type_of f;
        width = width;
        height = height;
        sha256 = sha256 content;
      })

  unfoldable pub check_probe : Text → Text → Option Text → Probe → Validation
  unfolding check_format allowed_format upper declared_type_of
  check_probe content file_name declared too_many_pixels = refuse bomb
  check_probe content file_name declared not_an_image = refuse invalid
  check_probe content file_name declared (image image_format width height frame_count) =
      check_format content file_name (declared_type_of low declared) width height frame_count
        (allowed_format (upper wide image_format))

  unfoldable pub validate_image_bytes : (Text → Probe) → Text → Text → Option Text → ℕ → Validation
  unfolding check_probe
  validate_image_bytes probe content file_name declared max_bytes =
      if is_empty content
      then refuse empty
      else if ltb max_bytes (length content)
      then refuse too_large
      else if ltb 255 (length file_name)
      then refuse name_too_long
      else check_probe content file_name declared (probe content)
