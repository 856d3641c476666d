-- ===== src/Uploads/Accepted.antt =====
-- backend/app/uploads.py: what is known of an upload that is accepted.
use race_frame.Prelude.{
  ℕ, zero, suc, ◌+◌, ◌*◌, ◌≤◌, ◌≡◌, refl, sym, ap, ◌∙◌, subst, inl, inr, Bool, true, false, [], ◌∷◌,
  Option, none, some, ltb, ◌==◌, if◌then◌else◌, take, length, is_empty, arith, Bool-cases,
}
use race_frame.Matching.Token.{Text, upper}
use race_frame.Uploads.Read.{
  UploadResult, read, http_error, declared_error, checked, read_declared, read_upload_limited,
}
use race_frame.Uploads.Image.{
  Probe, image, ImageFormat, ValidatedImage, ImageLimits, Validation, valid, refuse,
  content_type_of, has_extension, has_other_type, allowed_format, declared_type_of,
}

whole-take : (n m : ℕ) (s : Text) → m ≡ n + 1 → length (take m s) ≤ n → take m s ≡ s
unfolding take
whole-take n zero s e h = ground arith
whole-take n (suc m) [] e h = refl
whole-take zero (suc m) (c ∷ s) e h = ground arith
whole-take (suc n) (suc m) (c ∷ s) e h =
    ap (◌∷◌ c) (whole-take n m s (omega (arith, e)) (omega (arith, h)))

content_of : UploadResult → Text
content_of (read content) = content
content_of _ = []

image_of : ValidatedImage → Validation → ValidatedImage
image_of v (valid w) = w
image_of v (refuse _) = v

filled_length : (s : Text) → is_empty s ≡ false → 1 ≤ length s
filled_length [] h = cc
filled_length (c ∷ s) h = omega arith

if_read :
    (test : Bool) (status_code : ℕ) (rest : UploadResult) {content : Text}
    → (if test then http_error status_code else rest) ≡ read content
    → (test ≡ false) × (rest ≡ read content)
if_read true status_code rest h = cc
if_read false status_code rest h = (refl, h)

checked-read :
    (limit : ℕ) (given : Text) {content : Text}
    → checked limit given ≡ read content
    → (given ≡ content) × (1 ≤ length given) × (length given ≤ limit)
unfolding checked content_of
checked-read limit given {content} h =
    let (small, next) =
      if_read (ltb limit (length given)) 413 (if is_empty given then http_error 400 else read given)
        h in
    let (filled, is) = if_read (is_empty given) 400 (read given) next in
    (ap content_of is, filled_length given filled, ground arith)

-- An upload that is read is the whole upload, not empty and within the limit.
pub read_upload_limited-Within :
    (limit : ℕ) (declared : Option Text) (stored content : Text)
    → read_upload_limited limit declared stored ≡ read content
    → (content ≡ stored) × (1 ≤ length stored) × (length stored ≤ limit)
unfolding read_upload_limited read_declared
read_upload_limited-Within limit declared stored content h = elim (Bool-cases (limit == 0)) [
  | inl e ↦ let absurd = rw e at h in cc
  | inr e ↦ of_declared (declared_error limit declared) (rw e at h)
]
  where
    of_declared :
        (o : Option ℕ)
        → read_declared limit o stored ≡ read content
        → (content ≡ stored) × (1 ≤ length stored) × (length stored ≤ limit)
    of_declared none k =
        let (same, filled, small) = checked-read limit (take (limit + 1) stored) k in
        let whole = whole-take limit (limit + 1) stored refl small in
        (
          sym same ∙ whole,
          subst (λ s. 1 ≤ length s) whole filled,
          subst (λ s. length s ≤ limit) whole small,
        )
    of_declared (some status_code) k = cc

-- The size of the picture is within the limits.
abbrev pub HasSize : ImageLimits → ValidatedImage → Type 0
HasSize limits v =
    (1 ≤ v.width)
    × (v.width ≤ limits.max_image_dimension)
    × (1 ≤ v.height)
    × (v.height ≤ limits.max_image_dimension)
    × (v.width * v.height ≤ limits.max_image_pixels)

module _ (wide low : ℕ → Text) (sha256 : Text → Text) (limits : ImageLimits) where
  -- One frame in one of the formats, which the name of the file, the declared type and the result agree with.
  abbrev pub IsAccepted : Text → Text → Option Text → Probe → ValidatedImage → Type 0
  IsAccepted content file_name declared probe v =
      (name : Text) × (f : ImageFormat) × (probe ≡ image name v.width v.height 1)
      × (allowed_format (upper wide name) ≡ some f)
      × (has_extension wide low sha256 limits file_name f ≡ true)
      × (has_other_type wide low sha256 limits (declared_type_of low declared) f ≡ false)
      × (v.content_type ≡ content_type_of f)
      × (v.sha256 ≡ sha256 content)
      × HasSize limits v
