-- ===== src/Archive/Extract.antt =====
-- backend/app/photo_archive.py: what a reader of the archive finds where the directory points.
use race_frame.Prelude.{
  ℕ, zero, suc, ◌+◌, ◌≡◌, refl, sym, ap, ◌∙◌, subst, inl, inr, List, [], ◌∷◌, ◌++◌, Option, none,
  some, some-injective, ltb, length, length-append, take, arith, Bool-cases, ◌^◌, ◌/◌,
}
use race_frame.Archive.Bytes.{Bytes, pack, append_field, little_endian, crc32}
use race_frame.Archive.Stream.{sent, end}
use race_frame.Archive.Zip.{Central, copy_body, zip32_max}

-- `xs[n:]`
unfoldable pub drop {ℓ} : {A : Type ℓ} → ℕ → List A → List A
drop zero xs = xs
drop (suc n) [] = []
drop (suc n) (x ∷ xs) = drop n xs

-- The content of a file, as the directory says where it is: behind the local header of 30 bytes and the
-- name.
unfoldable pub extract : Bytes → Central → Bytes
unfolding drop
extract archive r = take r.file_size (drop (r.local_offset + (30 + length r.encoded_name)) archive)

-- The reads of a body up to the first empty one.
unfoldable pub content : List Bytes → Bytes
content [] = []
content ([] ∷ chunks) = []
content ((b ∷ chunk) ∷ chunks) = (b ∷ chunk) ++ content chunks

pub drop-append :
    (n : ℕ) (before after : Bytes) → length before ≡ n → drop n (before ++ after) ≡ after
unfolding drop
drop-append n before after h = subst (λ m. drop m (before ++ after) ≡ after) h (past before)
  where
    past : (before : Bytes) → drop (length before) (before ++ after) ≡ after
    past [] = refl
    past (x ∷ before) = past before

pub take-append : (n : ℕ) (whole after : Bytes) → length whole ≡ n → take n (whole ++ after) ≡ whole
unfolding take
take-append n whole after h = subst (λ m. take m (whole ++ after) ≡ whole) h (upto whole)
  where
    upto : (whole : Bytes) → take (length whole) (whole ++ after) ≡ whole
    upto [] = refl
    upto (x ∷ whole) = ap (◌∷◌ x) (upto whole)

abbrev widths : List (ℕ × ℕ) → ℕ
widths [] = 0
widths ((width, n) ∷ fields) = width + widths fields

length-little_endian : (width n : ℕ) → length (little_endian width n) ≡ width
unfolding little_endian
length-little_endian zero n = refl
length-little_endian (suc width) n = ap suc (length-little_endian width (n / 256))

append_field-some :
    (width n : ℕ) (packed : Option Bytes) {bytes : Bytes}
    → append_field width n packed ≡ some bytes
    → (rest : Bytes) × (packed ≡ some rest) × (bytes ≡ little_endian width n ++ rest)
append_field-some width n none h = cc
append_field-some width n (some rest) h = elim (Bool-cases (ltb n (256 ^ width))) [
  | inl e ↦ (rest, refl, sym (some-injective _ _ (rw e at h)))
  | inr e ↦ let absurd = rw e at h in cc
]

pub length-pack :
    (fields : List (ℕ × ℕ)) {bytes : Bytes}
    → pack fields ≡ some bytes
    → length bytes ≡ widths fields
unfolding pack
length-pack [] h = ap length (sym (some-injective _ _ h))
length-pack ((width, n) ∷ fields) h =
    let (rest, packed, joined) = append_field-some width n (pack fields) h in
    ap length joined
    ∙ (length-append (little_endian width n) rest
        ∙ omega (arith, length-little_endian width n, length-pack fields packed))

abbrev counted_size : Option (ℕ × ℕ) → ℕ
counted_size none = 0
counted_size (some (_, file_size)) = file_size

pub copy_body-content :
    (crc file_size : ℕ) (chunks : List Bytes) {crc' file_size' : ℕ}
    → end (copy_body crc file_size chunks) ≡ some (crc', file_size')
    → (sent (copy_body crc file_size chunks) ≡ content chunks)
      × (file_size' ≡ file_size + length (content chunks))
unfolding copy_body content sent end
copy_body-content crc file_size [] h = (refl, omega (arith, ap counted_size h))
copy_body-content crc file_size ([] ∷ chunks) h = (refl, omega (arith, ap counted_size h))
copy_body-content crc file_size ((b ∷ chunk) ∷ chunks) h =
    let file_size' = file_size + length (b ∷ chunk) in
    elim (Bool-cases (ltb zip32_max file_size')) [
      | inl e ↦ let absurd = rw e at h in cc
      | inr e ↦
          let (same, size) =
            copy_body-content (crc32 (b ∷ chunk) crc) file_size' chunks (rw e at h) in
          (
            rw e (ap (λ rest. (b ∷ chunk) ++ rest) same),
            omega (arith, size, length-append (b ∷ chunk) (content chunks)),
          )
    ]
