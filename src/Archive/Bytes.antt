-- ===== src/Archive/Bytes.antt =====
-- backend/app/photo_archive.py: `struct.pack` with a little-endian format, `str.encode("utf-8")` and
-- `zlib.crc32`.
use Prim.Native.Nat.{bit_xor}
use race_frame.Prelude.{
  ℕ, zero, suc, ◌+◌, ◌/◌, ◌%◌, ◌^◌, ◌&&◌, List, [], ◌∷◌, ◌++◌, Option, none, some, leb, ltb, ◌==◌,
  if◌then◌else◌,
}
use race_frame.Matching.Token.{Text}

abbrev pub Bytes : Type 0
Bytes = List ℕ

unfoldable pub little_endian : ℕ → ℕ → Bytes
little_endian zero n = []
little_endian (suc width) n = n % 256 ∷ little_endian width (n / 256)

-- A field is its width in bytes and its value; a value that is too large is a struct.error.
abbrev pub append_field : ℕ → ℕ → Option Bytes → Option Bytes
append_field width n none = none
append_field width n (some bytes) =
    if ltb n (256 ^ width) then some (little_endian width n ++ bytes) else none

unfoldable pub pack : List (ℕ × ℕ) → Option Bytes
pack [] = some []
pack ((width, n) ∷ fields) = append_field width n (pack fields)

abbrev tail_byte : ℕ → ℕ → ℕ
tail_byte c shift = 128 + c / shift % 64

utf8_char : ℕ → Option Bytes
utf8_char c =
    if ltb c 128
    then some (c ∷ [])
    else if ltb c 2_048
    then some ((192 + c / 64) ∷ tail_byte c 1 ∷ [])
    else if leb 55_296 c && ltb c 57_344
    then none
    else if ltb c 65_536
    then some ((224 + c / 4_096) ∷ tail_byte c 64 ∷ tail_byte c 1 ∷ [])
    else some ((240 + c / 262_144) ∷ tail_byte c 4_096 ∷ tail_byte c 64 ∷ tail_byte c 1 ∷ [])

abbrev join : Option Bytes → Option Bytes → Option Bytes
join (some a) (some b) = some (a ++ b)
join none _ = none
join _ none = none

-- A surrogate is a UnicodeEncodeError.
unfoldable pub encode_utf8 : Text → Option Bytes
unfolding utf8_char
encode_utf8 [] = some []
encode_utf8 (c ∷ s) = join (utf8_char c) (encode_utf8 s)

crc_bits : ℕ → ℕ → ℕ
crc_bits zero register = register
crc_bits (suc n) register =
    crc_bits n (if register % 2 == 1 then bit_xor (register / 2) 0xEDB88320 else register / 2)

crc_bytes : Bytes → ℕ → ℕ
unfolding crc_bits
crc_bytes [] register = register
crc_bytes (b ∷ bytes) register = crc_bytes bytes (crc_bits 8 (bit_xor register b))

-- `zlib.crc32(chunk, crc)`
unfoldable pub crc32 : Bytes → ℕ → ℕ
unfolding crc_bytes
crc32 chunk crc = bit_xor (crc_bytes chunk (bit_xor crc 0xFFFFFFFF)) 0xFFFFFFFF
