-- ===== src/Security/Base64.antt =====
-- backend/app/web_security.py: `_b64encode` and `_b64decode`, with the functions of Python's `base64` that
-- they call. Bytes and ASCII texts are lists of numbers.
pub mod RoundTrip
use race_frame.Prelude.{
  ℕ, zero, suc, ◌+◌, ◌-◌, ◌*◌, ◌/◌, ◌%◌, Bool, true, false, ◌&&◌, [], ◌∷◌, ◌++◌, Option, none, some,
  map, leb, ltb, ◌==◌, if◌then◌else◌, length, all,
}
use race_frame.Matching.Token.{Text}
use race_frame.Archive.Bytes.{Bytes}

-- The URL-safe alphabet.
unfoldable pub alphabet : ℕ → ℕ
alphabet n =
    if ltb n 26
    then n + 65
    else if ltb n 52
    then n + 71
    else if ltb n 62
    then n - 4
    else if n == 62
    then b'-'
    else b'_'

-- `urlsafe_b64encode`
unfoldable pub urlsafe_b64encode : Bytes → Text
unfolding alphabet
urlsafe_b64encode [] = []
urlsafe_b64encode (a ∷ []) = alphabet (a / 4) ∷ alphabet (a % 4 * 16) ∷ b'=' ∷ b'=' ∷ []
urlsafe_b64encode (a ∷ b ∷ []) =
    alphabet (a / 4) ∷ alphabet (a % 4 * 16 + b / 16) ∷ alphabet (b % 16 * 4) ∷ b'=' ∷ []
urlsafe_b64encode (a ∷ b ∷ c ∷ bytes) =
    alphabet (a / 4)
    ∷ alphabet (a % 4 * 16 + b / 16)
    ∷ alphabet (b % 16 * 4 + c / 64)
    ∷ alphabet (c % 64)
    ∷ urlsafe_b64encode bytes

abbrev pub strip_pad : ℕ → Text → Text
strip_pad c [] = if c == b'=' then [] else c ∷ []
strip_pad c (d ∷ s) = c ∷ d ∷ s

-- `rstrip(b"=")`
unfoldable pub rstrip_pad : Text → Text
rstrip_pad [] = []
rstrip_pad (c ∷ s) = strip_pad c (rstrip_pad s)

unfoldable pub b64encode : Bytes → Text
unfolding urlsafe_b64encode rstrip_pad
b64encode value = rstrip_pad (urlsafe_b64encode value)

-- `urlsafe_b64decode` first translates to the common alphabet.
unfoldable pub translate : ℕ → ℕ
translate c = if c == b'-' then b'+' else if c == b'_' then b'/' else c

-- The table of `binascii.a2b_base64`.
unfoldable pub sextet : ℕ → Option ℕ
sextet c =
    if leb b'A' c && leb c b'Z'
    then some (c - 65)
    else if leb b'a' c && leb c b'z'
    then some (c - 71)
    else if leb b'0' c && leb c b'9'
    then some (c + 4)
    else if c == b'+'
    then some 62
    else if c == b'/'
    then some 63
    else none

-- How much of a group of four is read, and the bits that are left of it.
pub data Quad : Type 0 where
  start : Quad
  one two three : ℕ → Quad

abbrev pub take_sextet : Quad → ℕ → Bytes × Quad
take_sextet start v = ([], one v)
take_sextet (one left) v = ((left * 4 + v / 16) ∷ [], two (v % 16))
take_sextet (two left) v = ((left * 16 + v / 4) ∷ [], three (v % 4))
take_sextet (three left) v = ((left * 64 + v) ∷ [], start)

-- A pad sign ends the input behind two sextets and a pad, or behind three.
abbrev pub is_last_pad : Quad → ℕ → Bool
is_last_pad start pads = false
is_last_pad (one left) pads = false
is_last_pad (two left) pads = leb 1 pads
is_last_pad (three left) pads = true

abbrev pub count_pad : Quad → ℕ → ℕ
count_pad start pads = pads
count_pad (one left) pads = pads
count_pad (two left) pads = pads + 1
count_pad (three left) pads = pads + 1

abbrev pub at_end : Quad → Option Bytes
at_end start = some []
at_end (one left) = none
at_end (two left) = none
at_end (three left) = none

abbrev pub prefix : Bytes → Option Bytes → Option Bytes
prefix bytes none = none
prefix bytes (some rest) = some (bytes ++ rest)

-- `binascii.a2b_base64`, which skips what is not of the alphabet; `none` is a binascii.Error.
unfoldable pub a2b_base64 : Quad → ℕ → Text → Option Bytes
unfolding sextet
a2b_base64 quad pads [] = at_end quad
a2b_base64 quad pads (c ∷ s) =
    let padded =
      if is_last_pad quad pads then some [] else a2b_base64 quad (count_pad quad pads) s in
    let other : Option Bytes = elim (sextet c) [
      | none ↦ a2b_base64 quad pads s
      | some v ↦ prefix (take_sextet quad v).0 (a2b_base64 (take_sextet quad v).1 0 s)
    ] in
    if c == b'=' then padded else other

unfoldable pub replicate : ℕ → ℕ → Text
replicate zero c = []
replicate (suc n) c = c ∷ replicate n c

-- `"=" * (-len(value) % 4)`
unfoldable pub padding : ℕ → Text
unfolding replicate
padding n = replicate ((4 - n % 4) % 4) b'='

-- A text beyond ASCII is a ValueError.
unfoldable pub b64decode : Text → Option Bytes
unfolding padding translate a2b_base64
b64decode value =
    if all (λ c. ltb c 128) value
    then a2b_base64 start 0 (map translate (value ++ padding (length value)))
    else none
