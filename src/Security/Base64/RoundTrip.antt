-- ===== src/Security/Base64/RoundTrip.antt =====
-- backend/app/web_security.py: what `_b64encode` writes, `_b64decode` reads back.
use race_frame.Prelude.{
  ℕ, suc, ◌+◌, ◌*◌, ◌/◌, ◌%◌, ◌<◌, ◌≡◌, refl, ap, Bool, true, false, not, [], ◌∷◌, ◌++◌, some, map,
  ltb, ◌==◌, length, all, All, arith,
}
use race_frame.Matching.Token.{Text}
use race_frame.Archive.Bytes.{Bytes}
use race_frame.Security.Base64.{
  alphabet, urlsafe_b64encode, strip_pad, rstrip_pad, b64encode, translate, sextet, Quad, start,
  one, two, three, take_sextet, prefix, a2b_base64, replicate, padding, b64decode,
}

-- The code without pad signs.
unpadded : Bytes → Text
unpadded [] = []
unpadded (a ∷ []) = alphabet (a / 4) ∷ alphabet (a % 4 * 16) ∷ []
unpadded (a ∷ b ∷ []) =
    alphabet (a / 4) ∷ alphabet (a % 4 * 16 + b / 16) ∷ alphabet (b % 16 * 4) ∷ []
unpadded (a ∷ b ∷ c ∷ bytes) =
    alphabet (a / 4)
    ∷ alphabet (a % 4 * 16 + b / 16)
    ∷ alphabet (b % 16 * 4 + c / 64)
    ∷ alphabet (c % 64)
    ∷ unpadded bytes

alphabet-not_pad : (n : ℕ) → (alphabet n == b'=') ≡ false
unfolding alphabet
alphabet-not_pad n = ground arith

translate-not_pad : (n : ℕ) → (translate (alphabet n) == b'=') ≡ false
unfolding alphabet translate
translate-not_pad n = ground arith

pub alphabet-ascii : (n : ℕ) → ltb (alphabet n) 128 ≡ true
unfolding alphabet
alphabet-ascii n = ground arith

sextet-alphabet : (n : ℕ) → n < 64 → sextet (translate (alphabet n)) ≡ some n
unfolding alphabet translate sextet
sextet-alphabet n h = ground arith

strip_pad-alphabet : (n : ℕ) (s : Text) → strip_pad (alphabet n) s ≡ alphabet n ∷ s
strip_pad-alphabet n [] = rw (alphabet-not_pad n) refl
strip_pad-alphabet n (c ∷ s) = refl

b64encode-unpadded : (bytes : Bytes) → b64encode bytes ≡ unpadded bytes
unfolding b64encode urlsafe_b64encode rstrip_pad unpadded
b64encode-unpadded [] = refl
b64encode-unpadded (a ∷ []) = simp strip_pad-alphabet
b64encode-unpadded (a ∷ b ∷ []) = simp strip_pad-alphabet
b64encode-unpadded (a ∷ b ∷ c ∷ bytes) = simp (strip_pad-alphabet, b64encode-unpadded bytes)

a2b_base64-alphabet :
    (quad : Quad) (pads n : ℕ) (s : Text)
    → n < 64
    → a2b_base64 quad pads (translate (alphabet n) ∷ s)
      ≡ prefix (take_sextet quad n).0 (a2b_base64 (take_sextet quad n).1 0 s)
unfolding a2b_base64
a2b_base64-alphabet quad pads n s h = rw (translate-not_pad n) rw (sextet-alphabet n h) refl

padding-period : (n : ℕ) → padding (suc (suc (suc (suc n)))) ≡ padding n
unfolding padding
padding-period n = ap (λ (k : ℕ). replicate k b'=') (omega arith)

abbrev pub IsByte : ℕ → Type 0
IsByte b = b < 256

-- The four sextets of three bytes.

module _ (a b c : ℕ) (is_a : IsByte a) (is_b : IsByte b) (is_c : IsByte c) where
  group-decodes :
      (s : Text) (bytes : Bytes)
      → a2b_base64 start 0 s ≡ some bytes
      → a2b_base64 start 0 (
          translate (alphabet (a / 4))
          ∷ translate (alphabet (a % 4 * 16 + b / 16))
          ∷ translate (alphabet (b % 16 * 4 + c / 64))
          ∷ translate (alphabet (c % 64))
          ∷ s)
        ≡ some (a ∷ b ∷ c ∷ bytes)
  group-decodes s bytes h =
      rw (a2b_base64-alphabet start 0 (a / 4) _ (omega arith)) rw
        (a2b_base64-alphabet (one (a / 4)) 0 (a % 4 * 16 + b / 16) _ (omega arith)) rw
        (a2b_base64-alphabet (two ((a % 4 * 16 + b / 16) % 16)) 0 (b % 16 * 4 + c / 64) _
          (omega arith))
        rw (a2b_base64-alphabet (three ((b % 16 * 4 + c / 64) % 4)) 0 (c % 64) s (omega arith)) rw h
        (ground arith)

pads_of_two : map translate (padding 2) ≡ b'=' ∷ b'=' ∷ []
unfolding padding replicate translate
pads_of_two = refl

pads_of_three : map translate (padding 3) ≡ b'=' ∷ []
unfolding padding replicate translate
pads_of_three = refl

end_of_two : (left : ℕ) → a2b_base64 (two left) 0 (b'=' ∷ b'=' ∷ []) ≡ some []
unfolding a2b_base64
end_of_two left = refl

end_of_three : (left : ℕ) → a2b_base64 (three left) 0 (b'=' ∷ []) ≡ some []
unfolding a2b_base64
end_of_three left = refl

unpadded-decodes :
    (bytes : Bytes)
    → All IsByte bytes
    → a2b_base64 start 0 (map translate (unpadded bytes ++ padding (length (unpadded bytes))))
      ≡ some bytes
unfolding unpadded
unpadded-decodes [] h = unfold a2b_base64 padding replicate in refl
unpadded-decodes (a ∷ []) (is_a, _) =
    rw pads_of_two rw (a2b_base64-alphabet start 0 (a / 4) _ (omega arith)) rw
      (a2b_base64-alphabet (one (a / 4)) 0 (a % 4 * 16) _ (omega arith)) rw
      (end_of_two (a % 4 * 16 % 16)) (ground arith)
unpadded-decodes (a ∷ b ∷ []) (is_a, (is_b, _)) =
    rw pads_of_three rw (a2b_base64-alphabet start 0 (a / 4) _ (omega arith)) rw
      (a2b_base64-alphabet (one (a / 4)) 0 (a % 4 * 16 + b / 16) _ (omega arith)) rw
      (a2b_base64-alphabet (two ((a % 4 * 16 + b / 16) % 16)) 0 (b % 16 * 4) _ (omega arith)) rw
      (end_of_three (b % 16 * 4 % 4)) (ground arith)
unpadded-decodes (a ∷ b ∷ c ∷ bytes) (is_a, (is_b, (is_c, h))) =
    rw (padding-period (length (unpadded bytes)))
      (group-decodes a b c is_a is_b is_c _ bytes (unpadded-decodes bytes h))

unpadded-ascii : (bytes : Bytes) → all (λ c. ltb c 128) (unpadded bytes) ≡ true
unfolding unpadded
unpadded-ascii [] = refl
unpadded-ascii (a ∷ []) = simp alphabet-ascii
unpadded-ascii (a ∷ b ∷ []) = simp alphabet-ascii
unpadded-ascii (a ∷ b ∷ c ∷ bytes) = simp (alphabet-ascii, unpadded-ascii bytes)

-- Every list of bytes is read back from its code, of which the pad signs have been stripped.
pub b64decode-b64encode :
    (value : Bytes) → All IsByte value → b64decode (b64encode value) ≡ some value
unfolding b64decode
b64decode-b64encode value h =
    rw (b64encode-unpadded value) rw (unpadded-ascii value) (unpadded-decodes value h)

-- The code of bytes is ASCII.
pub b64encode-ascii : (value : Bytes) → all (λ c. ltb c 128) (b64encode value) ≡ true
b64encode-ascii value = rw (b64encode-unpadded value) (unpadded-ascii value)

abbrev pub no_dot : Text → Bool
no_dot s = all (λ c. not (c == b'.')) s

alphabet-no_dot : (n : ℕ) → (alphabet n == b'.') ≡ false
unfolding alphabet
alphabet-no_dot n = ground arith

unpadded-no_dot : (bytes : Bytes) → no_dot (unpadded bytes) ≡ true
unfolding unpadded
unpadded-no_dot [] = refl
unpadded-no_dot (a ∷ []) = simp alphabet-no_dot
unpadded-no_dot (a ∷ b ∷ []) = simp alphabet-no_dot
unpadded-no_dot (a ∷ b ∷ c ∷ bytes) = simp (alphabet-no_dot, unpadded-no_dot bytes)

-- The code of bytes has no dot in it.
pub b64encode-no_dot : (value : Bytes) → no_dot (b64encode value) ≡ true
b64encode-no_dot value = rw (b64encode-unpadded value) (unpadded-no_dot value)
