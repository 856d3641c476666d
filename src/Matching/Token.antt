-- ===== src/Matching/Token.antt =====
-- backend/app/face.py and backend/app/participant_lookup.py: canonical tokens. A text is the list of
-- its code points. `str.upper` is the ASCII one below 128; beyond, the Unicode table is an argument.
use race_frame.Prelude.{
  ℕ, ◌+◌, ◌≡◌, refl, arith, ◌-◌, Bool, true, false, ◌&&◌, ◌||◌, List, [], ◌∷◌, ◌++◌, map, leb, ltb,
  ◌==◌, if◌then◌else◌, keep, take,
}

abbrev pub Text : Type 0
Text = List ℕ

abbrev pub is_digit : ℕ → Bool
is_digit c = leb b'0' c && leb c b'9'

abbrev pub is_capital : ℕ → Bool
is_capital c = leb b'A' c && leb c b'Z'

abbrev pub is_small : ℕ → Bool
is_small c = leb b'a' c && leb c b'z'

-- `[A-Z0-9]`
abbrev pub is_token : ℕ → Bool
is_token c = is_capital c || is_digit c

-- `[A-Za-z0-9]`
abbrev pub is_alphanumeric : ℕ → Bool
is_alphanumeric c = is_capital c || (is_small c || is_digit c)

abbrev pub to_upper : ℕ → ℕ
to_upper c = if is_small c then c - 32 else c

-- The lower case in ASCII, as `bytes.lower` has it.
abbrev pub to_lower : ℕ → ℕ
to_lower c = if is_capital c then c + 32 else c

abbrev pub text_eq : Text → Text → Bool
text_eq [] [] = true
text_eq [] (_ ∷ _) = false
text_eq (_ ∷ _) [] = false
text_eq (a ∷ s) (b ∷ t) = a == b && text_eq s t

pub text_eq_sound : (s t : Text) → text_eq s t ≡ true → s ≡ t
text_eq_sound [] [] h = refl
text_eq_sound [] (_ ∷ _) h = cc
text_eq_sound (_ ∷ _) [] h = cc
text_eq_sound (a ∷ s) (b ∷ t) h =
    let rest : s ≡ t = text_eq_sound s t (ground arith) in let first : a ≡ b = ground arith in cc

pub text_eq_refl : (s : Text) → text_eq s s ≡ true
text_eq_refl [] = refl
text_eq_refl (c ∷ s) = ground (arith, text_eq_refl s)

abbrev pub is_member : Text → List Text → Bool
is_member s [] = false
is_member s (t ∷ ts) = text_eq s t || is_member s ts

-- `str.upper`, one code point at a time.
upper_char : (ℕ → Text) → ℕ → Text
upper_char wide c = if ltb c 128 then to_upper c ∷ [] else wide c

unfoldable pub upper : (ℕ → Text) → Text → Text
unfolding upper_char
upper wide [] = []
upper wide (c ∷ s) = upper_char wide c ++ upper wide s

-- face.py: `re.sub(r"[^A-Za-z0-9]+", "", value).upper()`, where only ASCII is left to raise.
unfoldable pub normalize_match_token : Text → Text
normalize_match_token value = map to_upper (keep is_alphanumeric value)

-- participant_lookup.py, and `normalize_match_token` of photographer.py.
unfoldable pub normalize_bib_lookup : (ℕ → Text) → Text → Text
unfolding upper
normalize_bib_lookup wide value = take 64 (keep is_token (upper wide value))
