-- ===== src/Limits/Headers.antt =====
-- backend/app/web_security.py: the request that the middleware sees, and Python's `int` on bytes.
use race_frame.Prelude.{
  ℕ, ◌+◌, ◌*◌, ◌-◌, Bool, true, false, not, ◌&&◌, ◌||◌, List, [], ◌∷◌, Option, none, some, map, leb,
  ltb, ◌==◌, if◌then◌else◌,
}
use race_frame.Matching.Token.{Text, text_eq, is_digit, to_lower}

abbrev pub ends_with : Text → Text → Bool
ends_with suffix [] = text_eq suffix []
ends_with suffix (c ∷ s) = text_eq suffix (c ∷ s) || ends_with suffix s

pub record Scope : Type 0 where
  pub scope_type : Text
  pub method : Text
  pub path : Text
  pub headers : List (Text × Text)

-- `{name.lower(): value for …}.get(name)`: the last value of a name stays.
unfoldable pub get_header : Text → List (Text × Text) → Option Text
get_header name [] = none
get_header name ((n, value) ∷ headers) = elim (get_header name headers) [
  | some last ↦ some last
  | none ↦ if text_eq (map to_lower n) name then some value else none
]

abbrev is_space : ℕ → Bool
is_space c = c == 32 || (leb 9 c && leb c 13)

abbrev strip_left : Text → Text
strip_left [] = []
strip_left (c ∷ s) = if is_space c then strip_left s else c ∷ s

abbrev all_space : Text → Bool
all_space [] = true
all_space (c ∷ s) = is_space c && all_space s

-- The digits of an `int`, with single underscores between them and space behind.
abbrev digits_from : Bool → ℕ → Text → Option ℕ
digits_from after_digit n [] = if after_digit then some n else none
digits_from after_digit n (c ∷ s) =
    let digit = digits_from true (10 * n + (c - b'0')) s in
    let underscore = digits_from false n s in
    if is_digit c
    then digit
    else if after_digit && c == b'_'
    then underscore
    else if after_digit && all_space (c ∷ s)
    then some n
    else none

-- An `int` by its sign and its size; `none` is a ValueError.
pub record PyInt : Type 0 where
  pub minus : Bool
  pub size : ℕ

abbrev with_sign : Bool → Option ℕ → Option PyInt
with_sign minus none = none
with_sign minus (some size) = some (record { minus = minus; size = size })

abbrev signed_digits : Text → Option PyInt
signed_digits [] = none
signed_digits (c ∷ s) =
    let positive = with_sign false (digits_from false 0 s) in
    let negative = with_sign true (digits_from false 0 s) in
    let plain = with_sign false (digits_from false 0 (c ∷ s)) in
    if c == b'+' then positive else if c == b'-' then negative else plain

unfoldable pub parse_int : Text → Option PyInt
parse_int s = signed_digits (strip_left s)

abbrev pub is_negative : PyInt → Bool
is_negative n = n.minus && ltb 0 n.size

-- `n > limit`, on a limit that is not negative.
abbrev pub exceeds : PyInt → ℕ → Bool
exceeds n limit = not n.minus && ltb limit n.size
