-- ===== src/Archive/Stream.antt =====
-- A generator of byte strings: what it has yielded, and how it ends. A RuntimeError, a struct.error or
-- another exception ends it after what it has yielded.
use race_frame.Prelude.{◌≡◌, refl, sym, ap, ◌∙◌, [], ◌++◌, append_assoc, Option, none, some}
use race_frame.Archive.Bytes.{Bytes}

pub data Stream {ℓ} (A : Type ℓ) : Type ℓ where
  ended : A → Stream A
  raised : Stream A
  yielded : Bytes → Stream A → Stream A

-- What a stream goes on with.
infixl 5 ◌andthen◌
unfoldable pub ◌andthen◌ {ℓ κ} : {A : Type ℓ} {B : Type κ} → Stream A → (A → Stream B) → Stream B
ended a andthen next = next a
raised andthen next = raised
yielded chunk s andthen next = yielded chunk (s andthen next)

-- An expression that may raise, before the stream goes on.
unfoldable pub or_raise {ℓ κ} : {A : Type ℓ} {B : Type κ} → Option A → (A → Stream B) → Stream B
or_raise none next = raised
or_raise (some a) next = next a

-- The bytes that were yielded.
unfoldable pub sent {ℓ} : {A : Type ℓ} → Stream A → Bytes
sent (ended a) = []
sent raised = []
sent (yielded chunk s) = chunk ++ sent s

-- The value that the stream ends in.
unfoldable pub end {ℓ} : {A : Type ℓ} → Stream A → Option A
end (ended a) = some a
end raised = none
end (yielded chunk s) = end s

-- A stream of two parts that ends has sent the bytes of the first, which ended, and of the second.
pub andthen_parts {ℓ κ} :
    {A : Type ℓ} {B : Type κ} (s : Stream A) (next : A → Stream B) {b : B}
    → end (s andthen next) ≡ some b
    → (a : A) × (end s ≡ some a)
      × (end (next a) ≡ some b)
      × (sent (s andthen next) ≡ sent s ++ sent (next a))
unfolding ◌andthen◌ sent end
andthen_parts (ended a) next ends = (a, refl, ends, refl)
andthen_parts raised next ends = cc
andthen_parts (yielded chunk s) next ends =
    let (a, first, second, bytes) = andthen_parts s next ends in
    (
      a,
      first,
      second,
      ap (λ rest. chunk ++ rest) bytes ∙ sym (append_assoc chunk (sent s) (sent (next a))),
    )

pub or_raise_parts {ℓ κ} :
    {A : Type ℓ} {B : Type κ} (value : Option A) (next : A → Stream B) {b : B}
    → end (or_raise value next) ≡ some b
    → (a : A) × (value ≡ some a)
      × (end (next a) ≡ some b)
      × (sent (or_raise value next) ≡ sent (next a))
unfolding or_raise end
or_raise_parts none next ends = cc
or_raise_parts (some a) next ends = (a, refl, ends, refl)
