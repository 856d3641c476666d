-- ===== src/Http.antt =====
-- What a request handler ends in: a value, or an `HTTPException` with its status and detail.
use Prim.Native.String.{String}
use race_frame.Prelude.{ℕ, ◌≡◌, refl, ap}

pub record HttpException : Type 0 where
  pub status_code : ℕ
  pub detail : String

pub data Result {ℓ} (A : Type ℓ) : Type ℓ where
  ok : A → Result A
  raise : HttpException → Result A

abbrev pub http {ℓ} : {A : Type ℓ} → ℕ → String → Result A
http status_code detail = raise (record { status_code = status_code; detail = detail })

infixl 5 ◌>>=◌
abbrev pub ◌>>=◌ {ℓ κ} : {A : Type ℓ} {B : Type κ} → Result A → (A → Result B) → Result B
ok a >>= f = f a
raise e >>= f = raise e

-- A chain that ends in a value has passed its first step, with some value.
pub >>=-eq-ok {ℓ κ} :
    {A : Type ℓ} {B : Type κ} (first : Result A) (rest : A → Result B) {last : B}
    → (first >>= rest) ≡ ok last
    → (value : A) × (first ≡ ok value) × (rest value ≡ ok last)
>>=-eq-ok (ok value) rest ended = (value, refl, ended)
>>=-eq-ok (raise failure) rest ended = cc

-- The value in an `ok`, or the one at hand.
abbrev value_or {ℓ} : {A : Type ℓ} → A → Result A → A
value_or d (ok a) = a
value_or d (raise e) = d

pub ok-injective {ℓ} : {A : Type ℓ} {a b : A} → ok a ≡ ok b → a ≡ b
ok-injective {a = a} h = ap (value_or a) h
