-- ===== src/Prelude/Quantifiers.antt =====
-- A property of every element of a list, under the list operations.
use Prim.Native.Nat.{ℕ, zero, suc}
use mathlib.Core.Path.{◌≡◌}
use mathlib.Core.Logic.{inl, inr}
use mathlib.Core.Bool.{Bool, true}
use mathlib.Core.Option.{some}
use mathlib.Core.List.{List, [], ◌∷◌, ◌++◌, map}
use native.Mathlib.Omega.{arith}
use race_frame.Prelude.Tests.{leb, Bool-cases}
use race_frame.Prelude.Lists.{All, keep, take, insert_by, order_by, head}

module _ {ℓ κ} {A : Type ℓ} (P : A → Type κ) where
  pub All-take : (n : ℕ) (xs : List A) → All P xs → All P (take n xs)
  unfolding take
  All-take zero xs h = tt
  All-take (suc n) [] h = tt
  All-take (suc n) (x ∷ xs) (a, h) = (a, All-take n xs h)

  pub All-append : (xs ys : List A) → All P xs → All P ys → All P (xs ++ ys)
  All-append [] ys h k = k
  All-append (x ∷ xs) ys (a, h) k = (a, All-append xs ys h k)

  All-insert_by : (key : A → ℕ) (a : A) (xs : List A) → P a → All P xs → All P (insert_by key a xs)
  unfolding insert_by
  All-insert_by key a [] p h = (p, tt)
  All-insert_by key a (x ∷ xs) p (q, h) = elim (Bool-cases (leb (key a) (key x))) [
    | inl e ↦ rw e (p, (q, h))
    | inr e ↦ rw e (q, All-insert_by key a xs p h)
  ]

  pub All-order_by : (key : A → ℕ) (xs : List A) → All P xs → All P (order_by key xs)
  unfolding order_by
  All-order_by key [] h = tt
  All-order_by key (x ∷ xs) (p, h) = All-insert_by key x (order_by key xs) p (All-order_by key xs h)

  pub All-head : (xs : List A) {x : A} → All P xs → head xs ≡ some x → P x
  All-head [] h e = cc
  All-head (x ∷ xs) (p, h) e = ground arith

module _ {ℓ κ} {A : Type ℓ} {P Q : A → Type κ} where
  pub All-mono : (xs : List A) → ((x : A) → P x → Q x) → All P xs → All Q xs
  All-mono [] f h = tt
  All-mono (x ∷ xs) f (p, h) = (f x p, All-mono xs f h)

-- What passes a test has the property that the test and an earlier property give.
pub All-keep {ℓ κ η} :
    {A : Type ℓ} (P : A → Type κ) (Q : A → Type η) (p : A → Bool) (xs : List A)
    → ((x : A) → P x → p x ≡ true → Q x)
    → All P xs
    → All Q (keep p xs)
unfolding keep
All-keep P Q p [] f h = tt
All-keep P Q p (x ∷ xs) f (a, h) = elim (Bool-cases (p x)) [
  | inl e ↦ rw e (f x a e, All-keep P Q p xs f h)
  | inr e ↦ rw e (All-keep P Q p xs f h)
]

module _ {ℓ κ η} {A : Type ℓ} {B : Type κ} (P : B → Type η) where
  pub All-map : (f : A → B) (xs : List A) → All (λ x. P (f x)) xs → All P (map f xs)
  All-map f [] h = tt
  All-map f (x ∷ xs) (p, h) = (p, All-map f xs h)

-- The two parts of a list.
pub All-parts {ℓ κ} :
    {A : Type ℓ} (P : A → Type κ) (xs ys : List A) → All P (xs ++ ys) → All P xs × All P ys
All-parts P [] ys h = (tt, h)
All-parts P (x ∷ xs) ys (p, h) = let (left, right) = All-parts P xs ys h in ((p, left), right)
