-- ===== src/Prelude/Sorted.antt =====
-- The first of an ordered list is a least one, and there is none only in an empty list.
use Prim.Native.Nat.{ℕ, ◌≤◌}
use mathlib.Core.Path.{◌≡◌, refl}
use mathlib.Core.Logic.{inl, inr}
use mathlib.Core.Bool.{Bool, true}
use mathlib.Core.Option.{none, some}
use mathlib.Core.List.{List, [], ◌∷◌, map}
use native.Mathlib.Omega.{arith}
use race_frame.Prelude.Tests.{leb, Bool-cases}
use race_frame.Prelude.Lists.{All, keep, insert_by, order_by, head}
use race_frame.Prelude.Quantifiers.{All-mono}

module _ {ℓ} {A : Type ℓ} (key : A → ℕ) where
  head-insert_by :
      (a : A) (zs : List A)
      → (x : A) × (head (insert_by key a zs) ≡ some x)
        × (key x ≤ key a)
        × ((z : A) → head zs ≡ some z → key x ≤ key z)
  unfolding insert_by
  head-insert_by a [] = (a, refl, omega arith, λ z e. cc)
  head-insert_by a (y ∷ ys) = elim (Bool-cases (leb (key a) (key y))) [
    | inl e ↦ rw e (a, refl, omega arith, λ z h. ground arith)
    | inr e ↦ rw e (y, refl, ground arith, λ z h. ground arith)
  ]

  -- A list that is not empty has a first element in order, and it is a least one.
  pub head-order_by :
      (y : A) (ys : List A)
      → (x : A) × (head (order_by key (y ∷ ys)) ≡ some x) × All (λ z. key x ≤ key z) (y ∷ ys)
  unfolding order_by
  head-order_by y [] = let (x, is, below, _) = head-insert_by y [] in (x, is, (below, tt))
  head-order_by y (y' ∷ ys) =
      let (z, is, least) = head-order_by y' ys in
      let (x, is', below, rest) = head-insert_by y (order_by key (y' ∷ ys)) in
      (x, is', (below, All-mono (y' ∷ ys) (λ w h. omega (arith, rest z is, h)) least))

  pub order_by-least :
      (xs : List A) (x : A) → head (order_by key xs) ≡ some x → All (λ y. key x ≤ key y) xs
  order_by-least [] x e = tt
  order_by-least (y ∷ ys) x e =
      let (z, is, least) = head-order_by y ys in All-mono (y ∷ ys) (λ w h. ground arith) least

  pub order_by-none : (xs : List A) → head (order_by key xs) ≡ none → xs ≡ []
  order_by-none [] e = refl
  order_by-none (y ∷ ys) e = let (z, is, _) = head-order_by y ys in cc

module _ {ℓ κ} {A : Type ℓ} (Q : A → Type κ) (p : A → Bool) where
  -- What holds of all that pass a test.
  pub All-of_keep : (xs : List A) → All Q (keep p xs) → All (λ x. p x ≡ true → Q x) xs
  unfolding keep
  All-of_keep [] h = tt
  All-of_keep (x ∷ xs) h = elim (Bool-cases (p x)) [
    | inl e ↦ let h' = rw e at h in (λ _. h'.0, All-of_keep xs h'.1)
    | inr e ↦ (λ e'. cc, All-of_keep xs (rw e at h))
  ]

module _ {ℓ κ η} {A : Type ℓ} {B : Type κ} (P : B → Type η) where
  pub All-of_map : (f : A → B) (xs : List A) → All P (map f xs) → All (λ x. P (f x)) xs
  All-of_map f [] h = tt
  All-of_map f (x ∷ xs) (p, h) = (p, All-of_map f xs h)
