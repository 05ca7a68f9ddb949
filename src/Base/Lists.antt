-- ===== src/Base/Lists.antt =====
-- Lists measured by native numbers, membership and predicates by recursion.
use Prim.Native.Nat.{ℕ, zero, suc, ◌+◌}
use mathlib.Core.Path.{◌≡◌, refl}
use mathlib.Core.Logic.{◌⊎◌, inl, inr}
use mathlib.Core.List.{List, [], ◌∷◌, ◌++◌}
use mathlib.Core.Option.{Option, none, some}
use native.Mathlib.Omega.{arith}

module _ {ℓ} {A : Type ℓ} where
  abbrev pub length : List A → ℕ
  length [] = 0
  length (x ∷ xs) = suc (length xs)

  abbrev pub get_elem? : List A → ℕ → Option A
  get_elem? [] i = none
  get_elem? (x ∷ xs) zero = some x
  get_elem? (x ∷ xs) (suc i) = get_elem? xs i

  abbrev pub drop : ℕ → List A → List A
  drop zero xs = xs
  drop (suc n) [] = []
  drop (suc n) (x ∷ xs) = drop n xs

  pub length-append : (xs ys : List A) → length (xs ++ ys) ≡ length xs + length ys
  length-append [] ys = omega arith
  length-append (x ∷ xs) ys = omega (arith, length-append xs ys)

-- Membership, as a sum that tactics take apart.
abbrev pub In : {A : Type 0} → A → List A → Type 0
In a [] = ⊥
In a (x ∷ xs) = (a ≡ x) ⊎ In a xs

pub In-append : {A : Type 0} (a : A) (xs ys : List A) → In a (xs ++ ys) → In a xs ⊎ In a ys
In-append a [] ys i = inr i
In-append a (x ∷ xs) ys (inl e) = inl (inl e)
In-append a (x ∷ xs) ys (inr i) = elim (In-append a xs ys i) [ inl j ↦ inl (inr j) | inr j ↦ inr j ]

pub In-append-left : {A : Type 0} (a : A) (xs ys : List A) → In a xs → In a (xs ++ ys)
In-append-left a [] ys i = absurd i
In-append-left a (x ∷ xs) ys (inl e) = inl e
In-append-left a (x ∷ xs) ys (inr i) = inr (In-append-left a xs ys i)

pub In-append-last : {A : Type 0} (a : A) (xs : List A) → In a (xs ++ a ∷ [])
In-append-last a [] = inl refl
In-append-last a (x ∷ xs) = inr (In-append-last a xs)

abbrev pub All {ℓ κ} : {A : Type ℓ} → (A → Type κ) → List A → Type κ
All P [] = Unit
All P (x ∷ xs) = P x × All P xs

pub All-of_In {κ} :
    {A : Type 0} {P : A → Type κ} (xs : List A) → ((x : A) → In x xs → P x) → All P xs
All-of_In [] h = tt
All-of_In (x ∷ xs) h = (h x (inl refl), All-of_In xs (λ y i. h y (inr i)))
