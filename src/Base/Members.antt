-- ===== src/Base/Members.antt =====
-- Membership in a list, through the functions of Base/Lists.antt.
use mathlib.Core.Path.{◌≡◌, refl, ap, sym, subst}
use mathlib.Core.Logic.{◌⊎◌, inl, inr}
use mathlib.Core.Bool.{Bool, true}
use mathlib.Core.List.{List, [], ◌∷◌, ◌++◌, map}
use native.Mathlib.Omega.{arith}
use Prim.Native.Nat.{ℕ, zero, suc, ◌≤◌}
use office_mult_agent.Base.Lists.{All, filter, take, reverse, length}

-- Membership that computes to a sum of equations.
module _ {A : Type 0} where
  abbrev pub In : A → List A → Type 0
  In x [] = ⊥
  In x (y ∷ ys) = (x ≡ y) ⊎ In x ys

  abbrev pub AllDifferent : List A → Type 0
  AllDifferent [] = Unit
  AllDifferent (x ∷ xs) = (¬ In x xs) × AllDifferent xs

  pub In-filter : (p : A → Bool) (x : A) (xs : List A) → In x (filter p xs) → In x xs × (p x ≡ true)
  In-filter p x [] h = absurd h
  In-filter p x (y ∷ ys) h = ground (arith, In-filter p x ys)

module _ {A B : Type 0} where
  pub In-map : (f : A → B) (x : A) (xs : List A) → In x xs → In (f x) (map f xs)
  In-map f x [] h = absurd h
  In-map f x (y ∷ ys) (inl e) = inl (ap f e)
  In-map f x (y ∷ ys) (inr h) = inr (In-map f x ys h)

  -- An element of the image has an origin.
  pub In-map→origin :
      (f : A → B) (y : B) (xs : List A) → In y (map f xs) → (x : A) × In x xs × (y ≡ f x)
  In-map→origin f y [] h = absurd h
  In-map→origin f y (x ∷ xs) (inl e) = (x, inl refl, e)
  In-map→origin f y (x ∷ xs) (inr h) = let (z, m, e) = In-map→origin f y xs h in (z, inr m, e)

module _ {A : Type 0} where
  pub filter-In : (p : A → Bool) (x : A) (xs : List A) → In x xs → p x ≡ true → In x (filter p xs)
  filter-In p x [] m h = absurd m
  filter-In p x (y ∷ ys) m h = ground (arith, m, h, filter-In p x ys)

  pub In-take : (n : ℕ) (x : A) (xs : List A) → In x (take n xs) → In x xs
  In-take zero x xs m = absurd m
  In-take (suc n) x [] m = absurd m
  In-take (suc n) x (y ∷ ys) (inl e) = inl e
  In-take (suc n) x (y ∷ ys) (inr m) = inr (In-take n x ys m)

  pub take-all : (n : ℕ) (xs : List A) → length xs ≤ n → take n xs ≡ xs
  take-all zero [] h = refl
  take-all zero (x ∷ xs) h = absurd (omega (arith, h))
  take-all (suc n) [] h = refl
  take-all (suc n) (x ∷ xs) h = ap (λ ys. x ∷ ys) (take-all n xs (omega (arith, h)))

  pub In-append : (x : A) (xs ys : List A) → In x (xs ++ ys) → In x xs ⊎ In x ys
  In-append x [] ys m = inr m
  In-append x (z ∷ xs) ys (inl e) = inl (inl e)
  In-append x (z ∷ xs) ys (inr m) = elim (In-append x xs ys m) [
    | inl a ↦ inl (inr a)
    | inr b ↦ inr b
  ]

  pub append-In_left : (x : A) (xs ys : List A) → In x xs → In x (xs ++ ys)
  append-In_left x [] ys m = absurd m
  append-In_left x (y ∷ xs) ys (inl e) = inl e
  append-In_left x (y ∷ xs) ys (inr m) = inr (append-In_left x xs ys m)

  pub append-In_right : (x : A) (xs ys : List A) → In x ys → In x (xs ++ ys)
  append-In_right x [] ys m = m
  append-In_right x (y ∷ xs) ys m = inr (append-In_right x xs ys m)

  pub In-reverse : (x : A) (xs : List A) → In x (reverse xs) → In x xs
  In-reverse x [] m = absurd m
  In-reverse x (y ∷ xs) m = elim (In-append x (reverse xs) (y ∷ []) m) [
    | inl r ↦ inr (In-reverse x xs r)
    | inr (inl e) ↦ inl e
    | inr (inr none_left) ↦ absurd none_left
  ]

  pub reverse-In : (x : A) (xs : List A) → In x xs → In x (reverse xs)
  reverse-In x [] m = absurd m
  reverse-In x (y ∷ xs) (inl e) = append-In_right x (reverse xs) (y ∷ []) (inl e)
  reverse-In x (y ∷ xs) (inr m) = append-In_left x (reverse xs) (y ∷ []) (reverse-In x xs m)

  -- What holds of each element holds of all.
  pub In→All : (P : A → Type 0) (xs : List A) → ((x : A) → In x xs → P x) → All P xs
  In→All P [] h = tt
  In→All P (x ∷ xs) h = (h x (inl refl), In→All P xs (λ y m. h y (inr m)))

  pub All-In : (P : A → Type 0) (xs : List A) {x : A} → All P xs → In x xs → P x
  All-In P [] h member = elim member [ ]
  All-In P (y ∷ xs) h (inl same) = subst P (sym same) h.0
  All-In P (y ∷ xs) h (inr later) = All-In P xs h.1 later
