-- ===== src/Base/Equality.antt =====
-- Equality tests as an interface: one `==` for texts, numbers, options and pairs.
use Prim.Native.Nat.{ℕ, compare, Ordering}
use Prim.Native.String.{String}
use mathlib.Core.Path.{◌≡◌, refl}
use mathlib.Core.Logic.{◌↔◌}
use mathlib.Core.Bool.{Bool, true, false, ◌&&◌, ◌||◌}
use mathlib.Core.Option.{Option, none, some}
use mathlib.Core.List.{List, [], ◌∷◌}
use native.Mathlib.Omega.{arith}
use text.Mathlib.Text.{◌==◌ as str_eq}
use text.Mathlib.TextEquality.{eq_iff}

pub record HasEq {ℓ} (A : Type ℓ) : Type ℓ where
  pub test : A → A → Bool
  pub test_iff : (a b : A) → (test a b ≡ true) ↔ (a ≡ b)

infix 50 ◌==◌
abbrev pub ◌==◌ {ℓ} : {A : Type ℓ} ⦃e : HasEq A⦄ → A → A → Bool
◌==◌ ⦃e⦄ = e.test

pub ==_iff {ℓ} : {A : Type ℓ} ⦃e : HasEq A⦄ (a b : A) → ((a == b) ≡ true) ↔ (a ≡ b)
==_iff ⦃e⦄ = e.test_iff

pub ==_refl {ℓ} : {A : Type ℓ} ⦃e : HasEq A⦄ (a : A) → (a == a) ≡ true
==_refl ⦃e⦄ a = (e.test_iff a a).1 refl

abbrev pub nat_beq : ℕ → ℕ → Bool
nat_beq a b = elim (compare a b) [ Ordering.eq ↦ true | _ ↦ false ]

pub nat_test_iff : (a b : ℕ) → (nat_beq a b ≡ true) ↔ (a ≡ b)
nat_test_iff a b = ground arith

instance abbrev pub nat_eq : HasEq ℕ
nat_eq = record { test = nat_beq; test_iff = nat_test_iff }

instance abbrev pub string_eq : HasEq String
string_eq = record { test = str_eq; test_iff = eq_iff }

abbrev pub option_beq {ℓ} : {A : Type ℓ} → (A → A → Bool) → Option A → Option A → Bool
option_beq f none none = true
option_beq f (some a) (some b) = f a b
option_beq f _ _ = false

pub option_test_iff {ℓ} :
    {A : Type ℓ} (e : HasEq A) (a b : Option A) → (option_beq e.test a b ≡ true) ↔ (a ≡ b)
option_test_iff e none none = ground arith
option_test_iff e (some a) (some b) = ground (arith, e.test_iff a b)
option_test_iff e none (some b) = ground arith
option_test_iff e (some a) none = ground arith

instance abbrev pub option_eq {ℓ} : {A : Type ℓ} ⦃e : HasEq A⦄ → HasEq (Option A)
option_eq ⦃e⦄ = record { test = option_beq e.test; test_iff = option_test_iff e }

abbrev pub pair_beq {ℓ κ} :
    {A : Type ℓ} {B : Type κ} → (A → A → Bool) → (B → B → Bool) → A × B → A × B → Bool
pair_beq f g (a, b) (c, d) = f a c && g b d

pub pair_test_iff {ℓ κ} :
    {A : Type ℓ} {B : Type κ} (e : HasEq A) (f : HasEq B) (p q : A × B)
    → (pair_beq e.test f.test p q ≡ true) ↔ (p ≡ q)
pair_test_iff e f (a, b) (c, d) = ground (arith, e.test_iff a c, f.test_iff b d)

instance abbrev pub pair_eq {ℓ κ} :
    {A : Type ℓ} {B : Type κ} ⦃e : HasEq A⦄ ⦃f : HasEq B⦄ → HasEq (A × B)
pair_eq ⦃e⦄ ⦃f⦄ = record { test = pair_beq e.test f.test; test_iff = pair_test_iff e f }

-- A flat triple, for the keys of three parts.
abbrev pub triple_beq {ℓ} : {A : Type ℓ} → (A → A → Bool) → A × A × A → A × A × A → Bool
triple_beq f (a, b, c) (a', b', c') = f a a' && f b b' && f c c'

pub triple_test_iff {ℓ} :
    {A : Type ℓ} (e : HasEq A) (p q : A × A × A) → (triple_beq e.test p q ≡ true) ↔ (p ≡ q)
triple_test_iff e (a, b, c) (a', b', c') =
    ground (arith, e.test_iff a a', e.test_iff b b', e.test_iff c c')

instance abbrev pub triple_eq {ℓ} : {A : Type ℓ} ⦃e : HasEq A⦄ → HasEq (A × A × A)
triple_eq ⦃e⦄ = record { test = triple_beq e.test; test_iff = triple_test_iff e }

abbrev pub list_beq {ℓ} : {A : Type ℓ} → (A → A → Bool) → List A → List A → Bool
list_beq f [] [] = true
list_beq f (x ∷ xs) (y ∷ ys) = f x y && list_beq f xs ys
list_beq f _ _ = false

pub list_test_iff {ℓ} :
    {A : Type ℓ} (e : HasEq A) (xs ys : List A) → (list_beq e.test xs ys ≡ true) ↔ (xs ≡ ys)
list_test_iff e [] [] = ground arith
list_test_iff e (x ∷ xs) (y ∷ ys) = ground (arith, e.test_iff x y, list_test_iff e xs ys)
list_test_iff e [] (y ∷ ys) = ground arith
list_test_iff e (x ∷ xs) [] = ground arith

instance abbrev pub list_eq {ℓ} : {A : Type ℓ} ⦃e : HasEq A⦄ → HasEq (List A)
list_eq ⦃e⦄ = record { test = list_beq e.test; test_iff = list_test_iff e }

-- `x in xs`
module _ {ℓ} {A : Type ℓ} ⦃e : HasEq A⦄ where
  abbrev pub contains : List A → A → Bool
  contains [] a = false
  contains (x ∷ xs) a = x == a || contains xs a
