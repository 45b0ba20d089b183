-- ===== src/Base/Effects.antt =====
-- Python's exceptions as values, and methods that change an object and may raise. What was written
-- before a raise stays written, so the state comes back beside the error too.
use Prim.Native.String.{String}
use mathlib.Core.Path.{◌≡◌, refl}
use mathlib.Core.Logic.{◌⊎◌, inl, inr}
use mathlib.Core.Bool.{Bool, true, false}
use mathlib.Core.Option.{Option, none, some}

-- The exceptions that the program raises or handles, each with its first argument.
pub data Error : Type 0 where
  key_error value_error type_error runtime_error permission_error : String → Error
  timeout_error task_cancelled integrity_error multiple_results : Error
  sensitive_data_error unsafe_file_error connector_unavailable : String → Error
  unicode_decode_error invalid_sso_token sso_token_unavailable knowledge_mcp_error : String → Error

-- `except ValueError` catches the subclasses too.
abbrev pub is_value_error : Error → Bool
is_value_error (value_error m) = true
is_value_error (sensitive_data_error m) = true
is_value_error (unsafe_file_error m) = true
is_value_error (unicode_decode_error m) = true
is_value_error (invalid_sso_token m) = true
is_value_error _ = false

-- `except RuntimeError`
abbrev pub is_runtime_error : Error → Bool
is_runtime_error (runtime_error m) = true
is_runtime_error (connector_unavailable m) = true
is_runtime_error (sso_token_unavailable m) = true
is_runtime_error (knowledge_mcp_error m) = true
is_runtime_error task_cancelled = true
is_runtime_error _ = false

pub data Result {ℓ} (A : Type ℓ) : Type ℓ where
  ok : A → Result A
  err : Error → Result A

pub Result-cases {ℓ} :
    {Value : Type ℓ} (out : Result Value)
    → ((value : Value) × (out ≡ ok value)) ⊎ ((raised : Error) × (out ≡ err raised))
Result-cases (ok value) = inl (value, refl)
Result-cases (err raised) = inr (raised, refl)

pub ok-ne-err {ℓ} : {A : Type ℓ} {a : A} {e : Error} → ¬ (ok a ≡ err e)
ok-ne-err h = cc

abbrev pub Exec : Type 0 → Type 0 → Type 0
Exec S A = S → Result A × S

module _ {S A : Type 0} where
  abbrev pub pure : A → Exec S A
  pure a s = (ok a, s)

  abbrev pub raise : Error → Exec S A
  raise c s = (err c, s)

  abbrev pub lift : Result A → Exec S A
  lift r s = (r, s)

  abbrev pub gets : (S → A) → Exec S A
  gets f s = (ok (f s), s)

  -- `if x is None: raise`
  abbrev pub or_raise : Option A → Error → Exec S A
  or_raise none c s = (err c, s)
  or_raise (some a) c s = (ok a, s)

abbrev pub modify : {S : Type 0} → (S → S) → Exec S (Unit {0})
modify f s = (ok tt, f s)

abbrev pub raise_if : {S : Type 0} → Bool → Error → Exec S (Unit {0})
raise_if true c s = (err c, s)
raise_if false c s = (ok tt, s)

infixl 10 ◌>>=◌ ◌>>◌
abbrev pub ◌>>=◌ : {S A B : Type 0} → Exec S A → (A → Exec S B) → Exec S B
◌>>=◌ m f s = let (r, s') = m s in elim r [ ok a ↦ f a s' | err c ↦ (err c, s') ]

abbrev pub ◌>>◌ : {S A B : Type 0} → Exec S A → Exec S B → Exec S B
m >> n = m >>= λ _. n
