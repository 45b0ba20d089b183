-- ===== src/SensitiveData.antt =====
-- The guard on text that leaves the company: app/services/sensitive_data.py. What a regular
-- expression finds is a parameter, one search for each pattern.
use Prim.Native.String.{◌++◌ as join_text}
use office_mult_agent.Base.{
  String, Bool, true, false, List, [], ◌∷◌, ◌++◌, ◌≡◌, arith, if◌then◌else◌, sensitive_data_error,
  Exec, raise_if, not,
}
use office_mult_agent.Base.Text.{join}

-- `pattern.search(text)` of the three patterns
pub record Patterns : Type 0 where
  pub credential : String → Bool
  pub national_id : String → Bool
  pub phone : String → Bool

unfoldable pub findings : Patterns → String → List String
findings p text =
    (if p.credential text then "credential" ∷ [] else [])
    ++ ((if p.national_id text then "national_id" ∷ [] else [])
        ++ (if p.phone text then "phone" ∷ [] else []))

abbrev pub is_nil {ℓ} : {A : Type ℓ} → List A → Bool
is_nil [] = true
is_nil (x ∷ xs) = false

abbrev pub blocked_message : List String → String
blocked_message found =
    join_text "external sharing blocked by sensitive-data policy: " (join ", " found)

unfoldable pub require_shareable : {S : Type 0} → Patterns → String → Exec S (Unit {0})
require_shareable p text =
    let found = findings p text in
    raise_if (not (is_nil found)) (sensitive_data_error (blocked_message found))

-- A text without findings matches none of the patterns.
pub findings_nil :
    (p : Patterns) (text : String)
    → is_nil (findings p text) ≡ true
    → (p.credential text ≡ false) × (p.national_id text ≡ false) × (p.phone text ≡ false)
unfolding findings
findings_nil p text h = ground arith
