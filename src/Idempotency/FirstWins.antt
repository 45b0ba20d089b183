-- ===== src/Idempotency/FirstWins.antt =====
-- The first result under a scope is the one that stays (app/services/idempotency.py).
use office_mult_agent.Base.{
  String, Option, none, some, List, [], ◌∷◌, ◌≡◌, refl, sym, ap, ◌∙◌, arith, ◌==◌, triple_eq,
  string_eq, ==_iff, ==_refl, if◌then◌else◌, inl, inr, Bool-cases, Option-cases, ok,
}
use office_mult_agent.Base.Dict.{lookup, lookup-insert}
use office_mult_agent.Value.{Fields}
use office_mult_agent.Context.{RequestContext}
use office_mult_agent.Idempotency.{Scope, Results, recall, remember}

-- A call of `remember`.
pub record Attempt : Type 0 where
  pub operation : String
  pub key : String
  pub result : Fields
  pub context : RequestContext

abbrev pub scope_of : Attempt → Scope
scope_of a = (a.context.tenant_id, a.operation, a.key)

pub remember_all : List Attempt → Results → Results
remember_all [] s = s
remember_all (a ∷ rest) s = remember_all rest (remember a.operation a.key a.result a.context s).1

-- The result of the earliest attempt under a scope, unless one was there.
abbrev pub earliest : Scope → Option Fields → List Attempt → Option Fields
earliest k (some r) attempts = some r
earliest k none [] = none
earliest k none (a ∷ rest) =
    let later = earliest k none rest in if scope_of a == k then some a.result else later

lookup-remember :
    (a : Attempt) (k : Scope) (s : Results)
    → lookup k (remember a.operation a.key a.result a.context s).1
      ≡ earliest k (lookup k s) (a ∷ [])
unfolding remember
lookup-remember a k s = elim (Bool-cases (scope_of a == k)) [
  | inl same ↦
      let here : scope_of a ≡ k = (==_iff (scope_of a) k).0 same in
      ground (arith, here, same, lookup-insert (scope_of a) k a.result s)
  | inr other ↦ ground (arith, other, lookup-insert (scope_of a) k a.result s)
]

earliest-nil : (k : Scope) (o : Option Fields) → earliest k o [] ≡ o
earliest-nil k none = refl
earliest-nil k (some r) = refl

earliest-earliest :
    (k : Scope) (o : Option Fields) (a : Attempt) (rest : List Attempt)
    → earliest k (earliest k o (a ∷ [])) rest ≡ earliest k o (a ∷ rest)
earliest-earliest k (some r) a rest = refl
earliest-earliest k none a rest = elim (Bool-cases (scope_of a == k)) [
  | inl same ↦ rw same
  | inr other ↦ rw other
]

-- After any attempts, a scope holds the result that it held before, or else that of the earliest
-- attempt under it; no later attempt, and none under another scope or tenant, changes it.
pub lookup-remember_all :
    (k : Scope) (attempts : List Attempt) (s : Results)
    → lookup k (remember_all attempts s) ≡ earliest k (lookup k s) attempts
unfolding remember_all
lookup-remember_all k [] s = sym (earliest-nil k (lookup k s))
lookup-remember_all k (a ∷ rest) s =
    lookup-remember_all k rest (remember a.operation a.key a.result a.context s).1
    ∙ ap (λ o. earliest k o rest) (lookup-remember a k s)
    ∙ earliest-earliest k (lookup k s) a rest

-- An attempt returns what a later `recall` of its scope returns: its own result if it is the first
-- under the scope, else the stored one.
pub recall-remember :
    (a : Attempt) (s : Results)
    → (r : Fields) × ((remember a.operation a.key a.result a.context s).0 ≡ ok r)
      × (recall a.operation a.key a.context (remember a.operation a.key a.result a.context s).1
          ≡ some r)
unfolding remember recall
recall-remember a s = elim (Option-cases (lookup (scope_of a) s)) [
  | inl unused ↦ (
    a.result,
    ground arith,
    ground (arith, lookup-insert (scope_of a) (scope_of a) a.result s, ==_refl (scope_of a)),
  )
  | inr (r, stored) ↦ (r, ground arith, ground arith)
]
