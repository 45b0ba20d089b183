-- ===== src/Idempotency.antt =====
-- Idempotency records: app/services/idempotency.py, the in-memory repository, and IdempotencyService,
-- whose methods call the repository as it is.
pub mod FirstWins
use office_mult_agent.Base.{String, Option, none, some, triple_eq, string_eq, ok, Exec}
use office_mult_agent.Base.Dict.{Dict, lookup, insert}
use office_mult_agent.Value.{Fields}
use office_mult_agent.Context.{RequestContext}

-- `(tenant_id, operation, key)`
abbrev pub Scope : Type 0
Scope = String × String × String

-- `_results` of InMemoryIdempotencyRepository
abbrev pub Results : Type 0
Results = Dict Scope Fields

unfoldable pub recall : String → String → RequestContext → Results → Option Fields
recall operation key context s = lookup (context.tenant_id, operation, key) s

unfoldable pub remember : String → String → Fields → RequestContext → Exec Results Fields
remember operation key result context s = elim (lookup (context.tenant_id, operation, key) s) [
  | some existing ↦ (ok existing, s)
  | none ↦ (ok result, insert (context.tenant_id, operation, key) result s)
]
