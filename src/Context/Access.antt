-- ===== src/Context/Access.antt =====
-- What a missing scope does to a guarded action.
use office_mult_agent.Base.{
  String, true, false, ◌≡◌, arith, contains, err, permission_error, Exec, ◌>>◌, string_eq,
}
use office_mult_agent.Context.{RequestContext, require}

-- Without the scope nothing behind the guard runs.
pub require_denies :
    {S A : Type 0} (context : RequestContext) (scope : String) (m : Exec S A) (s : S)
    → contains context.permission_scopes scope ≡ false
    → (require context scope >> m) s ≡ (err (permission_error scope), s)
unfolding require
require_denies context scope m s h = ground arith

-- With the scope the guard does nothing.
pub require_grants :
    {S A : Type 0} (context : RequestContext) (scope : String) (m : Exec S A) (s : S)
    → contains context.permission_scopes scope ≡ true
    → (require context scope >> m) s ≡ m s
unfolding require
require_grants context scope m s h = ground arith
