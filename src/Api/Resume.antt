-- ===== src/Api/Resume.antt =====
-- One approval lets the assistant go on once (app/api/routes.py).
use office_mult_agent.Base.{
  ℕ, String, Bool, true, false, Option, none, ◌≡◌, ◌⊎◌, inl, inr, refl, ap, ◌∙◌, arith, is_some,
  contains, string_eq, triple_eq, Bool-cases, Option-cases, Result-cases, ok,
}
use office_mult_agent.Base.Dict.{lookup-insert_self}
use office_mult_agent.Context.{RequestContext}
use office_mult_agent.Approvals.{
  Approvals, ApprovalRecord, create_pending, get_pending, decide, only_pending, pending_record,
  decision_record,
}
use office_mult_agent.Api.{answered, refused}
use office_mult_agent.Api.Assistant.{
  AssistantRuntime, AssistantInvokeResponse, GraphResult, Desk, resume_assistant, thread_type,
  scope_needed, resume_payload, settle,
}

-- After a request for approval one is pending, and after a decision none is.
created-pending :
    (target_type target_id : String) (context : RequestContext) (s : Approvals)
    → is_some (
        get_pending target_type target_id context
          (create_pending target_type target_id context s).1)
      ≡ true
unfolding get_pending create_pending
created-pending target_type target_id context s =
    ap (λ o. is_some (only_pending o))
      (lookup-insert_self (context.tenant_id, target_type, target_id)
        (pending_record target_type target_id context) s)

decided-pending :
    (target_type target_id : String) (granted : Bool) (comment : Option String)
    (context : RequestContext) (s : Approvals) (r : ApprovalRecord)
    → (decide target_type target_id granted comment context s).0 ≡ ok r
    → get_pending target_type target_id context
        (decide target_type target_id granted comment context s).1
      ≡ none
unfolding get_pending decide
decided-pending target_type target_id granted comment context s r h = ground (
  arith,
  h,
  lookup-insert_self (context.tenant_id, target_type, target_id)
      (decision_record target_type target_id granted comment context) s,
)

module _ (rt : AssistantRuntime) (thread_id : String) (granted : Bool) (comment : Option String)
    (context : RequestContext) (s : Desk rt) where
  -- A resume either is refused with 404 or 403 and changes nothing, or finds a pending approval of the
  -- thread in the caller's tenant, and a caller who holds the scope that the thread's state asks for.
  pub resume_assistant-gate :
      ((status : ℕ) × (resume_assistant rt thread_id granted comment context s
          ≡ (refused status, s)))
      ⊎ ((is_some (get_pending thread_type thread_id context s.0) ≡ true)
          × (contains context.permission_scopes (scope_needed rt thread_id s.1) ≡ true))
  unfolding resume_assistant
  resume_assistant-gate = elim (Option-cases (get_pending thread_type thread_id context s.0)) [
    | inl missing ↦ inl (404, ground (arith, missing))
    | inr (pending, there) ↦
        elim (Bool-cases (contains context.permission_scopes (scope_needed rt thread_id s.1))) [
          | inr denied ↦ inl (403, ground (arith, there, denied))
          | inl scope ↦ inr (ground (arith, there), scope)
        ]
  ]

  settle-pending :
      (g : GraphResult) (r : rt.State) (reply : AssistantInvokeResponse) (t : Desk rt)
      → settle rt thread_id granted comment context g r
          (decide thread_type thread_id granted comment context s.0)
        ≡ (answered reply, t)
      → is_some (get_pending thread_type thread_id context t.0) ≡ reply.awaiting_approval
  settle-pending g r reply t h =
      elim (Result-cases (decide thread_type thread_id granted comment context s.0).0) [
        | inr (e, failed) ↦ absurd (ground (arith, h, failed))
        | inl (entry, decided) ↦ elim (Bool-cases g.interrupted) [
          | inl again ↦ ground (
            arith,
            h,
            again,
            decided,
            created-pending thread_type thread_id context
                (decide thread_type thread_id granted comment context s.0).1,
          )
          | inr done ↦ ground (
            arith,
            h,
            done,
            decided,
            decided-pending thread_type thread_id granted comment context s.0 entry decided,
          )
        ]
      ]

  -- After a resume that is answered, an approval of the thread is pending exactly if the answer says
  -- that one is awaited.
  pub resume_assistant-pending :
      (reply : AssistantInvokeResponse) (t : Desk rt)
      → resume_assistant rt thread_id granted comment context s ≡ (answered reply, t)
      → is_some (get_pending thread_type thread_id context t.0) ≡ reply.awaiting_approval
  unfolding resume_assistant
  resume_assistant-pending reply t h =
      elim (Option-cases (get_pending thread_type thread_id context s.0)) [
        | inl missing ↦ absurd (ground (arith, h, missing))
        | inr (pending, there) ↦
            elim (Bool-cases (contains context.permission_scopes (scope_needed rt thread_id s.1))) [
              | inr denied ↦ absurd (ground (arith, h, there, denied))
              | inl scope ↦
                  elim (Result-cases
                    (rt.resume thread_id (resume_payload granted comment) context s.1).0) [
                      | inr (e, failed) ↦ absurd (ground (arith, h, there, scope, failed))
                      | inl (g, ran) ↦
                          settle-pending g
                            (rt.resume thread_id (resume_payload granted comment) context s.1).1
                            reply t (ground (arith, h, there, scope, ran))
                    ]
            ]
      ]

  resume_without_approval :
      is_some (get_pending thread_type thread_id context s.0) ≡ false
      → resume_assistant rt thread_id granted comment context s ≡ (refused 404, s)
  unfolding resume_assistant
  resume_without_approval h = ground (arith, h)

-- Only the tenant of a request decides which approval is pending.
get_pending_tenant :
    (thread_id : String) (context caller : RequestContext) (approvals : Approvals)
    → caller.tenant_id ≡ context.tenant_id
    → get_pending thread_type thread_id caller approvals
      ≡ get_pending thread_type thread_id context approvals
unfolding get_pending
get_pending_tenant thread_id context caller approvals same = rw same refl

module _ (rt : AssistantRuntime) (thread_id : String) (granted again : Bool)
    (comment text : Option String) (context caller : RequestContext) (s : Desk rt) where
  -- A resume that is answered without a further interrupt uses its approval up: another resume of the
  -- thread, by any caller of the tenant in any request and whatever it decides, is refused with 404,
  -- and neither the approvals nor the runtime change.
  pub resume_assistant_once :
      (reply : AssistantInvokeResponse) (t : Desk rt)
      → caller.tenant_id ≡ context.tenant_id
      → resume_assistant rt thread_id granted comment context s ≡ (answered reply, t)
      → reply.awaiting_approval ≡ false
      → resume_assistant rt thread_id again text caller t ≡ (refused 404, t)
  resume_assistant_once reply t same h done =
      resume_without_approval rt thread_id again text caller t (
        ap is_some (get_pending_tenant thread_id context caller t.0 same)
        ∙ resume_assistant-pending rt thread_id granted comment context s reply t h
        ∙ done)
