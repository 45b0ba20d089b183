-- ===== src/Reports/Reviewed.antt =====
-- Approval needs a review on the audit trail (app/domain/reports.py), over every sequence of calls.
use office_mult_agent.Base.{
  String, Bool, true, false, Option, some, List, [], ◌∷◌, ◌++◌, ◌≡◌, ◌⊎◌, inl, inr, refl, sym,
  append-In_left, append-In_right, ◌∙◌, subst, arith, All, In, Bool-cases, Option-cases, contains,
  string_eq, if◌then◌else◌,
}
use office_mult_agent.Base.Dict.{Dict, lookup, insert, All-insert, lookup-All}
use office_mult_agent.Context.{RequestContext, AuditRecord, audit_record, require}
use office_mult_agent.Delivery.{after_all, after_all-Invariant}
use office_mult_agent.Events.{WorkEvent}
use office_mult_agent.Reports.Draft.{
  ReportDraft, ReportStatus, approved, rejected, submitted, daily_draft, as_weekly,
}
use office_mult_agent.Reports.Service.{
  Outside, Reports, save_report, get_report, generate_daily, generate_weekly, review, submit,
}
use office_mult_agent.Reports.Submission.{
  refused, repeated, called, submit-Submits, send_report-Answers, unanswered, nameless, named,
}
use office_mult_agent.Reports.History.{
  Call, daily_call, weekly_call, review_call, submit_call, after,
}

-- The audit trail shows a review of the report.
abbrev pub HasReview : String → List AuditRecord → Type 0
HasReview report_id records =
    (r : AuditRecord) × In r records × (r.action ≡ "report.review") × (r.target_id ≡ report_id)

-- Approved or submitted.
abbrev pub is_released : ReportStatus → Bool
is_released approved = true
is_released submitted = true
is_released _ = false

-- A draft stands under its own id, and is approved or submitted only after a review.
abbrev pub IsReviewed : List AuditRecord → String × ReportDraft → Type 0
IsReviewed records (report_id, d) =
    (d.report_id ≡ report_id) × ((is_released d.status ≡ false) ⊎ HasReview report_id records)

abbrev pub AllReviewed : Reports → Type 0
AllReviewed s = All (IsReviewed s.audit) s.reports

abbrev entry : String → RequestContext → String → AuditRecord
entry action context target_id = record {
  action = action;
  tenant_id = context.tenant_id;
  operator_id = context.operator_id;
  target_id = target_id;
}

-- More records do no harm.
IsReviewed-append :
    (records more : List AuditRecord) (d : Dict String ReportDraft)
    → All (IsReviewed records) d
    → All (IsReviewed (records ++ more)) d
IsReviewed-append records more [] h = tt
IsReviewed-append records more ((k, x) ∷ d) h = (
  (
    h.0.0,
    elim h.0.1 [
      | inl open_draft ↦ inl open_draft
      | inr (r, m, is, at) ↦ inr (r, append-In_left r records more m, is, at)
    ],
  ),
  IsReviewed-append records more d h.1,
)

-- The steps: what is saved, and under which records.
AllReviewed-save :
    (records : List AuditRecord) (reports : Dict String ReportDraft) (x : ReportDraft)
    → All (IsReviewed records) reports
    → (is_released x.status ≡ false) ⊎ HasReview x.report_id records
    → All (IsReviewed records) (insert x.report_id x reports)
AllReviewed-save records reports x h r =
    All-insert (IsReviewed records) x.report_id x reports h (refl, r)

HasReview-append :
    (report_id : String) (records more : List AuditRecord)
    → HasReview report_id records
    → HasReview report_id (records ++ more)
HasReview-append report_id records more (r, m, is, at) =
    (r, append-In_left r records more m, is, at)

-- A draft that was found is saved again, as `x`, with one more record on the trail.
AllReviewed-resave :
    (records : List AuditRecord) (r : AuditRecord) (reports : Dict String ReportDraft)
    (report_id : String) (d x : ReportDraft)
    → All (IsReviewed records) reports
    → lookup report_id reports ≡ some d
    → x.report_id ≡ d.report_id
    → HasReview report_id (records ++ r ∷ [])
    → All (IsReviewed (records ++ r ∷ [])) (insert x.report_id x reports)
AllReviewed-resave records r reports report_id d x h found same has =
    let id_is : x.report_id ≡ report_id =
      same ∙ (lookup-All (IsReviewed records) report_id d reports h found).0 in
    AllReviewed-save (records ++ r ∷ []) reports x (IsReviewed-append records (r ∷ []) reports h)
      (inr (subst (λ i. HasReview i (records ++ r ∷ [])) (sym id_is) has))

review_of :
    (s : Reports) (report_id : String) (d : ReportDraft)
    → AllReviewed s
    → lookup report_id s.reports ≡ some d
    → d.status ≡ approved
    → HasReview report_id s.audit
review_of s report_id d h found reviewed =
    elim (lookup-All (IsReviewed s.audit) report_id d s.reports h found).1 [
      | inr has ↦ has
      | inl unreleased ↦ absurd (ground (arith, unreleased, reviewed))
    ]

module _ (o : Outside) where
  daily-AllReviewed :
      (uuid report_date : String) (events : List WorkEvent) (context : RequestContext)
      (warnings : List String) (s : Reports)
      → AllReviewed s
      → AllReviewed (generate_daily o uuid report_date events context warnings s).1
  unfolding generate_daily save_report daily_draft
  daily-AllReviewed uuid report_date events context warnings s h =
      AllReviewed-save s.audit s.reports (daily_draft o.letters uuid report_date events warnings) h
        (inl refl)

  weekly-AllReviewed :
      (uuid report_date : String) (events : List WorkEvent) (context : RequestContext)
      (warnings : List String) (s : Reports)
      → AllReviewed s
      → AllReviewed (generate_weekly o uuid report_date events context warnings s).1
  unfolding generate_weekly generate_daily save_report daily_draft as_weekly
  weekly-AllReviewed uuid report_date events context warnings s h =
      let daily = daily_draft o.letters uuid report_date events warnings in
      AllReviewed-save s.audit (insert uuid daily s.reports) (as_weekly o.letters daily)
        (AllReviewed-save s.audit s.reports daily h (inl refl)) (inl refl)

  submit-AllReviewed :
      (report_id : String) (context : RequestContext) (s : Reports)
      → AllReviewed s
      → AllReviewed (submit o report_id context s).1
  unfolding audit_record
  submit-AllReviewed report_id context s h = elim (submit-Submits o report_id context s) [
    | refused e is ↦ rw is h
    | repeated stored on_record known scope is ↦ rw is h
    | called d found reviewed safe scope fresh is ↦
        let kept =
          AllReviewed-resave s.audit (entry "report.submit" context report_id) s.reports report_id d
            (record d { status = submitted }) h found refl
            (HasReview-append report_id s.audit (entry "report.submit" context report_id ∷ [])
              (review_of s report_id d h found reviewed)) in
        elim (send_report-Answers o report_id d context s fresh) [
          | unanswered c a ↦ rw (is ∙ a) h
          | nameless c a ↦ rw (is ∙ a) kept
          | named submission_id a ↦ rw (is ∙ a) kept
        ]
  ]

  review-AllReviewed :
      (report_id : String) (granted : Bool) (comment : Option String) (context : RequestContext)
      (s : Reports)
      → AllReviewed s
      → AllReviewed (review o report_id granted comment context s).1
  unfolding review require get_report save_report audit_record
  review-AllReviewed report_id granted comment context s h =
      elim (Bool-cases (contains context.permission_scopes "report:review")) [
        | inr denied ↦ rw denied h
        | inl scope ↦ elim (Option-cases (lookup report_id s.reports)) [
          | inl missing ↦ rw (scope, missing) h
          | inr (d, found) ↦
              rw (scope, found)
                (AllReviewed-resave s.audit (entry "report.review" context report_id) s.reports
                  report_id d
                  (record d {
                    status = if granted then approved else rejected;
                    review_comment = comment;
                  })
                  h found refl
                  (
                    entry "report.review" context report_id,
                    append-In_right (entry "report.review" context report_id) s.audit
                        (entry "report.review" context report_id ∷ []) (inl refl),
                    refl,
                    refl,
                  ))
        ]
      ]

  after-AllReviewed : (c : Call) (s : Reports) → AllReviewed s → AllReviewed (after o c s)
  after-AllReviewed (daily_call uuid report_date events context warnings) s h =
      daily-AllReviewed uuid report_date events context warnings s h
  after-AllReviewed (weekly_call uuid report_date events context warnings) s h =
      weekly-AllReviewed uuid report_date events context warnings s h
  after-AllReviewed (review_call report_id granted comment context) s h =
      review-AllReviewed report_id granted comment context s h
  after-AllReviewed (submit_call report_id context) s h = submit-AllReviewed report_id context s h

  -- In every state that calls of the service reach from one where this holds, as the empty one: a
  -- draft that counts as approved, or as submitted, has been reviewed, and the audit trail shows the
  -- review of that report.
  pub after_all-AllReviewed :
      (calls : List Call) (s : Reports) → AllReviewed s → AllReviewed (after_all (after o) calls s)
  after_all-AllReviewed = after_all-Invariant (after o) AllReviewed after-AllReviewed
