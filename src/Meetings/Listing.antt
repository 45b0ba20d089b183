-- ===== src/Meetings/Listing.antt =====
-- Which minutes list_for_report (app/domain/meeting_minutes.py) hands to a report.
use office_mult_agent.Base.{
  ◌≤◌, String, Bool, true, ◌&&◌, some, map, filter, take, reverse, length, length-map, In,
  In-filter, filter-In, In-map, In-map→origin, In-take, take-all, In-reverse, reverse-In, ◌≡◌, sym,
  subst, arith, ==_iff, string_eq, pair_eq, option_eq,
}
use office_mult_agent.Base.Dict.{lookup}
use office_mult_agent.Context.{RequestContext}
use office_mult_agent.Meetings.Draft.{MeetingMinutesDraft}
use office_mult_agent.Meetings.Service.{
  Minutes, list_recent, list_for_report, is_owned, is_released, is_between,
}

abbrev pub Entry : Type 0
Entry = (String × String) × MeetingMinutesDraft

-- The minutes that a caller may see in a report of the days.
pub record IsListable (date_from date_to : String) (context : RequestContext) (s : Minutes)
    (e : Entry) : Type 0 where
  pub stored : In e s.drafts
  pub tenant : e.0.0 ≡ context.tenant_id
  pub owner : lookup e.0 s.owners ≡ some context.operator_id
  pub released : is_released e.1.status ≡ true
  pub within : is_between date_from date_to e.1.meeting_date ≡ true

module _ (date_from date_to : String) (context : RequestContext) (s : Minutes) where
  abbrev released_between : MeetingMinutesDraft → Bool
  released_between d = is_released d.status && is_between date_from date_to d.meeting_date

  owned_lem :
      (e : Entry)
      → is_owned context s.owners e ≡ true
      → (e.0.0 ≡ context.tenant_id) × (lookup e.0 s.owners ≡ some context.operator_id)
  owned_lem (key, d) h = ground (
    arith,
    h,
    ==_iff key.0 context.tenant_id,
    ==_iff (lookup key s.owners) (some context.operator_id),
  )

  is_owned_lem :
      (e : Entry)
      → e.0.0 ≡ context.tenant_id
      → lookup e.0 s.owners ≡ some context.operator_id
      → is_owned context s.owners e ≡ true
  is_owned_lem (key, d) t w = ground (
    arith,
    t,
    w,
    ==_iff key.0 context.tenant_id,
    ==_iff (lookup key s.owners) (some context.operator_id),
  )

  -- A report is given no other minutes than stored ones of the caller's tenant that the caller
  -- created, that have been approved or sent, and that are dated within the days asked for.
  pub list_for_report-IsListable :
      (d : MeetingMinutesDraft)
      → In d (list_for_report date_from date_to context s)
      → (e : Entry) × (d ≡ e.1) × IsListable date_from date_to context s e
  unfolding list_for_report list_recent
  list_for_report-IsListable d m =
      let (recent, passes) = In-filter released_between d (list_recent context 200 s) m in
      let (e, owned, is) =
        In-map→origin (λ e. e.1) d (filter (is_owned context s.owners) (reverse s.drafts))
          (In-take 200 d (map (λ e. e.1) (filter (is_owned context s.owners) (reverse s.drafts)))
            recent) in
      let (stored, mine) = In-filter (is_owned context s.owners) e (reverse s.drafts) owned in
      (
        e,
        is,
        record {
          stored = In-reverse e s.drafts stored;
          tenant = (owned_lem e mine).0;
          owner = (owned_lem e mine).1;
          released = ground (arith, passes, is);
          within = ground (arith, passes, is);
        },
      )

  -- Where the caller has no more than 200 minutes, a report is given all that are listable.
  pub IsListable-In :
      (e : Entry)
      → length (filter (is_owned context s.owners) (reverse s.drafts)) ≤ 200
      → IsListable date_from date_to context s e
      → In e.1 (list_for_report date_from date_to context s)
  unfolding list_for_report list_recent
  IsListable-In e few h =
      let all = filter (is_owned context s.owners) (reverse s.drafts) in
      filter-In released_between e.1 (take 200 (map (λ e. e.1) all))
        (subst (λ ys. In e.1 ys)
          (sym (take-all 200 (map (λ e. e.1) all) (omega (arith, few, length-map (λ e. e.1) all))))
          (In-map (λ e. e.1) e all
            (filter-In (is_owned context s.owners) e (reverse s.drafts)
              (reverse-In e s.drafts h.stored) (is_owned_lem e h.tenant h.owner))))
        (ground (arith, h.released, h.within))
