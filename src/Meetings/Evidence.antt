-- ===== src/Meetings/Evidence.antt =====
-- What stands behind generated minutes, and the fingerprint of reviewed ones
-- (app/domain/meeting_minutes.py).
use office_mult_agent.Base.{
  ℕ, suc, String, Bool, true, Option, some, List, [], ◌∷◌, filter, In, In-filter, In-map,
  In-map→origin, ◌≡◌, refl, sym, ap, subst, arith, Bool-cases, inl, inr, contains, string_eq,
  pair_eq, ok,
}
use office_mult_agent.Base.Dict.{lookup, lookup-insert_self}
use office_mult_agent.Context.{RequestContext, require}
use office_mult_agent.Meetings.Draft.{
  TranscriptSegment, MeetingDecision, ActionItem, MeetingMinutesDraft, approved, is_decision,
  is_action, as_decision, as_action, minutes_draft,
}
use office_mult_agent.Meetings.Service.{
  Outside, Minutes, review_minutes, save_minutes, get_minutes, judged,
}

-- The segment of the transcript that stands behind a text and its evidence.
pub record Cites (is_marked : TranscriptSegment → Bool) (segments : List TranscriptSegment)
    (content : String) (evidence all_evidence : List String) : Type 0 where
  pub segment : TranscriptSegment
  pub listed : In segment segments
  pub marked : is_marked segment ≡ true
  pub content_is : content ≡ segment.text
  pub evidence_is : evidence ≡ segment.segment_id ∷ []
  pub among : In segment.segment_id all_evidence

module _ (meeting_id title : String) (segments : List TranscriptSegment)
    (meeting_date : Option String) (generated_at : ℕ) (today : String) where
  -- Every decision of generated minutes repeats the text of a segment of the transcript that has one
  -- of the markers of a decision, and names that segment, one of the minutes' evidence, as its only
  -- evidence.
  pub decisions-Cites :
      (x : MeetingDecision)
      → In x (minutes_draft meeting_id title segments meeting_date generated_at today).decisions
      → Cites is_decision segments x.content x.evidence_segment_ids
          (minutes_draft meeting_id title segments meeting_date generated_at
            today).evidence_segment_ids
  unfolding minutes_draft
  decisions-Cites x m =
      let (t, found, is) = In-map→origin as_decision x (filter is_decision segments) m in
      let (at, marked) = In-filter is_decision t segments found in
      record {
        segment = t;
        listed = at;
        marked = marked;
        content_is = ap (λ y. y.content) is;
        evidence_is = ap (λ y. y.evidence_segment_ids) is;
        among = In-map (λ s. s.segment_id) t segments at;
      }

  -- The same holds of every action item, with the markers of an action.
  pub action_items-Cites :
      (x : ActionItem)
      → In x (minutes_draft meeting_id title segments meeting_date generated_at today).action_items
      → Cites is_action segments x.content x.evidence_segment_ids
          (minutes_draft meeting_id title segments meeting_date generated_at
            today).evidence_segment_ids
  unfolding minutes_draft
  action_items-Cites x m =
      let (t, found, is) = In-map→origin as_action x (filter is_action segments) m in
      let (at, marked) = In-filter is_action t segments found in
      record {
        segment = t;
        listed = at;
        marked = marked;
        content_is = ap (λ y. y.content) is;
        evidence_is = ap (λ y. y.evidence_segment_ids) is;
        among = In-map (λ s. s.segment_id) t segments at;
      }

module _ (o : Outside) (meeting_id : String) (context : RequestContext) (s : Minutes) where
  -- Where the fingerprint does not depend on the fingerprint field, which the dump leaves out,
  -- minutes that an approving review returns are stored, are approved, have one version more than
  -- before, and carry a fingerprint that their own text gives again.
  pub review_minutes-fingerprint :
      (comment : Option String) (d after : MeetingMinutesDraft)
      → ((x : MeetingMinutesDraft) (h : Option String)
          → o.fingerprint (record x { content_sha256 = h }) ≡ o.fingerprint x)
      → get_minutes meeting_id context s ≡ some d
      → (review_minutes o meeting_id true comment context s).0 ≡ ok after
      → (after.status ≡ approved)
        × (after.version ≡ suc d.version)
        × (after.content_sha256 ≡ some (o.fingerprint after))
        × (lookup
              (context.tenant_id, after.meeting_id)
              (review_minutes o meeting_id true comment context s).1.drafts
            ≡ some after)
  unfolding review_minutes get_minutes save_minutes require
  review_minutes-fingerprint comment d after excluded found h =
      elim (Bool-cases (contains context.permission_scopes "meeting:review")) [
        | inr denied ↦ absurd (ground (arith, denied, h))
        | inl scope ↦
            let is : judged o true comment d ≡ after = ground (arith, scope, found, h) in
            subst
              (λ x.
                (x.status ≡ approved)
                × (x.version ≡ suc d.version)
                × (x.content_sha256 ≡ some (o.fingerprint x))
                × (lookup (context.tenant_id, x.meeting_id)
                      (review_minutes o meeting_id true comment context s).1.drafts
                    ≡ some x))
              is
              (
                refl,
                refl,
                ap some (
                    sym (
                      excluded
                        (record (judged o true comment d) { content_sha256 = d.content_sha256 })
                        (judged o true comment d).content_sha256)),
                rw (scope, found)
                    (lookup-insert_self (context.tenant_id, (judged o true comment d).meeting_id)
                      (judged o true comment d) s.drafts),
              )
      ]
