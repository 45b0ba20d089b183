-- ===== src/Meetings/Resending.antt =====
-- A second call of MeetingMinutesService.send (app/domain/meeting_minutes.py) after one that succeeded.
use office_mult_agent.Base.{
  ok-ne-err, sym, ap, ◌∙◌, contains, String, true, some, ◌≡◌, arith, string_eq, pair_eq, triple_eq,
  ok,
}
use office_mult_agent.Base.Dict.{lookup-insert_self}
use office_mult_agent.Value.{Fields}
use office_mult_agent.Context.{RequestContext, require}
use office_mult_agent.Idempotency.{recall}
use office_mult_agent.Meetings.Draft.{MeetingMinutesDraft}
use office_mult_agent.Meetings.Service.{
  Outside, Minutes, MeetingEmailStatus, send, get_minutes, dump_status, validate_status,
}
use office_mult_agent.Meetings.Sending.{
  refused, repeated, called, send-Sends, receipt, settled, mail_minutes-Answers, unanswered,
  nameless, named, validate-dump,
}

module _ (o : Outside) (meeting_id : String) (context : RequestContext) (s : Minutes) where
  send_on_record :
      (stored : Fields)
      → recall "meeting_minutes.send" meeting_id context s.results ≡ some stored
      → contains context.permission_scopes "meeting:send" ≡ true
      → send o meeting_id context s ≡ (validate_status stored, s)
  unfolding send require get_minutes
  send_on_record stored h scope = ground arith

module _ (o : Outside) (meeting_id : String) (context : RequestContext) (s : Minutes) where
  settled_on_record :
      (d : MeetingMinutesDraft) (message_id : String)
      → contains context.permission_scopes "meeting:send" ≡ true
      → send o meeting_id context (settled o meeting_id d context s message_id) ≡ (
        ok (receipt o meeting_id d context s message_id),
        settled o meeting_id d context s message_id,
      )
  unfolding recall
  settled_on_record d message_id scope =
      let after : Minutes = settled o meeting_id d context s message_id in
      let scoped : String × String × String =
        (context.tenant_id, "meeting_minutes.send", meeting_id) in
      send_on_record o meeting_id context after
        (dump_status (receipt o meeting_id d context s message_id))
        (lookup-insert_self scoped (dump_status (receipt o meeting_id d context s message_id))
          s.results)
        scope
      ∙ ap (λ r. (r, after)) (validate-dump (receipt o meeting_id d context s message_id))

  -- After a call of `send` that succeeded, the same call again returns the same message id, changes
  -- nothing, and does not call the mail system.
  pub send-send :
      (x : MeetingEmailStatus)
      → (send o meeting_id context s).0 ≡ ok x
      → send o meeting_id context (send o meeting_id context s).1
        ≡ (ok x, (send o meeting_id context s).1)
  send-send x h = elim (send-Sends o meeting_id context s) [
    | refused e is ↦ absurd (ok-ne-err (sym h ∙ ap (λ r. r.0) is))
    | repeated stored on_record scope is ↦
        ap (λ t. send o meeting_id context t) (ap (λ r. r.1) is)
        ∙ is
        ∙ ap (λ r. (r, s)) (sym (ap (λ r. r.0) is) ∙ h)
        ∙ ap (λ t. (ok x, t)) (sym (ap (λ r. r.1) is))
    | called d found reviewed safe scope fresh is ↦
        elim (mail_minutes-Answers o meeting_id d context s fresh) [
          | unanswered c a ↦ absurd (ok-ne-err (sym h ∙ ap (λ r. r.0) (is ∙ a)))
          | nameless c a ↦ absurd (ok-ne-err (sym h ∙ ap (λ r. r.0) (is ∙ a)))
          | named message_id a ↦
              let all = is ∙ a in
              ap (λ r. send o meeting_id context r.1) all
              ∙ settled_on_record d message_id scope
              ∙ sym all
              ∙ ap (λ r. (r, (send o meeting_id context s).1)) h
        ]
  ]
