-- ===== src/Meetings/History.antt =====
-- MeetingMinutesService (app/domain/meeting_minutes.py) over every sequence of calls.
use office_mult_agent.Base.{
  ℕ, ◌+◌, ◌-◌, ◌≤◌, String, Bool, true, false, Option, List, [], ◌∷◌, ◌≡◌, ◌∙◌, arith, length,
  length-append, ◌==◌, pair_eq, string_eq, triple_eq, ==_iff, is_some, if◌then◌else◌, eq_iff,
  Result, ok, err,
}
use office_mult_agent.Base.Dict.{lookup, lookup-insert}
use office_mult_agent.Context.{RequestContext, require}
use office_mult_agent.Idempotency.{recall}
use office_mult_agent.Delivery.{Ledger, sends, sends-le-one}
use office_mult_agent.Meetings.Draft.{TranscriptSegment, MeetingMinutesDraft}
use office_mult_agent.Meetings.Service.{
  Outside, save_minutes, get_minutes, Minutes, MeetingEmailStatus, mail_key, generate,
  review_minutes, send, dump_status,
}
use office_mult_agent.Meetings.Sending.{
  send-Sends, refused, repeated, called, receipt, settled, mail_minutes-Answers, unanswered,
  nameless, named,
}

-- A call of the service.
pub data Call : Type 0 where
  generate_call :
      (meeting_id title : String) (segments : List TranscriptSegment) (context : RequestContext)
      (meeting_date : Option String)
      → Call
  review_call :
      (meeting_id : String) (granted : Bool) (comment : Option String) (context : RequestContext)
      → Call
  send_call : (meeting_id : String) (context : RequestContext) → Call

abbrev pub is_ok : Result MeetingEmailStatus → Bool
is_ok (ok x) = true
is_ok (err e) = false

-- Whether a mail is on record.
abbrev pub recorded : String × String → Minutes → ℕ
recorded (tenant_id, meeting_id) s =
    if is_some (lookup (tenant_id, "meeting_minutes.send", meeting_id) s.results) then 1 else 0

pub recorded-le-one : (k : String × String) (s : Minutes) → recorded k s ≤ 1
recorded-le-one k s = ground arith

module _ (o : Outside) where
  abbrev pub after : Call → Minutes → Minutes
  after (generate_call meeting_id title segments context meeting_date) s =
      (generate o meeting_id title segments context meeting_date s).1
  after (review_call meeting_id granted comment context) s =
      (review_minutes o meeting_id granted comment context s).1
  after (send_call meeting_id context) s = (send o meeting_id context s).1

  -- The calls of the mail system in a call of `send` that succeeds, by tenant and meeting.
  abbrev pub sent : String × String → Call → Minutes → ℕ
  sent k (send_call meeting_id context) s =
      if (context.tenant_id, meeting_id) == k
      then if is_ok (send o meeting_id context s).0
        then length (send o meeting_id context s).1.calls - length s.calls
        else 0
      else 0
  sent k _ s = 0

  -- What a mail that was sent leaves, of this meeting and of any other.
  recorded-settled :
      (k : String × String) (meeting_id : String) (context : RequestContext) (s : Minutes)
      (d : MeetingMinutesDraft) (message_id : String)
      → recorded k (settled o meeting_id d context s message_id)
        ≡ (if (context.tenant_id, meeting_id) == k then 1 else recorded k s)
  recorded-settled (tenant_id, id) meeting_id context s d message_id = ground (
    arith,
    lookup-insert (context.tenant_id, "meeting_minutes.send", meeting_id)
        (tenant_id, "meeting_minutes.send", id)
        (dump_status (receipt o meeting_id d context s message_id)) s.results,
    eq_iff context.tenant_id tenant_id,
    eq_iff meeting_id id,
    eq_iff "meeting_minutes.send" "meeting_minutes.send",
  )

  one_call :
      (meeting_id : String) (context : RequestContext) (s : Minutes) (d : MeetingMinutesDraft)
      (message_id : String)
      → length (settled o meeting_id d context s message_id).calls - length s.calls ≡ 1
  one_call meeting_id context s d message_id =
      omega (arith, length-append s.calls (mail_key context meeting_id ∷ []))

  recorded-send :
      (k : String × String) (meeting_id : String) (context : RequestContext) (s : Minutes)
      → sent k (send_call meeting_id context) s + recorded k s
        ≤ recorded k (send o meeting_id context s).1
  unfolding recall
  recorded-send k meeting_id context s = elim (send-Sends o meeting_id context s) [
    | refused e is ↦ ground (arith, is)
    | repeated stored on_record scope is ↦ ground (arith, is)
    | called d found reviewed safe scope fresh is ↦
        elim (mail_minutes-Answers o meeting_id d context s fresh) [
          | unanswered c a ↦ rw (is ∙ a) (ground arith)
          | nameless c a ↦ rw (is ∙ a) (ground arith)
          | named message_id a ↦ rw (is ∙ a) (
              ground (
                arith,
                recorded-settled k meeting_id context s d message_id,
                one_call meeting_id context s d message_id,
                ==_iff (context.tenant_id, meeting_id) k,
                fresh,
              ))
        ]
  ]

  pub recorded-after :
      (k : String × String) (c : Call) (s : Minutes)
      → sent k c s + recorded k s ≤ recorded k (after c s)
  unfolding generate review_minutes save_minutes require get_minutes
  recorded-after k (generate_call meeting_id title segments context meeting_date) s = omega arith
  recorded-after k (review_call meeting_id granted comment context) s = ground arith
  recorded-after k (send_call meeting_id context) s = recorded-send k meeting_id context s

  abbrev pub minutes_ledger : String × String → Ledger
  minutes_ledger k = record {
    State = Minutes;
    Call = Call;
    after = after;
    sent = sent k;
    recorded = recorded k;
    recorded_at_most = recorded-le-one k;
    records = recorded-after k;
  }

  -- Over any sequence of generations, reviews and sendings, and whatever the mail system answers, it
  -- is called at most once for the minutes of a tenant's meeting in the sendings that succeed, and not
  -- at all if a mail was on record at the start. Minutes that are generated or reviewed again after
  -- that are not sent.
  pub send_once :
      (k : String × String) (calls : List Call) (s : Minutes)
      → sends (minutes_ledger k) calls s + recorded k s ≤ 1
  send_once k = sends-le-one (minutes_ledger k)
