-- ===== src/Meetings/Sending.antt =====
-- What MeetingMinutesService.send (app/domain/meeting_minutes.py) guarantees of one call.
use office_mult_agent.Base.{
  Result-cases, ok-ne-err, sym, ap, ◌∙◌, permission_error, key_error, value_error,
  sensitive_data_error, contains, String, true, none, some, [], ◌∷◌, ◌++◌, ◌≡◌, ◌⊎◌, inl, inr, refl,
  arith, string_eq, pair_eq, triple_eq, Bool-cases, Option-cases, Error, Result, ok, err,
}
use office_mult_agent.Base.Dict.{lookup, insert}
use office_mult_agent.Value.{Fields}
use office_mult_agent.Context.{RequestContext, require, audit_record}
use office_mult_agent.SensitiveData.{blocked_message, findings, require_shareable, is_nil}
use office_mult_agent.Idempotency.{recall, remember}
use office_mult_agent.Meetings.Draft.{MeetingMinutesDraft, MinutesStatus, approved, sent}
use office_mult_agent.Reports.Service.{id_in}
use office_mult_agent.Meetings.Service.{
  mail_text, set_default, Outside, Minutes, MeetingEmailStatus, send, mail_minutes, mail,
  save_minutes, get_minutes, dump_status, validate_status, is_approved, mail_key,
}

pub validate-dump : (x : MeetingEmailStatus) → validate_status (dump_status x) ≡ ok x
unfolding validate_status
validate-dump x = ground arith

is_approved_only : (status : MinutesStatus) → is_approved status ≡ true → status ≡ approved
is_approved_only status h = ground arith

module _ (o : Outside) (meeting_id : String) (context : RequestContext) (s : Minutes) where
  -- What a call of `send` may come to.
  pub data Sends (out : Result MeetingEmailStatus × Minutes) : Type 0 where
    -- a guard raises, and nothing has been touched
    refused : (e : Error) → out ≡ (err e, s) → Sends out
    -- the mail is on record, and is returned
    repeated :
        (stored : Fields)
        → recall "meeting_minutes.send" meeting_id context s.results ≡ some stored
        → contains context.permission_scopes "meeting:send" ≡ true
        → out ≡ (validate_status stored, s)
        → Sends out
    -- the mail system is called
    called :
        (d : MeetingMinutesDraft)
        → lookup (context.tenant_id, meeting_id) s.drafts ≡ some d
        → d.status ≡ approved
        → is_nil (findings o.patterns (mail_text d)) ≡ true
        → contains context.permission_scopes "meeting:send" ≡ true
        → recall "meeting_minutes.send" meeting_id context s.results ≡ none
        → out ≡ mail_minutes o meeting_id d context s
        → Sends out

  pub send-Sends : Sends (send o meeting_id context s)
  unfolding send require require_shareable get_minutes
  send-Sends = elim (Bool-cases (contains context.permission_scopes "meeting:send")) [
    | inr denied ↦ refused (permission_error "meeting:send") (ground arith)
    | inl scope ↦ elim (Option-cases (recall "meeting_minutes.send" meeting_id context s.results)) [
      | inr (stored, on_record) ↦ repeated stored on_record scope (ground arith)
      | inl fresh ↦ elim (Option-cases (lookup (context.tenant_id, meeting_id) s.drafts)) [
        | inl missing ↦ refused (key_error meeting_id) (ground arith)
        | inr (d, found) ↦ elim (Bool-cases (is_approved d.status)) [
          | inr unapproved ↦
              refused (value_error "meeting minutes must be approved before sending") (ground arith)
          | inl is ↦ elim (Bool-cases (is_nil (findings o.patterns (mail_text d)))) [
            | inr unsafe ↦
                refused (sensitive_data_error (blocked_message (findings o.patterns (mail_text d))))
                  (ground arith)
            | inl safe ↦
                called d found (is_approved_only d.status is) safe scope fresh (ground arith)
          ]
        ]
      ]
    ]
  ]

-- What the mail system's answer leaves.
module _ (o : Outside) (meeting_id : String) (d : MeetingMinutesDraft) (context : RequestContext)
    (s : Minutes) where
  abbrev pub asked : Minutes
  asked = record s { calls = s.calls ++ mail_key context meeting_id ∷ [] }

  abbrev pub answer : Result Fields
  answer = o.send_email d.title d.summary (mail_key context meeting_id) s.calls

  abbrev pub receipt : String → MeetingEmailStatus
  receipt message_id = record { meeting_id = meeting_id; message_id = message_id }

  abbrev pub settled : String → Minutes
  settled message_id = record {
    drafts = insert (context.tenant_id, d.meeting_id) (record d { status = sent }) s.drafts;
    owners = set_default (context.tenant_id, d.meeting_id) context.operator_id s.owners;
    results =
        insert (context.tenant_id, "meeting_minutes.send", meeting_id)
          (dump_status (receipt message_id)) s.results;
    audit = audit_record "meeting_minutes.send" context meeting_id s.audit;
    calls = s.calls ++ mail_key context meeting_id ∷ [];
  }

  -- The draft is saved, and then the answer has no id: nothing goes on record.
  abbrev pub unrecorded : Minutes
  unrecorded = record {
    drafts = insert (context.tenant_id, d.meeting_id) (record d { status = sent }) s.drafts;
    owners = set_default (context.tenant_id, d.meeting_id) context.operator_id s.owners;
    results = s.results;
    audit = s.audit;
    calls = s.calls ++ mail_key context meeting_id ∷ [];
  }

  mail_minutes_err :
      (e : Error) → answer ≡ err e → mail_minutes o meeting_id d context s ≡ (err e, asked)
  unfolding mail_minutes mail save_minutes
  mail_minutes_err e h = ground arith

  mail_minutes_lost :
      (fields : Fields) (e : Error)
      → answer ≡ ok fields
      → id_in "message_id" fields ≡ err e
      → mail_minutes o meeting_id d context s ≡ (err e, unrecorded)
  unfolding mail_minutes mail save_minutes
  mail_minutes_lost fields e h no_id = ground (arith, h, no_id)

  mail_minutes_ok :
      (fields : Fields) (message_id : String)
      → answer ≡ ok fields
      → id_in "message_id" fields ≡ ok message_id
      → recall "meeting_minutes.send" meeting_id context s.results ≡ none
      → mail_minutes o meeting_id d context s ≡ (ok (receipt message_id), settled message_id)
  unfolding mail_minutes mail save_minutes remember recall
  mail_minutes_ok fields message_id h has_id fresh =
      ground (arith, h, has_id, validate-dump (receipt message_id))

  -- What a call behind the guards may come to.
  pub data Answers (out : Result MeetingEmailStatus × Minutes) : Type 0 where
    unanswered : (e : Error) → out ≡ (err e, asked) → Answers out
    nameless : (e : Error) → out ≡ (err e, unrecorded) → Answers out
    named :
        (message_id : String) → out ≡ (ok (receipt message_id), settled message_id) → Answers out

  pub mail_minutes-Answers :
      recall "meeting_minutes.send" meeting_id context s.results ≡ none
      → Answers (mail_minutes o meeting_id d context s)
  mail_minutes-Answers fresh = elim (Result-cases answer) [
    | inr (e, h) ↦ unanswered e (mail_minutes_err e h)
    | inl (fields, h) ↦ elim (Result-cases (id_in "message_id" fields)) [
      | inr (e, no_id) ↦ nameless e (mail_minutes_lost fields e h no_id)
      | inl (id, has_id) ↦ named id (mail_minutes_ok fields id h has_id fresh)
    ]
  ]

-- How the mail system comes to be called, and with what.
pub record MaySend (o : Outside) (meeting_id : String) (context : RequestContext) (s : Minutes)
    : Type 0 where
  pub minutes : MeetingMinutesDraft
  pub found : lookup (context.tenant_id, meeting_id) s.drafts ≡ some minutes
  pub reviewed : minutes.status ≡ approved
  pub shareable : is_nil (findings o.patterns (mail_text minutes)) ≡ true
  pub permitted : contains context.permission_scopes "meeting:send" ≡ true
  pub first : recall "meeting_minutes.send" meeting_id context s.results ≡ none

module _ (o : Outside) (meeting_id : String) (context : RequestContext) (s : Minutes) where
  mail_minutes-calls :
      (d : MeetingMinutesDraft)
      → recall "meeting_minutes.send" meeting_id context s.results ≡ none
      → (mail_minutes o meeting_id d context s).1.calls
        ≡ s.calls ++ mail_key context meeting_id ∷ []
  mail_minutes-calls d fresh = elim (mail_minutes-Answers o meeting_id d context s fresh) [
    | unanswered e is ↦ ap (λ r. r.1.calls) is
    | nameless e is ↦ ap (λ r. r.1.calls) is
    | named id is ↦ ap (λ r. r.1.calls) is
  ]

  -- The mail system is called at most once by a call of `send`, and then the caller has the
  -- scope "meeting:send", the minutes exist and have been approved, none of the sensitive patterns
  -- is found in them, and no mail of them is on record for the tenant.
  pub send-MaySend :
      ((send o meeting_id context s).1.calls ≡ s.calls)
      ⊎ ((may : MaySend o meeting_id context s) × ((send o meeting_id context s).1.calls
            ≡ s.calls ++ mail_key context meeting_id ∷ []))
  send-MaySend = elim (send-Sends o meeting_id context s) [
    | refused e is ↦ inl (ap (λ r. r.1.calls) is)
    | repeated stored on_record scope is ↦ inl (ap (λ r. r.1.calls) is)
    | called d found reviewed safe scope fresh is ↦ inr (
      record {
        minutes = d;
        found = found;
        reviewed = reviewed;
        shareable = safe;
        permitted = scope;
        first = fresh;
      },
      ap (λ r. r.1.calls) is ∙ mail_minutes-calls d fresh,
    )
  ]

  -- A call of `send` that fails leaves the idempotency records as they were. It leaves the drafts and the
  -- audit trail as they were too, unless the mail system has been called.
  pub send_fails :
      (e : Error)
      → (send o meeting_id context s).0 ≡ err e
      → ((send o meeting_id context s).1.results ≡ s.results)
        × ((((send o meeting_id context s).1.drafts ≡ s.drafts)
              × ((send o meeting_id context s).1.audit ≡ s.audit))
            ⊎ ((may : MaySend o meeting_id context s) × ((send o meeting_id context s).1
                  ≡ unrecorded o meeting_id may.minutes context s)))
  send_fails e h = elim (send-Sends o meeting_id context s) [
    | refused c is ↦ rw is (refl, inl (refl, refl))
    | repeated stored on_record scope is ↦ rw is (refl, inl (refl, refl))
    | called d found reviewed safe scope fresh is ↦
        elim (mail_minutes-Answers o meeting_id d context s fresh) [
          | named id a ↦ absurd (ok-ne-err (sym (ap (λ r. r.0) (is ∙ a)) ∙ h))
          | nameless c a ↦ rw (is ∙ a) (
            refl,
            inr (
              record {
                minutes = d;
                found = found;
                reviewed = reviewed;
                shareable = safe;
                permitted = scope;
                first = fresh;
              },
              refl,
            ),
          )
          | unanswered c a ↦ rw (is ∙ a) (refl, inl (refl, refl))
        ]
  ]
