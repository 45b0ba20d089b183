-- ===== src/Meetings/Service.antt =====
-- MeetingMinutesService (app/domain/meeting_minutes.py) and InMemoryMeetingMinutesRepository
-- (app/repositories/meetings.py).
use Prim.Native.String.{◌++◌ as join_text}
use office_mult_agent.Base.{
  ℕ, suc, String, Bool, true, false, not, ◌&&◌, Option, none, some, List, [], ◌∷◌, ◌++◌, map,
  filter, take, reverse, ◌==◌, string_eq, pair_eq, option_eq, is_some, if◌then◌else◌, key_error,
  value_error, Result, ok, err, Exec, lift, gets, or_raise, raise_if, ◌>>=◌, ◌>>◌,
}
use office_mult_agent.Base.Dict.{Dict, lookup, insert}
use office_mult_agent.Base.Text.{text_leb}
use office_mult_agent.Value.{Fields, field, end, str}
use office_mult_agent.Context.{RequestContext, AuditRecord, require, audit_record}
use office_mult_agent.SensitiveData.{Patterns, require_shareable}
use office_mult_agent.Idempotency.{Results, recall, remember}
use office_mult_agent.Reports.Service.{text_field, id_in}
use office_mult_agent.Meetings.Draft.{
  TranscriptSegment, MeetingMinutesDraft, MinutesStatus, approved, rejected, sent, minutes_draft,
}

pub record MeetingEmailStatus : Type 0 where
  pub meeting_id : String
  pub message_id : String

-- What the service calls and this repository does not implement.
pub record Outside : Type 0 where
  pub patterns : Patterns
  -- the wall clock in a named zone, with its date in ISO format; none for an unknown zone
  pub now_in : String → Option (ℕ × String)
  pub now_here : ℕ × String
  -- the SHA-256 of `draft.model_dump_json(exclude={"content_sha256"})`
  pub fingerprint : MeetingMinutesDraft → String
  -- the dict that the mail system answers, by subject, body, key and the calls before
  pub send_email : String → String → String → List String → Result Fields

pub record Minutes : Type 0 where
  pub drafts : Dict (String × String) MeetingMinutesDraft
  pub owners : Dict (String × String) String
  pub results : Results
  pub audit : List AuditRecord
  pub calls : List String

-- `d.setdefault(k, v)`
abbrev pub set_default :
    String × String → String → Dict (String × String) String → Dict (String × String) String
set_default k v d = if is_some (lookup k d) then d else insert k v d

unfoldable pub save_minutes :
    MeetingMinutesDraft → RequestContext → Exec Minutes MeetingMinutesDraft
save_minutes d context s =
    let key : String × String = (context.tenant_id, d.meeting_id) in
    (
      ok d,
      record s {
        drafts = insert key d s.drafts;
        owners = set_default key context.operator_id s.owners;
      },
    )

unfoldable pub get_minutes : String → RequestContext → Minutes → Option MeetingMinutesDraft
get_minutes meeting_id context s = lookup (context.tenant_id, meeting_id) s.drafts

-- The entry is the tenant's, and its creator is the caller.
abbrev pub is_owned :
    RequestContext → Dict (String × String) String → (String × String) × MeetingMinutesDraft → Bool
is_owned context owners (key, d) =
    key.0 == context.tenant_id && (lookup key owners == some context.operator_id)

unfoldable pub list_recent : RequestContext → ℕ → Minutes → List MeetingMinutesDraft
list_recent context limit s =
    take limit (map (λ e. e.1) (filter (is_owned context s.owners) (reverse s.drafts)))

abbrev pub is_released : MinutesStatus → Bool
is_released approved = true
is_released sent = true
is_released _ = false

abbrev pub is_between : String → String → Option String → Bool
is_between date_from date_to none = false
is_between date_from date_to (some date) = text_leb date_from date && text_leb date date_to

unfoldable pub list_for_report :
    String → String → RequestContext → Minutes → List MeetingMinutesDraft
unfolding list_recent
list_for_report date_from date_to context s =
    filter (λ d. is_released d.status && is_between date_from date_to d.meeting_date)
      (list_recent context 200 s)

abbrev pub log_audit : String → RequestContext → String → Exec Minutes (Unit {0})
log_audit action context target_id s =
    (ok tt, record s { audit = audit_record action context target_id s.audit })

abbrev pub on_results : {A : Type 0} → Exec Results A → Exec Minutes A
on_results m s = let (r, results) = m s.results in (r, record s { results = results })

abbrev pub dump_status : MeetingEmailStatus → Fields
dump_status x =
    field "meeting_id" (str x.meeting_id)
      (field "message_id" (str x.message_id) (field "status" (str "sent") end))

abbrev pub build_status : Option String → Option String → Option String → Result MeetingEmailStatus
build_status (some meeting_id) (some message_id) (some status) =
    if status == "sent"
    then ok (record { meeting_id = meeting_id; message_id = message_id })
    else err (value_error "status")
build_status _ _ _ = err (value_error "missing field")

unfoldable pub validate_status : Fields → Result MeetingEmailStatus
validate_status d =
    build_status (text_field "meeting_id" d) (text_field "message_id" d) (text_field "status" d)

abbrev pub is_approved : MinutesStatus → Bool
is_approved approved = true
is_approved _ = false

-- What is sent, and under which key.
abbrev pub mail_text : MeetingMinutesDraft → String
mail_text d = join_text d.title (join_text "\n" d.summary)

abbrev pub mail_key : RequestContext → String → String
mail_key context meeting_id = join_text context.tenant_id (join_text ":" meeting_id)

module _ (o : Outside) where
  abbrev pub clock : RequestContext → ℕ × String
  clock context = elim (o.now_in context.timezone) [ none ↦ o.now_here | some now ↦ now ]

  unfoldable pub generate :
      String
      → String
      → List TranscriptSegment
      → RequestContext
      → Option String
      → Exec Minutes MeetingMinutesDraft
  unfolding save_minutes
  generate meeting_id title segments context meeting_date =
      let now = clock context in
      save_minutes (minutes_draft meeting_id title segments meeting_date now.0 now.1) context

  -- The draft after a review: the fingerprint is taken of it as approved.
  abbrev pub judged : Bool → Option String → MeetingMinutesDraft → MeetingMinutesDraft
  judged granted comment d =
      let next : MeetingMinutesDraft = record d {
        status = if granted then approved else rejected;
        review_comment = comment;
        version = suc d.version;
      } in
      if granted then record next { content_sha256 = some (o.fingerprint next) } else next

  unfoldable pub review_minutes :
      String → Bool → Option String → RequestContext → Exec Minutes MeetingMinutesDraft
  unfolding save_minutes get_minutes require
  review_minutes meeting_id granted comment context = do
    require context "meeting:review"
    found ← gets (get_minutes meeting_id context)
    d ← or_raise found (key_error meeting_id)
    log_audit "meeting_minutes.review" context meeting_id
    save_minutes (judged granted comment d) context

  -- `await connector.send_email(...)`
  unfoldable pub mail : MeetingMinutesDraft → String → Exec Minutes Fields
  mail d key s =
      (o.send_email d.title d.summary key s.calls, record s { calls = s.calls ++ key ∷ [] })

  -- The part of send behind its guards.
  unfoldable pub mail_minutes :
      String → MeetingMinutesDraft → RequestContext → Exec Minutes MeetingEmailStatus
  unfolding mail save_minutes
  mail_minutes meeting_id d context = do
    answer ← mail d (mail_key context meeting_id)
    save_minutes (record d { status = sent }) context
    message_id ← lift (id_in "message_id" answer)
    log_audit "meeting_minutes.send" context meeting_id
    let result : MeetingEmailStatus = record { meeting_id = meeting_id; message_id = message_id }
    stored ← on_results (remember "meeting_minutes.send" meeting_id (dump_status result) context)
    lift (validate_status stored)

  unfoldable pub send : String → RequestContext → Exec Minutes MeetingEmailStatus
  unfolding get_minutes require require_shareable
  send meeting_id context = do
    require context "meeting:send"
    existing ← gets (λ s. recall "meeting_minutes.send" meeting_id context s.results)
    elim existing [
      | some stored ↦ lift (validate_status stored)
      | none ↦ do
        found ← gets (get_minutes meeting_id context)
        d ← or_raise found (key_error meeting_id)
        raise_if (not (is_approved d.status))
            (value_error "meeting minutes must be approved before sending")
        require_shareable o.patterns (mail_text d)
        mail_minutes meeting_id d context
    ]
