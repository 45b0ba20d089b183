-- ===== src/Tests/Meetings.antt =====
-- Meeting minutes and the work events of a day (app/domain/meeting_minutes.py and
-- app/services/work_events.py).
use office_mult_agent.Base.{
  ◌+◌, ◌≤◌, true, false, none, some, List, [], ◌∷◌, ◌++◌, ◌≡◌, inl, refl, Option, ok, err,
  timeout_error, string_eq, triple_eq, pair_eq, option_eq, length,
}
use office_mult_agent.Base.Dict.{lookup}
use office_mult_agent.Context.{RequestContext}
use office_mult_agent.Value.{Fields, end, field, str}
use office_mult_agent.Delivery.{sends}
use office_mult_agent.Meetings.Draft.{TranscriptSegment, MeetingMinutesDraft, approved}
use office_mult_agent.Meetings.Service.{Outside, Minutes, list_for_report, list_recent}
use office_mult_agent.Meetings.History.{
  Call, generate_call, review_call, send_call, minutes_ledger, recorded, send_once,
}
use office_mult_agent.Meetings.Listing.{Entry, IsListable, list_for_report-IsListable}
use office_mult_agent.Collector.Email.{EmailActivity}
use office_mult_agent.Collector.Merge.{Sources, WorkEventCollection, collect}
use office_mult_agent.Collector.Partial.{
  gitlab, tasks, email, meetings, events_of, warnings_of, collect_partial,
}
use office_mult_agent.Tests.Samples.{ann}
use office_mult_agent.Tests.Reports.{no_patterns}

abbrev pub mail_system : Outside
mail_system = record {
  patterns = no_patterns;
  now_in = λ zone. none;
  now_here = (1000, "2026-01-05");
  fingerprint = λ d. d.summary;
  send_email = λ subject body key calls. ok (field "message_id" (str "m1") end);
}

abbrev pub chair : RequestContext
chair = record ann { permission_scopes = "meeting:review" ∷ "meeting:send" ∷ [] }

abbrev pub said : TranscriptSegment
said = record {
  segment_id = "g1";
  text = "决定 ann 负责";
  speaker_id = none;
  confidence = 0;
  speaker_name = none;
  start_ms = none;
  end_ms = none;
  language = "zh-CN";
  reviewed = false;
}

abbrev pub held : MeetingMinutesDraft
held = record {
  meeting_id = "k1";
  title = "weekly";
  summary = "done";
  evidence_segment_ids = [];
  warnings = [];
  status = approved;
  review_comment = none;
  participants = [];
  topics = [];
  decisions = [];
  action_items = [];
  risks = [];
  open_questions = [];
  version = 1;
  content_sha256 = none;
  meeting_date = some "2026-01-05";
  generated_at = none;
}

abbrev pub no_minutes : Minutes
no_minutes = record { drafts = []; owners = []; results = []; audit = []; calls = [] }

abbrev pub one_held : Minutes
one_held = record no_minutes {
  drafts = (("acme", "k1"), held) ∷ [];
  owners = (("acme", "k1"), "ann") ∷ [];
}

abbrev week : List Call
week =
    generate_call "k1" "weekly" (said ∷ []) chair none
    ∷ review_call "k1" true none chair
    ∷ send_call "k1" chair
    ∷ send_call "k1" chair
    ∷ []

send_once_example :
    sends (minutes_ledger mail_system ("acme", "k1")) week no_minutes
      + recorded ("acme", "k1") no_minutes
    ≤ 1
send_once_example = send_once mail_system ("acme", "k1") week no_minutes

listable : IsListable "2026-01-01" "2026-01-07" chair one_held (("acme", "k1"), held)
unfolding lookup
listable = record { stored = inl refl; tenant = refl; owner = refl; released = refl; within = refl }

list_for_report-IsListable_example :
    (e : Entry) × (held ≡ e.1) × IsListable "2026-01-01" "2026-01-07" chair one_held e
unfolding list_for_report list_recent lookup
list_for_report-IsListable_example =
    list_for_report-IsListable "2026-01-01" "2026-01-07" chair one_held held (inl refl)

abbrev judged_held : MeetingMinutesDraft
judged_held = record held { version = 2; content_sha256 = some "done" }

-- Sources of which one fails, and one mail.
abbrev pub mail_activity : EmailActivity
mail_activity = record {
  message_id = "1";
  subject = "hello";
  summary = "";
  occurred_at = none;
  sensitive = false;
}

abbrev pub mail_item : Fields
mail_item = field "message_id" (str "1") end

abbrev pub known_mail : Fields → Option EmailActivity
known_mail fields = some mail_activity

abbrev pub sources : Sources
sources = record {
  printing = record { repr = λ v. "?"; decimal = λ n. "n" };
  patterns = no_patterns;
  validate = known_mail;
  list_gitlab = λ employee from until context. err timeout_error;
  list_tasks = λ employee context. ok [];
  list_email = λ employee from until context. ok (mail_item ∷ []);
}

collect_partial_example :
    let g = gitlab sources "2026-01-05" "2026-01-05" chair one_held in
    let t = tasks sources "2026-01-05" "2026-01-05" chair one_held in
    let e = email sources "2026-01-05" "2026-01-05" chair one_held in
    let m = meetings sources "2026-01-05" "2026-01-05" chair one_held in
    (c : WorkEventCollection) × (collect sources "2026-01-05" "2026-01-05" chair one_held ≡ ok c)
    × (c.events ≡ ((events_of g ++ events_of t) ++ events_of e) ++ events_of m)
    × (c.source_warnings
        ≡ ((warnings_of "gitlab" g ++ warnings_of "task" t) ++ warnings_of "email" e)
          ++ warnings_of "meeting" m)
    × (lookup "gitlab" c.source_counts ≡ some (length (events_of g)))
    × (lookup "task" c.source_counts ≡ some (length (events_of t)))
    × (lookup "email" c.source_counts ≡ some (length (events_of e)))
    × (lookup "meeting" c.source_counts ≡ some (length (events_of m)))
collect_partial_example =
    collect_partial sources "2026-01-05" "2026-01-05" chair one_held refl tt tt
