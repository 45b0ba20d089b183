-- ===== src/Meetings/Draft.antt =====
-- The minutes that MeetingMinutesService.generate (app/domain/meeting_minutes.py) builds.
use Prim.Native.String.{◌++◌ as join_text}
use office_mult_agent.Base.{
  ℕ, String, Bool, Option, none, some, List, [], ◌∷◌, ◌++◌, map, filter, or_else, any,
  if◌then◌else◌,
}
use office_mult_agent.Base.Text.{is_empty, join, contains_text}
use office_mult_agent.Events.{is_low}

pub record TranscriptSegment : Type 0 where
  pub segment_id : String
  pub text : String
  pub speaker_id : Option String
  pub confidence : ℕ
  pub speaker_name : Option String
  pub start_ms : Option ℕ
  pub end_ms : Option ℕ
  pub language : String
  pub reviewed : Bool

pub record MeetingDecision : Type 0 where
  pub content : String
  pub evidence_segment_ids : List String

pub data ActionStatus : Type 0 where
  is_open in_progress completed : ActionStatus

pub record ActionItem : Type 0 where
  pub content : String
  pub owner_id : Option String
  pub owner_name : Option String
  pub due_date : Option String
  pub status : ActionStatus
  pub evidence_segment_ids : List String

pub data MinutesStatus : Type 0 where
  draft approved rejected sent : MinutesStatus

pub record MeetingMinutesDraft : Type 0 where
  pub meeting_id : String
  pub title : String
  pub summary : String
  pub evidence_segment_ids : List String
  pub warnings : List String
  pub status : MinutesStatus
  pub review_comment : Option String
  pub participants : List String
  pub topics : List String
  pub decisions : List MeetingDecision
  pub action_items : List ActionItem
  pub risks : List String
  pub open_questions : List String
  pub version : ℕ
  pub content_sha256 : Option String
  pub meeting_date : Option String
  pub generated_at : Option ℕ

abbrev pub is_decision : TranscriptSegment → Bool
is_decision segment = any (λ marker. contains_text marker segment.text) ("决定" ∷ "决议" ∷ "确认" ∷ [])

abbrev pub is_action : TranscriptSegment → Bool
is_action segment = any (λ marker. contains_text marker segment.text) ("负责" ∷ "跟进" ∷ "完成" ∷ [])

abbrev pub as_decision : TranscriptSegment → MeetingDecision
as_decision segment = record {
  content = segment.text;
  evidence_segment_ids = segment.segment_id ∷ [];
}

abbrev pub as_action : TranscriptSegment → ActionItem
as_action segment = record {
  content = segment.text;
  owner_id = none;
  owner_name = none;
  due_date = none;
  status = is_open;
  evidence_segment_ids = segment.segment_id ∷ [];
}

abbrev pub no_evidence : List TranscriptSegment → List String
no_evidence [] = "没有可用的转写片段，无法生成有证据的纪要。" ∷ []
no_evidence (s ∷ segments) = []

abbrev pub confirm_owners : List ActionItem → List String
confirm_owners [] = []
confirm_owners (a ∷ actions) = "行动项负责人和截止日期需要人工确认。" ∷ []

abbrev pub low_warning : List String → List String
low_warning [] = []
low_warning (i ∷ ids) = join_text "低置信度转写片段：" (join ", " (i ∷ ids)) ∷ []

abbrev pub low_segments : List TranscriptSegment → List String
low_segments segments = map (λ s. s.segment_id) (filter (λ s. is_low s.confidence) segments)

-- `meeting_date or today`
abbrev pub date_or : Option String → String → String
date_or meeting_date today =
    let given = or_else meeting_date "" in if is_empty given then today else given

unfoldable pub minutes_draft :
    String → String → List TranscriptSegment → Option String → ℕ → String → MeetingMinutesDraft
minutes_draft meeting_id title segments meeting_date generated_at today =
    let action_items = map as_action (filter is_action segments) in
    record {
      meeting_id = meeting_id;
      title = title;
      summary = join " " (map (λ s. s.text) segments);
      evidence_segment_ids = map (λ s. s.segment_id) segments;
      warnings =
          no_evidence segments
          ++ (confirm_owners action_items ++ low_warning (low_segments segments));
      status = draft;
      review_comment = none;
      participants = [];
      topics = [];
      decisions = map as_decision (filter is_decision segments);
      action_items = action_items;
      risks = [];
      open_questions = [];
      version = 1;
      content_sha256 = none;
      meeting_date = some (date_or meeting_date today);
      generated_at = some generated_at;
    }
