-- ===== src/Events.antt =====
-- Work events: the models WorkEvent and EmailActivity of app/schemas/workflows.py.
-- A confidence is a double between 0 and 1. Every such double is a whole multiple of 2 ^ -1074, and
-- the model keeps the multiple, so comparisons are exact. Times are microseconds.
use Prim.Native.Nat.{◌^◌}
use office_mult_agent.Base.{ℕ, ◌*◌, String, Bool, true, false, Option, List, [], none, ltb}

pub data WorkStatus : Type 0 where
  completed in_progress blocked planned unknown : WorkStatus

pub data EventType : Type 0 where
  task_completed task_progress problem decision collaboration meeting code_change plan : EventType

pub data SourceType : Type 0 where
  im email git gitlab task meeting manual analysis : SourceType

pub record EvidenceRef : Type 0 where
  pub source_type : SourceType
  pub source_id : String
  pub evidence_url : Option String
  pub segment_id : Option String
  pub confidence : ℕ

pub record WorkEvent : Type 0 where
  pub event_id : String
  pub title : String
  pub status : WorkStatus
  pub evidence_url : Option String
  pub event_type : EventType
  pub project_id : Option String
  pub description : Option String
  pub result : Option String
  pub progress : Option ℕ
  pub event_time : Option ℕ
  pub source_type : SourceType
  pub source_id : Option String
  pub confidence : ℕ
  pub sensitive : Bool
  pub participants : List String
  pub tags : List String
  pub evidence : List EvidenceRef

-- 1.0
unfoldable pub full_confidence : ℕ
full_confidence = 2 ^ 1074

-- `confidence < 0.6`: the double next to 0.6 is 5404319552844595 * 2 ^ -53
unfoldable pub is_low : ℕ → Bool
is_low confidence = ltb confidence (5404319552844595 * 2 ^ 1021)

-- WorkEvent(event_id=…, title=…, status=…), all else at the defaults
abbrev pub work_event : String → String → WorkStatus → WorkEvent
work_event event_id title status = record {
  event_id = event_id;
  title = title;
  status = status;
  evidence_url = none;
  event_type = task_progress;
  project_id = none;
  description = none;
  result = none;
  progress = none;
  event_time = none;
  source_type = manual;
  source_id = none;
  confidence = full_confidence;
  sensitive = false;
  participants = [];
  tags = [];
  evidence = [];
}

abbrev pub is_completed : WorkStatus → Bool
is_completed completed = true
is_completed _ = false

abbrev pub is_in_progress : WorkStatus → Bool
is_in_progress in_progress = true
is_in_progress _ = false

abbrev pub is_blocked : WorkStatus → Bool
is_blocked blocked = true
is_blocked _ = false

abbrev pub is_planned : WorkStatus → Bool
is_planned planned = true
is_planned _ = false

abbrev pub is_unknown : WorkStatus → Bool
is_unknown unknown = true
is_unknown _ = false
