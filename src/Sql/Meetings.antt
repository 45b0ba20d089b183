-- ===== src/Sql/Meetings.antt =====
-- SqlAlchemyMeetingMinutesRepository (app/repositories/meetings.py) over the table meeting_minutes.
pub mod Recent
pub mod Refines
pub mod Saves
use office_mult_agent.Base.{
  ℕ, ◌+◌, String, Bool, ◌&&◌, Option, none, some, List, [], ◌∷◌, ◌++◌, ◌==◌, string_eq, pair_eq,
  filter, take, ltb, if◌then◌else◌, Result, ok, err, Exec,
}
use office_mult_agent.Value.{Fields}
use office_mult_agent.Context.{RequestContext}
use office_mult_agent.Meetings.Draft.{MeetingMinutesDraft, MinutesStatus}
use office_mult_agent.Sql.Rows.{scalar_one_or_none, change_where}

-- `draft.model_dump(mode="json")`, and `MeetingMinutesDraft.model_validate`, which may raise.
pub record Codec : Type 0 where
  pub dump : MeetingMinutesDraft → Fields
  pub validate : Fields → Result MeetingMinutesDraft

pub record MinutesRow : Type 0 where
  pub id : String
  pub tenant_id : String
  pub created_by : String
  pub created_at : ℕ
  pub meeting_id : String
  pub status : MinutesStatus
  pub payload : Fields
  pub version : ℕ

-- The columns of `uq_meeting_minutes_tenant`.
abbrev pub meeting_key : MinutesRow → String × String
meeting_key r = (r.tenant_id, r.meeting_id)

abbrev pub rows_at : String × String → List MinutesRow → Result (Option MinutesRow)
rows_at k rows = scalar_one_or_none (filter (λ r. meeting_key r == k) rows)

-- `order_by(created_at.desc())`: a row stands before those that were created earlier.
unfoldable pub insert_desc : MinutesRow → List MinutesRow → List MinutesRow
insert_desc r [] = r ∷ []
insert_desc r (s ∷ rows) =
    if ltb s.created_at r.created_at then r ∷ s ∷ rows else s ∷ insert_desc r rows

unfoldable pub sort_desc : List MinutesRow → List MinutesRow
unfolding insert_desc
sort_desc [] = []
sort_desc (r ∷ rows) = insert_desc r (sort_desc rows)

abbrev pub is_own_row : RequestContext → MinutesRow → Bool
is_own_row context r = r.tenant_id == context.tenant_id && r.created_by == context.operator_id

module _ (codec : Codec) where
  -- The row of minutes that are saved for the first time, with the id and the time that it is given.
  abbrev pub new_minutes : String → ℕ → MeetingMinutesDraft → RequestContext → MinutesRow
  new_minutes uuid now d context = record {
    id = uuid;
    tenant_id = context.tenant_id;
    created_by = context.operator_id;
    created_at = now;
    meeting_id = d.meeting_id;
    status = d.status;
    payload = codec.dump d;
    version = 1;
  }

  abbrev pub overwrite_minutes : MeetingMinutesDraft → MinutesRow → MinutesRow
  overwrite_minutes d r = record r {
    status = d.status;
    payload = codec.dump d;
    version = r.version + 1;
  }

  abbrev pub save_found :
      String
      → ℕ
      → MeetingMinutesDraft
      → RequestContext
      → Result (Option MinutesRow)
      → Exec (List MinutesRow) MeetingMinutesDraft
  save_found uuid now d context (err e) rows = (err e, rows)
  save_found uuid now d context (ok none) rows = (ok d, rows ++ new_minutes uuid now d context ∷ [])
  save_found uuid now d context (ok (some r)) rows =
      (ok d, change_where (λ s. meeting_key s == meeting_key r) (overwrite_minutes d) rows)

  unfoldable pub save_minutes_row :
      String → ℕ → MeetingMinutesDraft → RequestContext → Exec (List MinutesRow) MeetingMinutesDraft
  save_minutes_row uuid now d context rows =
      save_found uuid now d context (rows_at (context.tenant_id, d.meeting_id) rows) rows

  abbrev pub validate_found : Result (Option MinutesRow) → Result (Option MeetingMinutesDraft)
  validate_found (err e) = err e
  validate_found (ok none) = ok none
  validate_found (ok (some r)) = elim (codec.validate r.payload) [
    | ok d ↦ ok (some d)
    | err e ↦ err e
  ]

  unfoldable pub get_minutes_row :
      String → RequestContext → List MinutesRow → Result (Option MeetingMinutesDraft)
  get_minutes_row meeting_id context rows =
      validate_found (rows_at (context.tenant_id, meeting_id) rows)

  abbrev pub add_valid :
      Result MeetingMinutesDraft
      → Result (List MeetingMinutesDraft)
      → Result (List MeetingMinutesDraft)
  add_valid (err e) rest = err e
  add_valid (ok d) (err e) = err e
  add_valid (ok d) (ok ds) = ok (d ∷ ds)

  -- `[model_validate(record.payload) for record in …]`
  unfoldable pub validate_all : List MinutesRow → Result (List MeetingMinutesDraft)
  validate_all [] = ok []
  validate_all (r ∷ rows) = add_valid (codec.validate r.payload) (validate_all rows)

  unfoldable pub list_recent_rows :
      RequestContext → ℕ → List MinutesRow → Result (List MeetingMinutesDraft)
  unfolding sort_desc validate_all
  list_recent_rows context limit rows =
      validate_all (take limit (sort_desc (filter (is_own_row context) rows)))
