-- ===== src/Tests/Repositories.antt =====
-- The SQL repositories of reports, minutes and files (app/repositories) at small tables.
use office_mult_agent.Base.{
  none, some, List, [], ◌∷◌, ◌≡◌, refl, arith, string_eq, ok, err, key_error,
}
use office_mult_agent.Value.{end}
use office_mult_agent.Context.{RequestContext, request_context}
use office_mult_agent.Meetings.Service.{list_recent, get_minutes}
use office_mult_agent.Reports.Draft.{ReportDraft, submitted}
use office_mult_agent.Sql
use office_mult_agent.Sql.Rows.{Unique}
use office_mult_agent.Sql.Reports.{ReportRow, save_report_row, get_report_row}
use office_mult_agent.Sql.Reports.Isolation.{Saved, get_report_row-save}
use office_mult_agent.Sql.Meetings.{save_minutes_row, list_recent_rows, get_minutes_row}
use office_mult_agent.Sql.Meetings.Saves.{
  Save, Ticks, save_rows, save_entries, list_recent_rows-list_recent,
}
use office_mult_agent.Sql.Files.{FileRecord, get_file_row, delete_file_row}
use office_mult_agent.Sql.Files.Isolation.{get_file_row-delete}
use office_mult_agent.Tests.Samples.{ann}
use office_mult_agent.Tests.Reports.{draft_one}
use office_mult_agent.Tests.Meetings.{held, no_minutes}

abbrev bob : RequestContext
bob = request_context "thread" "other" "bob"

abbrev later_draft : ReportDraft
later_draft = record draft_one { status = submitted; version = 2 }

abbrev report_codec : Sql.Reports.Codec
report_codec = record { dump = λ d. end; validate = λ payload. ok later_draft }

abbrev report_rows : List ReportRow
report_rows = (save_report_row report_codec draft_one (some ann) []).1

get_report_row-save_example : Saved report_codec report_rows later_draft ann
unfolding save_report_row
get_report_row-save_example =
    get_report_row-save report_codec report_rows (ground arith) later_draft refl ann

-- The other tenant is refused.
foreign_save :
    (save_report_row report_codec later_draft (some bob) report_rows).0 ≡ err (key_error "r1")
unfolding save_report_row
foreign_save = refl

abbrev minutes_codec : Sql.Meetings.Codec
minutes_codec = record { dump = λ d. end; validate = λ payload. ok held }

abbrev minutes_saves : List Save
minutes_saves =
    record { uuid = "m1"; now = 5; draft = held; context = ann }
    ∷ record { uuid = "m2"; now = 6; draft = held; context = bob }
    ∷ []

minutes-Ticks : Ticks minutes_codec minutes_saves []
unfolding save_minutes_row
minutes-Ticks = (tt, ((omega arith, tt), tt))

list_recent_rows-list_recent_example :
    (list_recent_rows minutes_codec ann 200 (save_rows minutes_codec minutes_saves [])
      ≡ ok (list_recent ann 200 (save_entries minutes_saves no_minutes)))
    × (get_minutes_row minutes_codec "k1" ann (save_rows minutes_codec minutes_saves [])
        ≡ ok (get_minutes "k1" ann (save_entries minutes_saves no_minutes)))
list_recent_rows-list_recent_example =
    list_recent_rows-list_recent minutes_codec minutes_saves no_minutes ann 200 "k1" refl refl
      (refl, (refl, tt)) minutes-Ticks

abbrev notes_row : FileRecord
notes_row = record {
  id = "f1";
  tenant_id = "acme";
  created_by = "ann";
  filename = "a.txt";
  content_type = none;
  byte_size = 1;
  sha256 = "hash";
  row_count = 1;
  file_type = "txt";
  object_ref = some "f1.txt";
  status = "stored";
}

notes_ids : Unique Sql.Files.id_of (notes_row ∷ [])
notes_ids = ground arith

get_file_row-delete_example :
    get_file_row (λ s. s) "f1" ann (delete_file_row "f1" ann (notes_row ∷ [])) ≡ ok none
get_file_row-delete_example =
    get_file_row-delete (λ s. s) (notes_row ∷ []) notes_ids "f1" ann "f1" ann
