-- ===== src/Sql/Files/Isolation.antt =====
-- Files in the database belong to their tenant (app/repositories/files.py).
use office_mult_agent.Base.{
  String, not, ◌&&◌, none, List, ◌≡◌, arith, ◌==◌, string_eq, eq_iff, if◌then◌else◌, ok,
  Option-cases, inl, inr,
}
use office_mult_agent.Context.{RequestContext}
use office_mult_agent.Sql.Rows.{row_at, Unique, row_at-key, scalar-select_and}
use office_mult_agent.Sql.Rows.Filters.{Unique-filter, row_at-filter-Unique}
use office_mult_agent.Sql.Files.{FileRecord, id_of, is_file_of, get_file_row, delete_file_row}

module _ (normal_path : String → String) (rows : List FileRecord) (unique : Unique id_of rows)
    (file_id : String) (context : RequestContext) where
  -- Where the ids of the rows are all different, every caller reads of every file after a deletion what
  -- was to be read before, except that callers of the tenant that deleted find nothing under the id.
  pub get_file_row-delete :
      (other_id : String) (caller : RequestContext)
      → get_file_row normal_path other_id caller (delete_file_row file_id context rows) ≡ (
          if other_id == file_id && caller.tenant_id == context.tenant_id
          then ok none
          else get_file_row normal_path other_id caller rows)
  unfolding get_file_row delete_file_row
  get_file_row-delete other_id caller =
      let of_caller = λ (r : FileRecord). r.tenant_id == caller.tenant_id in
      let before = scalar-select_and id_of other_id (of_caller) rows unique in
      let kept = Unique-filter id_of (λ r. not (is_file_of file_id context r)) rows unique in
      let after =
        scalar-select_and id_of other_id (of_caller) (delete_file_row file_id context rows)
          (kept) in
      let left =
        row_at-filter-Unique id_of (λ r. not (is_file_of file_id context r)) other_id rows unique in
      elim (Option-cases (row_at id_of other_id rows)) [
        | inl missing ↦ ground (arith, before, after, left, missing)
        | inr (r, found) ↦ ground (
          arith,
          before,
          after,
          left,
          found,
          row_at-key id_of other_id rows found,
          eq_iff r.tenant_id caller.tenant_id,
          eq_iff r.tenant_id context.tenant_id,
          eq_iff caller.tenant_id context.tenant_id,
        )
      ]
