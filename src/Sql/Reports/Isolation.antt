-- ===== src/Sql/Reports/Isolation.antt =====
-- Reports in the database belong to their tenant (app/repositories/persistence.py).
use office_mult_agent.Base.{
  String, Bool, false, not, ◌&&◌, Option, none, some, List, [], ◌∷◌, ◌++◌, ◌≡◌, refl, arith, ◌==◌,
  string_eq, eq_iff, sym, subst, AllDifferent, if◌then◌else◌, ok, err, key_error, Option-cases,
  Bool-cases, inl, inr,
}
use office_mult_agent.Context.{RequestContext}
use office_mult_agent.Reports.Draft.{ReportDraft}
use office_mult_agent.Sql.Rows.{
  row_at, Unique, change_where, scalar-select_and, row_at-append, row_at-change, keys-change,
  Unique-append,
}
use office_mult_agent.Sql.Reports.{
  Codec, ReportRow, id_of, new_report, overwrite_report, save_report_row, get_report_row,
}

-- The tenant of a report, if it is there.
abbrev pub tenant_of : String → List ReportRow → Option String
tenant_of report_id rows = elim (row_at id_of report_id rows) [
  | none ↦ none
  | some r ↦ some r.tenant_id
]

-- Another tenant has the report.
abbrev pub is_foreign : String → RequestContext → List ReportRow → Bool
is_foreign report_id context rows = elim (tenant_of report_id rows) [
  | none ↦ false
  | some tenant_id ↦ not (tenant_id == context.tenant_id)
]

-- What a save does: its answer, and what any caller reads of any report after it.
abbrev pub Saved : Codec → List ReportRow → ReportDraft → RequestContext → Type 0
Saved codec rows d context =
    ((save_report_row codec d (some context) rows).0
      ≡ (if is_foreign d.report_id context rows then err (key_error d.report_id) else ok d))
    × ((report_id : String) (caller : RequestContext)
        → get_report_row codec report_id (some caller)
            (save_report_row codec d (some context) rows).1
          ≡ (if d.report_id == report_id && not (is_foreign d.report_id context rows)
              then (if context.tenant_id == caller.tenant_id then ok (some d) else ok none)
              else get_report_row codec report_id (some caller) rows))

module _ (codec : Codec) (rows : List ReportRow) (unique : Unique id_of rows) (d : ReportDraft)
    (validates : codec.validate (codec.dump d) ≡ ok d) (context : RequestContext) where
  -- A table after a save that wrote, for any reader.
  read_fresh :
      row_at id_of d.report_id rows ≡ none
      → (report_id : String) (caller : RequestContext)
      → get_report_row codec report_id (some caller) (rows ++ new_report codec d context ∷ []) ≡ (
          if d.report_id == report_id
          then (if context.tenant_id == caller.tenant_id then ok (some d) else ok none)
          else get_report_row codec report_id (some caller) rows)
  unfolding get_report_row
  read_fresh unused report_id caller = ground (
    arith,
    scalar-select_and id_of report_id (λ r. r.tenant_id == caller.tenant_id)
        (rows ++ new_report codec d context ∷ [])
        (Unique-append id_of (new_report codec d context) rows unique unused),
    scalar-select_and id_of report_id (λ r. r.tenant_id == caller.tenant_id) rows unique,
    row_at-append id_of (new_report codec d context) report_id rows unused,
    validates,
  )

  read_own :
      (r : ReportRow)
      → row_at id_of d.report_id rows ≡ some r
      → r.tenant_id ≡ context.tenant_id
      → (report_id : String) (caller : RequestContext)
      → get_report_row codec report_id
          (some caller)
          (change_where (λ r. id_of r == d.report_id) (overwrite_report codec d) rows)
        ≡ (if d.report_id == report_id
            then (if context.tenant_id == caller.tenant_id then ok (some d) else ok none)
            else get_report_row codec report_id (some caller) rows)
  unfolding get_report_row
  read_own r found own report_id caller =
      let kept =
        keys-change id_of (λ r. id_of r == d.report_id) (overwrite_report codec d) (λ r. refl)
          rows in
      let changed =
        row_at-change id_of d.report_id (overwrite_report codec d) (λ r. refl) report_id rows in
      ground (
        arith,
        scalar-select_and id_of report_id (λ r. r.tenant_id == caller.tenant_id)
            (change_where (λ r. id_of r == d.report_id) (overwrite_report codec d) rows)
            (subst AllDifferent (sym kept) unique),
        scalar-select_and id_of report_id (λ r. r.tenant_id == caller.tenant_id) rows unique,
        changed,
        found,
        own,
        eq_iff d.report_id report_id,
        validates,
      )

  -- Where the ids of the rows are all different and the report is read back from its dump as it was, a
  -- save fails with a KeyError exactly if the report is another tenant's, and then changes nothing
  -- that anyone reads; else it succeeds, the callers of the same tenant read what was saved, all
  -- others find nothing under its id, and every other report reads as before.
  pub get_report_row-save : Saved codec rows d context
  unfolding save_report_row
  get_report_row-save = elim (Option-cases (row_at id_of d.report_id rows)) [
    | inl unused ↦ (
      ground (arith, unused),
      λ report_id caller. ground (arith, unused, read_fresh unused report_id caller),
    )
    | inr (r, found) ↦ elim (Bool-cases (r.tenant_id == context.tenant_id)) [
      | inl own ↦ (
        ground (arith, found, own),
        λ report_id caller. ground (
          arith,
          found,
          own,
          read_own r found ((eq_iff r.tenant_id context.tenant_id).0 own) report_id caller,
        ),
      )
      | inr other ↦ (ground (arith, found, other), λ report_id caller. ground (arith, found, other))
    ]
  ]
