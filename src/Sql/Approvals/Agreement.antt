-- ===== src/Sql/Approvals/Agreement.antt =====
-- A table of approvals that agrees with the dict of app/services/approvals.py, and the methods over it.
use office_mult_agent.Base.{
  String, Bool, true, not, Option, none, some, List, [], ◌∷◌, ◌++◌, ◌≡◌, refl, ap, sym, ◌∙◌, arith,
  ◌==◌, string_eq, triple_eq, filter, ok, All, All-append, Bool-cases, Option-cases, inl, inr,
  ==_iff,
}
use office_mult_agent.Base.Dict.{lookup, lookup-insert}
use office_mult_agent.Context.{RequestContext}
use office_mult_agent.Approvals.{
  ApprovalKey, Approvals, is_pending, only_pending, create_pending, get_pending, decide,
  pending_record, decision_record,
}
use office_mult_agent.Sql.Rows.{
  scalar_one_or_none, row_at, Unique, change_where, map_option, scalar-select, row_at-append,
  Unique-append, row_at-All, row_at-key,
}
use office_mult_agent.Sql.Rows.Filters.{
  row_at-filter, Unique-filter, filter-filter, filter-append, All-filter,
}
use office_mult_agent.Sql.Approvals.{
  ApprovalTask, target_key, to_record, is_pending_at, pending_row, new_approval, create_pending_row,
  get_pending_row, decide_record, decide_row,
}

-- The open requests of a table.
abbrev pub open_rows : List ApprovalTask → List ApprovalTask
open_rows rows = filter (λ r. is_pending r.status) rows

-- There is at most one open request under a key, it bears no comment, and it is the one that the
-- dict holds.
pub record Agrees (rows : List ApprovalTask) (s : Approvals) : Type 0 where
  pub unique : Unique target_key (open_rows rows)
  pub plain : All (λ r. r.comment ≡ none) (open_rows rows)
  pub same :
      (k : ApprovalKey)
      → map_option to_record (row_at target_key k (open_rows rows)) ≡ only_pending (lookup k s)

open-pending : (rows : List ApprovalTask) → All (λ r. is_pending r.status ≡ true) (open_rows rows)
open-pending [] = tt
open-pending (r ∷ rows) = elim (Bool-cases (is_pending r.status)) [
  | inl waits ↦ rw waits (waits, open-pending rows)
  | inr decided ↦ rw decided (open-pending rows)
]

module _ (rows : List ApprovalTask) (s : Approvals) (agrees : Agrees rows s)
    (target_type target_id : String) (context : RequestContext) where
  abbrev key : ApprovalKey
  key = (context.tenant_id, target_type, target_id)

  pending_row-at : pending_row key rows ≡ ok (row_at target_key key (open_rows rows))
  pending_row-at =
      ap scalar_one_or_none
        (sym (filter-filter (λ r. target_key r == key) (λ r. is_pending r.status) rows))
      ∙ scalar-select target_key key (open_rows rows) agrees.unique

  pub get_pending_row-get_pending :
      get_pending_row target_type target_id context rows
      ≡ ok (get_pending target_type target_id context s)
  unfolding get_pending_row get_pending
  get_pending_row-get_pending = rw pending_row-at (ap ok (agrees.same key))

  open_record :
      {r : ApprovalTask}
      → row_at target_key key (open_rows rows) ≡ some r
      → to_record r ≡ pending_record target_type target_id context
  open_record {r} found = ground (
    arith,
    row_at-All target_key (λ r. r.comment ≡ none) key (open_rows rows) agrees.plain found,
    row_at-key target_key key (open_rows rows) found,
    row_at-All target_key (λ r. is_pending r.status ≡ true) key (open_rows rows) (open-pending rows)
        found,
  )

  create-found :
      {r : ApprovalTask} (uuid : String)
      → row_at target_key key (open_rows rows) ≡ some r
      → create_pending_row uuid target_type target_id context rows
        ≡ ((create_pending target_type target_id context s).0, rows)
  unfolding create_pending_row create_pending
  create-found {r} uuid found = ground (arith, pending_row-at, found, open_record found)

  create-found_Agrees :
      {r : ApprovalTask}
      → row_at target_key key (open_rows rows) ≡ some r
      → Agrees rows (create_pending target_type target_id context s).1
  unfolding create_pending
  create-found_Agrees {r} found = record {
    unique = agrees.unique;
    plain = agrees.plain;
    same = λ k. ground (
      arith,
      agrees.same k,
      found,
      open_record found,
      ==_iff key k,
      lookup-insert key k (pending_record target_type target_id context) s,
    );
  }

  module _ (uuid : String) (unused : row_at target_key key (open_rows rows) ≡ none) where
    abbrev new_row : ApprovalTask
    new_row = new_approval uuid target_type target_id context

    create-unused :
        create_pending_row uuid target_type target_id context rows
        ≡ ((create_pending target_type target_id context s).0, rows ++ new_row ∷ [])
    unfolding create_pending_row create_pending
    create-unused = ground (arith, pending_row-at, unused)

    create-unused_Agrees :
        Agrees (rows ++ new_row ∷ []) (create_pending target_type target_id context s).1
    unfolding create_pending
    create-unused_Agrees =
        let opened =
          filter-append (λ (r : ApprovalTask). is_pending r.status) rows (new_row ∷ []) in
        record {
          unique =
              rw opened (Unique-append target_key new_row (open_rows rows) agrees.unique unused);
          plain = rw opened (
              All-append (λ r. r.comment ≡ none) (open_rows rows) (new_row ∷ []) agrees.plain
                (refl, tt));
          same = λ k. ground (
            arith,
            opened,
            agrees.same k,
            row_at-append target_key new_row k (open_rows rows) unused,
            lookup-insert key k (pending_record target_type target_id context) s,
          );
        }

  pub create_pending_row-create_pending :
      (uuid : String)
      → ((create_pending_row uuid target_type target_id context rows).0
          ≡ (create_pending target_type target_id context s).0)
        × Agrees
            (create_pending_row uuid target_type target_id context rows).1
            (create_pending target_type target_id context s).1
  create_pending_row-create_pending uuid =
      elim (Option-cases (row_at target_key key (open_rows rows))) [
        | inl unused ↦ rw (create-unused uuid unused) (refl, create-unused_Agrees uuid unused)
        | inr (r, found) ↦ rw (create-found uuid found) (refl, create-found_Agrees found)
      ]

  module _ (granted : Bool) (comment : Option String) where
    open-decide :
        (rows : List ApprovalTask)
        → open_rows (change_where (is_pending_at key) (decide_record granted comment) rows)
          ≡ filter (λ r. not (target_key r == key)) (open_rows rows)
    unfolding change_where
    open-decide [] = refl
    open-decide (r ∷ rows) = ground (arith, open-decide rows)

    decide-none :
        row_at target_key key (open_rows rows) ≡ none
        → (decide_row target_type target_id granted comment context rows
            ≡ ((decide target_type target_id granted comment context s).0, rows))
          × ((decide target_type target_id granted comment context s).1 ≡ s)
    unfolding decide_row decide get_pending
    decide-none closed = (
      ground (arith, pending_row-at, closed, agrees.same key),
      ground (arith, closed, agrees.same key),
    )

    decide-found :
        {r : ApprovalTask}
        → row_at target_key key (open_rows rows) ≡ some r
        → decide_row target_type target_id granted comment context rows ≡ (
          (decide target_type target_id granted comment context s).0,
          change_where (is_pending_at key) (decide_record granted comment) rows,
        )
    unfolding decide_row decide get_pending
    decide-found {r} found =
        ground (arith, pending_row-at, found, agrees.same key, open_record found)

    decide-found_Agrees :
        {r : ApprovalTask}
        → row_at target_key key (open_rows rows) ≡ some r
        → Agrees
            (change_where (is_pending_at key) (decide_record granted comment) rows)
            (decide target_type target_id granted comment context s).1
    unfolding decide get_pending
    decide-found_Agrees {r} found = record {
      unique = rw (open-decide rows) (
          Unique-filter target_key (λ r. not (target_key r == key)) (open_rows rows) agrees.unique);
      plain = rw (open-decide rows) (
          All-filter (λ r. r.comment ≡ none) (λ r. not (target_key r == key)) (open_rows rows)
            agrees.plain);
      same = λ k. ground (
        arith,
        open-decide rows,
        agrees.same k,
        agrees.same key,
        found,
        row_at-filter target_key key k (open_rows rows),
        lookup-insert key k (decision_record target_type target_id granted comment context) s,
      );
    }

    pub decide_row-decide :
        ((decide_row target_type target_id granted comment context rows).0
          ≡ (decide target_type target_id granted comment context s).0)
        × Agrees
            (decide_row target_type target_id granted comment context rows).1
            (decide target_type target_id granted comment context s).1
    decide_row-decide = elim (Option-cases (row_at target_key key (open_rows rows))) [
      | inl closed ↦
          let (same_row, same_dict) = decide-none closed in rw (same_row, same_dict) (refl, agrees)
      | inr (r, found) ↦ rw (decide-found found) (refl, decide-found_Agrees found)
    ]
