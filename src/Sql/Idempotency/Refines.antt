-- ===== src/Sql/Idempotency/Refines.antt =====
-- The table of idempotency records behaves as the dict of app/services/idempotency.py.
use office_mult_agent.Base.{
  String, true, Option, none, some, List, [], ◌∷◌, ◌++◌, ◌≡◌, refl, ap₂, arith, ◌==◌, triple_eq,
  string_eq, is_some, eq_iff, All, filter, Result, ok, Option-cases, inl, inr, All-append,
}
use office_mult_agent.Base.Dict.{lookup, insert, lookup-insert}
use office_mult_agent.Value.{Fields}
use office_mult_agent.Context.{RequestContext}
use office_mult_agent.Idempotency.{Scope, Results, recall, remember}
use office_mult_agent.Idempotency.FirstWins.{Attempt}
use office_mult_agent.Sql.Rows.{
  scalar_one_or_none, row_at, insert_row, Unique, scalar-select, row_at-All, row_at-append,
  Unique-append,
}
use office_mult_agent.Sql.Idempotency.{
  IdempotencyRecord, scope_key, is_completed_at, get_result, save_result, completed_record,
}

abbrev pub HasResult : IdempotencyRecord → Type 0
HasResult r = (r.status ≡ "completed") × (is_some r.result ≡ true)

-- The tables that `save` alone has written.
pub record IsTable (rows : List IdempotencyRecord) : Type 0 where
  pub unique : Unique scope_key rows
  pub completed : All HasResult rows

abbrev pub stored : Option IdempotencyRecord → Option Fields
stored none = none
stored (some r) = r.result

-- A table and a dict hold the same results.
abbrev pub Agrees : List IdempotencyRecord → Results → Type 0
Agrees rows s = (k : Scope) → lookup k s ≡ stored (row_at scope_key k rows)

filter_completed :
    (k : Scope) (rows : List IdempotencyRecord)
    → All HasResult rows
    → filter (is_completed_at k) rows ≡ filter (λ r. scope_key r == k) rows
filter_completed k [] h = refl
filter_completed k (r ∷ rows) h =
    rw (filter_completed k rows h.1) (ground (arith, h.0, (eq_iff r.status "completed").1 h.0.0))

module _ (rows : List IdempotencyRecord) (s : Results) (table : IsTable rows)
    (agrees : Agrees rows s) (operation key : String) (context : RequestContext) where
  selected :
      scalar_one_or_none (filter (is_completed_at (context.tenant_id, operation, key)) rows)
      ≡ ok (row_at scope_key (context.tenant_id, operation, key) rows)
  selected =
      rw (filter_completed (context.tenant_id, operation, key) rows table.completed)
        (scalar-select scope_key (context.tenant_id, operation, key) rows table.unique)

  -- The query gives what the dict gives.
  pub get_result-recall :
      get_result operation key context rows ≡ ok (recall operation key context s)
  unfolding get_result recall
  get_result-recall = ground (arith, selected, agrees (context.tenant_id, operation, key))

  -- A conflict: what is stored comes back, and nothing is written.
  save-conflict :
      {r : IdempotencyRecord} (uuid : String) (result : Fields)
      → row_at scope_key (context.tenant_id, operation, key) rows ≡ some r
      → save_result uuid operation key result context rows
        ≡ ((remember operation key result context s).0, rows)
  unfolding save_result remember insert_row get_result
  save-conflict {r} uuid result found = ground (
    arith,
    found,
    selected,
    agrees (context.tenant_id, operation, key),
    row_at-All scope_key HasResult (context.tenant_id, operation, key) rows table.completed found,
  )

  conflict-remember :
      {r : IdempotencyRecord} (result : Fields)
      → row_at scope_key (context.tenant_id, operation, key) rows ≡ some r
      → (remember operation key result context s).1 ≡ s
  unfolding remember
  conflict-remember {r} result found = ground (
    arith,
    found,
    agrees (context.tenant_id, operation, key),
    row_at-All scope_key HasResult (context.tenant_id, operation, key) rows table.completed found,
  )

  module _ (uuid : String) (result : Fields) where
    new_row : IdempotencyRecord
    new_row = completed_record uuid operation key result context

    module _ (unused : row_at scope_key (context.tenant_id, operation, key) rows ≡ none) where
      save-fresh :
          save_result uuid operation key result context rows ≡ (ok result, rows ++ new_row ∷ [])
      unfolding save_result insert_row new_row
      save-fresh = ground (arith, unused)

      fresh-remember :
          remember operation key result context s
          ≡ (ok result, insert (context.tenant_id, operation, key) result s)
      unfolding remember
      fresh-remember = ground (arith, unused, agrees (context.tenant_id, operation, key))

      fresh-IsTable : IsTable (rows ++ new_row ∷ [])
      unfolding new_row
      fresh-IsTable = record {
        unique = Unique-append scope_key new_row rows table.unique unused;
        completed = All-append HasResult rows (new_row ∷ []) table.completed ((refl, refl), tt);
      }

      fresh-Agrees :
          Agrees (rows ++ new_row ∷ []) (insert (context.tenant_id, operation, key) result s)
      unfolding new_row
      fresh-Agrees k = ground (
        arith,
        agrees k,
        lookup-insert (context.tenant_id, operation, key) k result s,
        row_at-append scope_key new_row k rows unused,
      )

  -- From a table and a dict that hold the same results, a save returns what the dict's save returns,
  -- and leaves a table and a dict that hold the same results again.
  pub save_result-remember :
      (uuid : String) (result : Fields)
      → ((save_result uuid operation key result context rows).0
          ≡ (remember operation key result context s).0)
        × IsTable (save_result uuid operation key result context rows).1
        × Agrees
            (save_result uuid operation key result context rows).1
            (remember operation key result context s).1
  save_result-remember uuid result =
      elim (Option-cases (row_at scope_key (context.tenant_id, operation, key) rows)) [
        | inl unused ↦
            rw (save-fresh uuid result unused, fresh-remember uuid result unused)
              (refl, fresh-IsTable uuid result unused, fresh-Agrees uuid result unused)
        | inr (r, found) ↦
            rw (save-conflict uuid result found, conflict-remember result found)
              (refl, table, agrees)
      ]

-- A sequence of saves, each with the id that its row would get: the answers, and what is stored.
pub saves :
    List (String × Attempt) → List IdempotencyRecord → List (Result Fields) × List IdempotencyRecord
saves [] rows = ([], rows)
saves ((uuid, a) ∷ rest) rows =
    let (answer, after) = save_result uuid a.operation a.key a.result a.context rows in
    let (answers, final) = saves rest after in (answer ∷ answers, final)

pub remembers : List (String × Attempt) → Results → List (Result Fields) × Results
remembers [] s = ([], s)
remembers ((uuid, a) ∷ rest) s =
    let (answer, after) = remember a.operation a.key a.result a.context s in
    let (answers, final) = remembers rest after in (answer ∷ answers, final)

saves_refine :
    (attempts : List (String × Attempt)) (rows : List IdempotencyRecord) (s : Results)
    → IsTable rows
    → Agrees rows s
    → ((saves attempts rows).0 ≡ (remembers attempts s).0)
      × IsTable (saves attempts rows).1
      × Agrees (saves attempts rows).1 (remembers attempts s).1
unfolding saves remembers
saves_refine [] rows s table agrees = (refl, table, agrees)
saves_refine ((uuid, a) ∷ rest) rows s table agrees =
    let one = save_result-remember rows s table agrees a.operation a.key a.context uuid a.result in
    let more =
      saves_refine rest (save_result uuid a.operation a.key a.result a.context rows).1
        (remember a.operation a.key a.result a.context s).1 one.1 one.2 in
    (ap₂ ◌∷◌ one.0 more.0, more.1, more.2)

-- Over any sequence of saves from the empty table, every save answers what the in-memory repository
-- answers, and a later query of any scope gives what it gives there.
pub saves_refine_new :
    (attempts : List (String × Attempt)) (operation key : String) (context : RequestContext)
    → ((saves attempts []).0 ≡ (remembers attempts []).0)
      × (get_result operation key context (saves attempts []).1
          ≡ ok (recall operation key context (remembers attempts []).1))
unfolding lookup
saves_refine_new attempts operation key context =
    let (answers, table, agrees) =
      saves_refine attempts [] [] (record { unique = tt; completed = tt }) (λ k. refl) in
    (
      answers,
      get_result-recall (saves attempts []).1 (remembers attempts []).1 table agrees operation key
          context,
    )
