-- ===== src/Sql/Tasks/Bounds.antt =====
-- The attempts of a task in the database (app/repositories/runtime.py and the service of
-- app/services/runtime_state.py over it), as long as a copy is saved only while its lease stands.
use office_mult_agent.Base.{
  ℕ, ◌+◌, ◌≤◌, String, true, not, ◌&&◌, contains, In-filter, Option, some, List, [], ◌∷◌, ◌≡◌, refl,
  sym, subst, arith, ◌⊎◌, ◌==◌, string_eq, eq_iff, if◌then◌else◌, All, All-append, AllDifferent, In,
  inl, inr, Option-cases, Bool-cases,
}
use office_mult_agent.Base.Int.{ℤ}
use office_mult_agent.Value.{Fields}
use office_mult_agent.Context.{RequestContext}
use office_mult_agent.Tasks.Object.{
  BackgroundTask, TaskStatus, is_waiting, mark_updated, mark_failed, mark_succeeded,
}
use office_mult_agent.Tasks.Repository.{fresh_task}
use office_mult_agent.Sql.Rows.{
  row_at, Unique, change_where, keys-change, All-change, Unique-append, In→row_at, row_at-key,
}
use office_mult_agent.Sql.Tasks.{
  BackgroundTaskRecord, Table, claim_record, earliest, can_claim, candidates, claim_next_row,
  save_claimed_row, save_task_row, request_row_cancel, write_claimed, overwrite_record,
  cancel_record, new_record, has_id,
}
use office_mult_agent.Sql.Tasks.Claims.{earliest-In}
use office_mult_agent.Sql.Tasks.Copies.{id_of, task_row-at}

-- A call of the service, by what it does to the table.
pub data Step (rows : Table) : Table → Type 0 where
  create :
      (uuid : String) (now inserted : ℕ) (kind : String) (payload : Option Fields)
      (max_attempts : ℕ) (context : RequestContext)
      → 1 ≤ max_attempts
      → Step rows
          (save_task_row now inserted
            (fresh_task uuid now kind payload max_attempts context)
            context
            rows).1
  claim :
      (worker : String) (now lease : ℕ) (held : List String)
      → Step rows (claim_next_row worker now lease held rows).1
  cancel :
      (now : ℕ) (task_id : String) (context : RequestContext)
      → Step rows (request_row_cancel now task_id context rows).1
  succeed :
      (now saved : ℕ) (result : Fields) (copy : BackgroundTask)
      → Step rows (save_claimed_row saved (mark_succeeded result now copy) rows).1
  -- A copy that is updated, to a waiting status only with an attempt left.
  update :
      (now inserted : ℕ) (status : TaskStatus) (progress : ℕ) (code : Option String)
      (copy : BackgroundTask) (context : RequestContext)
      → (if is_waiting status then copy.attempts + 1 else copy.attempts) ≤ copy.max_attempts
      → Step rows
          (save_task_row now inserted (mark_updated status progress code copy) context rows).1
  -- No one has claimed the task since the copy was made, or the copy has used its attempts up, as
  -- where the worker gives the task up.
  fail :
      (now saved : ℕ) (error_code : String) (delay : ℤ) (copy : BackgroundTask)
      (row : BackgroundTaskRecord)
      → row_at id_of copy.task_id rows ≡ some row
      → (copy.attempts ≡ row.attempts) ⊎ (copy.attempts ≡ copy.max_attempts)
      → copy.max_attempts ≡ row.max_attempts
      → Step rows (save_claimed_row saved (mark_failed error_code delay now copy) rows).1

pub data Reach : Table → Type 0 where
  start : Reach []
  step : {rows rows' : Table} → Reach rows → Step rows rows' → Reach rows'

-- A task that waits for a worker has an attempt left, and no task has used more than it may.
abbrev pub IsBounded : BackgroundTaskRecord → Type 0
IsBounded r = (if is_waiting r.status then r.attempts + 1 else r.attempts) ≤ r.max_attempts

pub record IsSound (rows : Table) : Type 0 where
  pub unique : Unique id_of rows
  pub bounded : All IsBounded rows

claim_record-IsBounded :
    (worker : String) (now lease : ℕ) (row : BackgroundTaskRecord)
    → can_claim now lease row ≡ true
    → IsBounded row
    → IsBounded (claim_record worker now row).1
unfolding claim_record can_claim
claim_record-IsBounded worker now lease row due bound = ground (arith, due, bound)

module _ (rows : Table) (sound : IsSound rows) where
  -- A change of the rows with one id.
  change-IsSound :
      (task_id : String) (change : BackgroundTaskRecord → BackgroundTaskRecord)
      → ((r : BackgroundTaskRecord) → (change r).id ≡ r.id)
      → ((r : BackgroundTaskRecord)
          → row_at id_of task_id rows ≡ some r
          → IsBounded r
          → IsBounded (change r))
      → IsSound (change_where (has_id task_id) change rows)
  change-IsSound task_id change keeps keeps_bound = record {
    unique =
        subst AllDifferent (sym (keys-change id_of (has_id task_id) change keeps rows))
          sound.unique;
    bounded = All-change IsBounded (has_id task_id) change rows sound.bounded at_row;
  }
    where
      at_row :
          (r : BackgroundTaskRecord)
          → In r rows
          → IsBounded r
          → has_id task_id r ≡ true
          → IsBounded (change r)
      at_row r m bound hit =
          let same : r.id ≡ task_id = (eq_iff r.id task_id).0 hit in
          keeps_bound r
            (subst (λ k. row_at id_of k rows ≡ some r) same (In→row_at id_of r rows sound.unique m))
            bound

  claim-IsSound :
      (worker : String) (now lease : ℕ) (held : List String)
      → IsSound (claim_next_row worker now lease held rows).1
  unfolding claim_next_row claim_record
  claim-IsSound worker now lease held =
      elim (Option-cases (earliest (candidates now lease held rows))) [
        | inl empty ↦ rw (empty, claim_next_row) sound
        | inr (row, found) ↦
            let (here, waits) =
              In-filter (λ r. can_claim now lease r && not (contains held r.id)) row rows
                (earliest-In (candidates now lease held rows) found) in
            let there = In→row_at id_of row rows sound.unique here in
            rw (found, claim_next_row)
              (change-IsSound row.id (λ r. (claim_record worker now r).1) (λ r. ground arith)
                (λ r at_id bound.
                  claim_record-IsBounded worker now lease r (ground (arith, there, at_id, waits))
                    bound))
      ]

  create-IsSound :
      (now inserted : ℕ) (task : BackgroundTask) (context : RequestContext)
      → (if is_waiting task.status then task.attempts + 1 else task.attempts) ≤ task.max_attempts
      → IsSound (save_task_row now inserted task context rows).1
  unfolding save_task_row
  create-IsSound now inserted task context bound =
      elim (Option-cases (row_at id_of task.task_id rows)) [
        | inl unused ↦
            rw (unused, save_task_row)
              (record {
                unique =
                    Unique-append id_of (new_record now inserted task context) rows sound.unique
                      unused;
                bounded =
                    All-append IsBounded rows (new_record now inserted task context ∷ [])
                      sound.bounded (bound, tt);
              })
        | inr (row, found) ↦ elim (Bool-cases (row.tenant_id == context.tenant_id)) [
          | inl own ↦
              rw (found, save_task_row)
                (rw own (
                  change-IsSound task.task_id (overwrite_record now task) (λ r. refl)
                    (λ r here before. bound)))
          | inr other ↦ rw (found, save_task_row) (rw other sound)
        ]
      ]

  -- A copy that is saved, where the row that it is written to stays bounded.
  save_claimed-IsSound :
      (saved : ℕ) (task : BackgroundTask)
      → ((r : BackgroundTaskRecord)
          → row_at id_of task.task_id rows ≡ some r
          → IsBounded r
          → IsBounded (write_claimed saved task r))
      → IsSound (save_claimed_row saved task rows).1
  unfolding save_claimed_row
  save_claimed-IsSound saved task keeps_bound =
      elim (Option-cases (row_at id_of task.task_id rows)) [
        | inl empty ↦
            let same : (save_claimed_row saved task rows).1 ≡ rows =
              ground (arith, task_row-at rows sound.unique task.task_id task.tenant_id, empty) in
            subst IsSound (sym same) sound
        | inr (row, found) ↦ elim (Bool-cases (row.tenant_id == task.tenant_id)) [
          | inl own ↦
              let changed : (save_claimed_row saved task rows).1
                  ≡ change_where (has_id row.id) (write_claimed saved task) rows =
                ground
                  (arith, task_row-at rows sound.unique task.task_id task.tenant_id, found, own) in
              subst IsSound (sym changed) (
                change-IsSound row.id (write_claimed saved task) (λ r. refl)
                  (λ r at_id. keeps_bound r (
                    subst (λ k. row_at id_of k rows ≡ some r)
                      (row_at-key id_of task.task_id rows found) at_id)))
          | inr other ↦
              let same : (save_claimed_row saved task rows).1 ≡ rows =
                ground (
                  arith,
                  task_row-at rows sound.unique task.task_id task.tenant_id,
                  found,
                  other,
                ) in
              subst IsSound (sym same) sound
        ]
      ]

  cancel-IsSound :
      (now : ℕ) (task_id : String) (context : RequestContext)
      → IsSound (request_row_cancel now task_id context rows).1
  unfolding request_row_cancel
  cancel-IsSound now task_id context = elim (Option-cases (row_at id_of task_id rows)) [
    | inl empty ↦
        let same : (request_row_cancel now task_id context rows).1 ≡ rows =
          ground (arith, task_row-at rows sound.unique task_id context.tenant_id, empty) in
        subst IsSound (sym same) sound
    | inr (row, found) ↦ elim (Bool-cases (row.tenant_id == context.tenant_id)) [
      | inl own ↦
          let changed : (request_row_cancel now task_id context rows).1
              ≡ change_where (has_id row.id) (cancel_record now) rows =
            ground (arith, task_row-at rows sound.unique task_id context.tenant_id, found, own) in
          subst IsSound (sym changed) (
            change-IsSound row.id (cancel_record now) (λ r. ground arith)
              (λ r at_id bound. ground (arith, bound)))
      | inr other ↦
          let same : (request_row_cancel now task_id context rows).1 ≡ rows =
            ground (arith, task_row-at rows sound.unique task_id context.tenant_id, found, other) in
          subst IsSound (sym same) sound
    ]
  ]

Step-IsSound : {rows rows' : Table} → IsSound rows → Step rows rows' → IsSound rows'
unfolding mark_succeeded mark_failed mark_updated
Step-IsSound {rows} sound (create uuid now inserted kind payload max_attempts context positive) =
    create-IsSound rows sound now inserted (fresh_task uuid now kind payload max_attempts context)
      context (omega (arith, positive))
Step-IsSound {rows} sound (claim worker now lease held) =
    claim-IsSound rows sound worker now lease held
Step-IsSound {rows} sound (cancel now task_id context) =
    cancel-IsSound rows sound now task_id context
Step-IsSound {rows} sound (succeed now saved result copy) =
    save_claimed-IsSound rows sound saved (mark_succeeded result now copy)
      (λ r here bound. ground (arith, bound))
Step-IsSound {rows} sound (update now inserted status progress code copy context bound) =
    create-IsSound rows sound now inserted (mark_updated status progress code copy) context bound
Step-IsSound {rows} sound
      (fail now saved error_code delay copy row at_id (inl same_attempts) same_max) =
    save_claimed-IsSound rows sound saved (mark_failed error_code delay now copy)
      (λ r here bound. ground (arith, at_id, here, same_attempts, same_max, bound))
Step-IsSound {rows} sound (fail now saved error_code delay copy row at_id (inr used_up) same_max) =
    save_claimed-IsSound rows sound saved (mark_failed error_code delay now copy)
      (λ r here bound. ground (arith, at_id, here, used_up, same_max, bound))

-- In every table that the calls reach, where a failure is saved only from a copy of the row that no
-- later claim has overtaken or that has used its attempts up, and an update sets a waiting status only
-- on a copy that has an attempt left, the ids are all different, no task has used more attempts than it may, and a task
-- that waits for a worker has one left.
pub Reach-IsSound : {rows : Table} → Reach rows → IsSound rows
Reach-IsSound start = record { unique = tt; bounded = tt }
Reach-IsSound (step before made) = Step-IsSound (Reach-IsSound before) made
