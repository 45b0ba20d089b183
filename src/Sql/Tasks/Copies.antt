-- ===== src/Sql/Tasks/Copies.antt =====
-- A worker's copy of a task, and what its saving does to the row (app/repositories/runtime.py).
use office_mult_agent.Base.{
  ℕ, ◌+◌, ◌≤◌, ◌<◌, String, Bool, true, false, Option, some, ◌≡◌, refl, arith, ◌==◌, string_eq,
  eq_iff, ok,
}
use office_mult_agent.Base.Int.{ℤ, max_zero}
use office_mult_agent.Context.{RequestContext}
use office_mult_agent.Tasks.Object.{
  BackgroundTask, TaskStatus, running, retry_wait, mark_failed, seconds,
}
use office_mult_agent.Sql.Rows.{
  row_at, Unique, change_where, map_option, keep_if, scalar-select_and, row_at-change, keys-change,
}
use office_mult_agent.Sql.Tasks.{
  BackgroundTaskRecord, Table, to_task, can_claim, claim_record, task_row, save_claimed_row,
  request_row_cancel, write_claimed, cancel_record, has_id,
}

abbrev pub id_of : BackgroundTaskRecord → String
id_of r = r.id

module _ (rows : Table) (unique : Unique id_of rows) where
  pub task_row-at :
      (task_id tenant_id : String)
      → task_row task_id tenant_id rows
        ≡ ok (keep_if (λ r. r.tenant_id == tenant_id) (row_at id_of task_id rows))
  task_row-at task_id tenant_id =
      scalar-select_and id_of task_id (λ r. r.tenant_id == tenant_id) rows unique

  module _ (row : BackgroundTaskRecord) (here : row_at id_of row.id rows ≡ some row) where
    save_claimed-result :
        (now : ℕ) (task : BackgroundTask)
        → task.task_id ≡ row.id
        → task.tenant_id ≡ row.tenant_id
        → save_claimed_row now task rows
          ≡ (ok task, change_where (has_id row.id) (write_claimed now task) rows)
    unfolding save_claimed_row
    save_claimed-result now task same_id same_tenant =
        ground (
          arith,
          task_row-at task.task_id task.tenant_id,
          here,
          eq_iff row.tenant_id task.tenant_id,
        )

    cancel-result :
        (now : ℕ) (context : RequestContext)
        → context.tenant_id ≡ row.tenant_id
        → (request_row_cancel now row.id context rows).1
          ≡ change_where (has_id row.id) (cancel_record now) rows
    unfolding request_row_cancel
    cancel-result now context same_tenant =
        ground (
          arith,
          task_row-at row.id context.tenant_id,
          here,
          eq_iff row.tenant_id context.tenant_id,
        )

    row-save :
        (now : ℕ) (task : BackgroundTask)
        → task.task_id ≡ row.id
        → task.tenant_id ≡ row.tenant_id
        → row_at id_of row.id (save_claimed_row now task rows).1 ≡ some (write_claimed now task row)
    row-save now task same_id same_tenant =
        let changed = row_at-change id_of row.id (write_claimed now task) (λ r. refl) row.id rows in
        ground (
          arith,
          save_claimed-result now task same_id same_tenant,
          changed,
          here,
          eq_iff row.id row.id,
        )

    row-cancel :
        (now : ℕ) (context : RequestContext)
        → context.tenant_id ≡ row.tenant_id
        → row_at id_of row.id (request_row_cancel now row.id context rows).1
          ≡ some (cancel_record now row)
    row-cancel now context same_tenant =
        let changed =
          row_at-change id_of row.id (cancel_record now) (λ r. ground arith) row.id rows in
        ground (arith, cancel-result now context same_tenant, changed, here, eq_iff row.id row.id)

    Unique-cancel :
        (now : ℕ) (context : RequestContext)
        → context.tenant_id ≡ row.tenant_id
        → Unique id_of (request_row_cancel now row.id context rows).1
    Unique-cancel now context same_tenant =
        rw
          (
            cancel-result now context same_tenant,
            keys-change id_of (has_id row.id) (cancel_record now) (λ r. ground arith) rows,
          )
          unique

-- The row with an id, after the failure of a handler is saved from the copy that it was given.
abbrev pub failed_row :
    String → ℤ → ℕ → BackgroundTask → String → Table → Option BackgroundTaskRecord
failed_row error_code delay now copy task_id rows =
    row_at id_of task_id (save_claimed_row now (mark_failed error_code delay now copy) rows).1

abbrev pub standing : BackgroundTaskRecord → TaskStatus × Bool
standing s = (s.status, s.cancel_requested)

-- Whether the query may select the row, whether it is handed out then, and its attempts after that.
abbrev pub next_claim : String → ℕ → ℕ → BackgroundTaskRecord → Bool × Bool × ℕ
next_claim worker later lease s = (
  can_claim later lease s,
  (claim_record worker later s).0,
  (claim_record worker later s).1.attempts,
)

module _ (rows : Table) (unique : Unique id_of rows) (row : BackgroundTaskRecord)
    (here : row_at id_of row.id rows ≡ some row) (is_running : row.status ≡ running)
    (error_code : String) (delay : ℤ) (now : ℕ) where
  -- A cancellation that a tenant asks for while a handler runs does not outlast the handler's failure:
  -- if the task was not cancelled when it was claimed and has attempts left, its row then waits for a
  -- retry, and says that no cancellation was asked for.
  pub cancel_lost :
      (context : RequestContext) (cancelled_at : ℕ)
      → context.tenant_id ≡ row.tenant_id
      → row.cancel_requested ≡ false
      → row.attempts < row.max_attempts
      → map_option standing (
          failed_row error_code delay now
            (to_task row)
            row.id
            (request_row_cancel cancelled_at row.id context rows).1)
        ≡ some (retry_wait, false)
  unfolding mark_failed
  cancel_lost context cancelled_at same_tenant not_cancelled attempts_left =
      let after : Table = (request_row_cancel cancelled_at row.id context rows).1 in
      let flagged : BackgroundTaskRecord = record row {
        cancel_requested = true;
        version = row.version + 1;
      } in
      let there : row_at id_of row.id after ≡ some flagged =
        ground
          (arith, row-cancel rows unique row here cancelled_at context same_tenant, is_running) in
      let saved =
        row-save after (Unique-cancel rows unique row here cancelled_at context same_tenant) flagged
          there now (mark_failed error_code delay now (to_task row)) (ground arith)
          (ground arith) in
      ground (arith, saved, not_cancelled, attempts_left)

  -- If a worker that lost its lease saves the failure of a copy that has attempts left and is not
  -- cancelled, while the row is running its last attempt, then the row may be claimed again once the
  -- retry is due, and is handed out for one attempt more than its maximum.
  pub attempts_exceeded :
      (copy : BackgroundTask) (worker : String) (later lease : ℕ)
      → copy.task_id ≡ row.id
      → copy.tenant_id ≡ row.tenant_id
      → copy.cancel_requested ≡ false
      → copy.attempts < copy.max_attempts
      → row.attempts ≡ row.max_attempts
      → now + seconds (max_zero delay) ≤ later
      → map_option
          (next_claim worker later lease)
          (failed_row error_code delay now copy row.id rows)
        ≡ some (true, true, row.max_attempts + 1)
  unfolding mark_failed can_claim claim_record
  attempts_exceeded copy worker later lease same_id same_tenant live retries used due =
      let saved =
        row-save rows unique row here now (mark_failed error_code delay now copy) (ground arith)
          (ground arith) in
      ground (arith, saved, live, retries, used, due)
