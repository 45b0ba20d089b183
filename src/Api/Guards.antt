-- ===== src/Api/Guards.antt =====
-- What the guarded routes let through (app/api/routes.py).
use office_mult_agent.Base.{
  ℕ, String, true, false, Option, none, some, List, ◌≡◌, ◌⊎◌, inl, inr, arith, ◌==◌, string_eq,
  contains, ok, err, Error, get_elem?, pair_eq, Result-cases, Bool-cases, Option-cases,
}
use office_mult_agent.Base.Dict.{lookup}
use office_mult_agent.Context.{RequestContext, AuditRecord, require, audit_record}
use office_mult_agent.Files.{FileTools, FileStore, get_metadata, delete_file}
use office_mult_agent.Api.{Http, answered, refused}
use office_mult_agent.Api.Tasks.{
  BackgroundTaskResponse, guarded_status, task_response, cancel_background_task,
}
use office_mult_agent.Tasks.Object.{BackgroundTask, request_cancel}
use office_mult_agent.Tasks.Repository.{Repository, write, cancel, request_task_cancel}
use office_mult_agent.Api.Uploads.{delete_route}

-- The answer that shows a task.
abbrev pub shown : Option BackgroundTask → Http BackgroundTaskResponse
shown none = refused 500
shown (some task) = task_response task

module _ (t : FileTools) (file_id : String) (context : RequestContext) (files : FileStore)
    (audit : List AuditRecord) where
  delete_fails :
      (e : Error)
      → files.rows ≡ none
      → (delete_file t file_id context files).0 ≡ err e
      → delete_file t file_id context files ≡ (err e, files)
  unfolding delete_file get_metadata
  delete_fails e alone failed = elim (Option-cases (lookup file_id files.metadata)) [
    | inl missing ↦ ground (arith, alone, failed, missing)
    | inr (m, found) ↦ elim (Bool-cases (m.tenant_id == context.tenant_id)) [
      | inr foreign ↦ ground (arith, failed, found, foreign)
      | inl own ↦ elim (Bool-cases (t.is_inside m.storage_ref)) [
        | inl inside ↦ absurd (ground (arith, failed, found, own, inside))
        | inr outside ↦ ground (arith, failed, found, own, outside)
      ]
    ]
  ]

  -- Deleting a file by its route, from a service without a repository, either refuses and changes nothing at all; or the caller has the scope,
  -- the service deleted the file, the answer is its id, and one record of it is added to the audit.
  pub delete_route-audited :
      files.rows ≡ none
      → ((n : ℕ) × (delete_route t file_id context (files, audit) ≡ (refused n, (files, audit))))
        ⊎ ((contains context.permission_scopes "file:delete" ≡ true)
            × ((delete_file t file_id context files).0 ≡ ok tt)
            × (delete_route t file_id context (files, audit) ≡ (
              answered file_id,
              (
                (delete_file t file_id context files).1,
                audit_record "file.delete" context file_id audit,
              ),
            )))
  unfolding delete_route require
  delete_route-audited alone =
      elim (Bool-cases (contains context.permission_scopes "file:delete")) [
        | inr lacking ↦ inl (403, ground (arith, lacking))
        | inl scope ↦ elim (Result-cases (delete_file t file_id context files).0) [
          | inl (done, deleted) ↦ inr (scope, deleted, ground (arith, scope, deleted))
          | inr (e, failed) ↦
              inl (guarded_status e, ground (arith, scope, failed, delete_fails e alone failed))
        ]
      ]

module _ (now : ℕ) (task_id : String) (context : RequestContext) (s : Repository) where
  -- Cancelling a task by its route changes nothing for a caller without the scope, who gets a 403, and
  -- nothing where the caller's tenant has no such task, which is a 404; else the task is cancelled or
  -- flagged as the service does it, and the answer shows it as it is then.
  pub cancel_background_task-guarded :
      ((contains context.permission_scopes "task:cancel" ≡ false)
        × (cancel_background_task now task_id context s ≡ (refused 403, s)))
      ⊎ ((lookup (context.tenant_id, task_id) s.tasks ≡ none)
          × (cancel_background_task now task_id context s ≡ (refused 404, s)))
      ⊎ ((ref : ℕ) × (lookup (context.tenant_id, task_id) s.tasks ≡ some ref)
          × (contains context.permission_scopes "task:cancel" ≡ true)
          × (cancel_background_task now task_id context s ≡ (
            shown (get_elem? (write ref (request_cancel now) s).heap ref),
            write ref (request_cancel now) s,
          )))
  unfolding cancel_background_task cancel request_task_cancel require
  cancel_background_task-guarded =
      elim (Bool-cases (contains context.permission_scopes "task:cancel")) [
        | inr lacking ↦ inl (lacking, ground (arith, lacking))
        | inl scope ↦ elim (Option-cases (lookup (context.tenant_id, task_id) s.tasks)) [
          | inl missing ↦ inr (inl (missing, ground (arith, scope, missing)))
          | inr (ref, found) ↦ inr (inr (ref, found, scope, ground (arith, scope, found)))
        ]
      ]
