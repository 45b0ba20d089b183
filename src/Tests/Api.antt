-- ===== src/Tests/Api.antt =====
-- The guarded routes (app/api/routes.py).
use office_mult_agent.Base.{
  ℕ, true, false, none, some, ◌≡◌, ◌⊎◌, refl, contains, All, get_elem?, pair_eq, string_eq,
}
use office_mult_agent.Base.Dict.{lookup, insert}
use office_mult_agent.Base.Int.{pos}
use office_mult_agent.Tasks.Object.{running, claim_one, request_cancel}
use office_mult_agent.Tasks.Repository.{Repository, create, update, claim, claim_from, write}
use office_mult_agent.Tasks.History.{here, next, created, updated, claimed, fits_at}
use office_mult_agent.Api.{answered, refused}
use office_mult_agent.Api.Tasks.{response_of, task_response, cancel_background_task}
use office_mult_agent.Api.Responses.{Reach-task_response}
use office_mult_agent.Api.Guards.{shown, cancel_background_task-guarded}
use office_mult_agent.Tests.Samples.{ann, empty, one_job}

abbrev leased : Repository
leased = (claim "w1" 200 360 (create "t1" 100 "meeting_transcription" none (pos 3) ann empty).1).1

running_again : fits_at "t1" running ann leased ≡ true
unfolding claim claim_from claim_one create lookup insert
running_again = refl

-- The worker reports a progress of 300.
Reach-task_response_example :
    All
      (λ task. task_response task ≡ answered (response_of task))
      (update "t1" running (pos 300) ann none leased).1.heap
Reach-task_response_example = Reach-task_response refl (
    next
      (next (next here (created "t1" 100 "meeting_transcription" none (pos 3) ann))
        (claimed "w1" 200 360))
      (updated "t1" running (pos 300) ann none running_again))

cancel_background_task-guarded_example :
    ((contains ann.permission_scopes "task:cancel" ≡ false)
      × (cancel_background_task 300 "t1" ann one_job ≡ (refused 403, one_job)))
    ⊎ ((lookup (ann.tenant_id, "t1") one_job.tasks ≡ none)
        × (cancel_background_task 300 "t1" ann one_job ≡ (refused 404, one_job)))
    ⊎ ((ref : ℕ) × (lookup (ann.tenant_id, "t1") one_job.tasks ≡ some ref)
        × (contains ann.permission_scopes "task:cancel" ≡ true)
        × (cancel_background_task 300 "t1" ann one_job ≡ (
          shown (get_elem? (write ref (request_cancel 300) one_job).heap ref),
          write ref (request_cancel 300) one_job,
        )))
cancel_background_task-guarded_example = cancel_background_task-guarded 300 "t1" ann one_job
