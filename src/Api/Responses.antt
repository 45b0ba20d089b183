-- ===== src/Api/Responses.antt =====
-- BackgroundTaskResponse (app/schemas/workflows.py) accepts every task of the service.
use office_mult_agent.Base.{List, [], ◌∷◌, ◌≡◌, arith, All}
use office_mult_agent.Tasks.Object.{BackgroundTask}
use office_mult_agent.Tasks.Repository.{Repository}
use office_mult_agent.Tasks.Lifecycle.{IsValid}
use office_mult_agent.Tasks.History.{Reach}
use office_mult_agent.Tasks.Invariant.{Reach-AllValid}
use office_mult_agent.Api.{answered}
use office_mult_agent.Api.Tasks.{response_of, task_response}

IsValid-response :
    (task : BackgroundTask) → IsValid task → task_response task ≡ answered (response_of task)
unfolding task_response
IsValid-response task valid = ground (arith, valid.percent, valid.positive)

All-response :
    (tasks : List BackgroundTask)
    → All IsValid tasks
    → All (λ task. task_response task ≡ answered (response_of task)) tasks
All-response [] valid = tt
All-response (task ∷ tasks) valid = (IsValid-response task valid.0, All-response tasks valid.1)

-- Whatever callers do from the start of the service on, as long as `update` is called with a status that
-- fits the task, and with whatever progress it is called, every task has an answer that the response's
-- schema accepts: its progress is at most 100 and its max_attempts at least 1.
pub Reach-task_response :
    {s t : Repository}
    → s.heap ≡ []
    → Reach s t
    → All (λ task. task_response task ≡ answered (response_of task)) t.heap
Reach-task_response {t = t} empty run = All-response t.heap (Reach-AllValid run (rw empty tt))
