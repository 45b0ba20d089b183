-- ===== src/Tests/Samples.antt =====
-- A tenant's user, and one transcription task, as created and as leased to a worker.
use office_mult_agent.Base.{none, some, [], ◌∷◌}
use office_mult_agent.Context.{RequestContext, request_context}
use office_mult_agent.Tasks.Object.{BackgroundTask, running}
use office_mult_agent.Tasks.Repository.{Repository, fresh_task}

abbrev pub ann : RequestContext
ann = request_context "thread" "acme" "ann"

abbrev pub empty : Repository
empty = record { heap = []; tasks = [] }

abbrev pub job : BackgroundTask
job = fresh_task "t1" 100 "meeting_transcription" none 2 ann

abbrev pub one_job : Repository
one_job = record { heap = job ∷ []; tasks = (("acme", "t1"), 0) ∷ [] }

abbrev pub leased_job : BackgroundTask
leased_job = record job {
  status = running;
  attempts = 1;
  progress = 5;
  locked_by = some "w1";
  locked_at = some 200;
}

abbrev pub one_leased : Repository
one_leased = record one_job { heap = leased_job ∷ [] }
