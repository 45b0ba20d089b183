-- ===== src/Tests/Worker.antt =====
-- The worker and the polling loop at work (app/services/task_worker.py).
use office_mult_agent.Base.{ℕ, some, [], ◌∷◌, ◌≡◌, refl, ok, err, runtime_error, if◌then◌else◌, ltb}
use office_mult_agent.Base.Dict.{lookup}
use office_mult_agent.Base.Int.{pos}
use office_mult_agent.Value.{str, arr, nil, Fields, end, field}
use office_mult_agent.Tests.Samples.{ann, one_job, leased_job, one_leased}
use office_mult_agent.Tasks.Object.{retry_wait}
use office_mult_agent.Tasks.Repository.{claim, claim_from, get}
use office_mult_agent.Tasks.Object.{claim_one}
use office_mult_agent.Worker.{AsyncTaskWorker, TaskHandler, run_once}
use office_mult_agent.Worker.Runs.{Ends, run_once-final_status}
use office_mult_agent.Worker.Polling.{Services, check_cancel, collect_result}
use office_mult_agent.Worker.Polling.Rounds.{Waiting, stop, round}

abbrev flaky : TaskHandler
flaky ref context s = (err (runtime_error "ASR_FAILED"), s)

abbrev worker : AsyncTaskWorker
worker = record {
  worker_id = "w1";
  handlers = ("meeting_transcription", flaky) ∷ [];
  lease_timeout_seconds = 360;
  retry_delay_seconds = pos 10;
}

claimed : claim "w1" 200 360 one_job ≡ (ok (some 0), one_leased)
unfolding claim claim_from claim_one
claimed = refl

run_once-final_status_example : Ends 0 retry_wait (run_once worker 200 400 one_job)
unfolding lookup
run_once-final_status_example =
    run_once-final_status worker 200 400 0 one_job one_leased leased_job claimed refl flaky
      one_leased leased_job (err (runtime_error "ASR_FAILED")) refl refl refl refl refl

-- A service that is done at the third poll, and nobody else at work.
abbrev service : Services
service = record {
  repr = λ v. "?";
  strip = λ s. s;
  list_of = λ v. ok nil;
  get_recording = λ m. ok (field "recording_ref" (str "rec") end);
  submit_transcription = λ r. ok (field "task_id" (str "asr") end);
  get_status = λ a n. ok (if ltb n 3 then end else field "status" (str "completed") end);
  get_result = λ a. ok end;
  between = λ n s. s;
}

abbrev transcript : Fields
transcript = field "asr_task_id" (str "asr") (field "segments" (arr nil) end)

looks_quiet : (n : ℕ) → check_cancel service n "t1" ann one_leased ≡ (ok tt, one_leased)
unfolding check_cancel get lookup
looks_quiet n = refl

two_rounds : Waiting service "asr" "t1" ann 2 1 one_leased one_leased
two_rounds =
    round end (looks_quiet 1) refl refl refl (round end (looks_quiet 2) refl refl refl stop)

collected : collect_result service "asr" one_leased ≡ (ok transcript, one_leased)
unfolding collect_result
collected = refl
