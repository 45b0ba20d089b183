-- ===== src/Worker/Polling/Rounds.antt =====
-- The polling loop of MeetingTranscriptionHandler (app/services/task_worker.py), round by round.
use office_mult_agent.Base.{
  ℕ, zero, suc, ◌+◌, String, true, false, ◌≡◌, refl, ◌∙◌, arith, ◌==◌, string_eq, pair_eq, Result,
  ok, err, runtime_error, task_cancelled, timeout_error,
}
use office_mult_agent.Value.{Fields}
use office_mult_agent.Context.{RequestContext}
use office_mult_agent.Tasks.Repository.{Repository}
use office_mult_agent.Worker.Polling.{Services, text_of, check_cancel, collect_result, poll}

module _ (e : Services) (asr_task_id task_id : String) (context : RequestContext) where
  -- The state text of the n-th answer.
  abbrev pub state_of : Fields → String
  state_of = text_of e "status" "running"

  -- `k` rounds from the n-th on that find no cancellation and an answer that ends nothing.
  pub data Waiting : ℕ → ℕ → Repository → Repository → Type 0 where
    stop : {n : ℕ} {s : Repository} → Waiting zero n s s
    round :
        {k n : ℕ} {s t u : Repository} (status : Fields)
        → check_cancel e n task_id context s ≡ (ok tt, t)
        → e.get_status asr_task_id n ≡ ok status
        → (state_of status == "completed") ≡ false
        → (state_of status == "failed") ≡ false
        → Waiting k (n + 1) t u
        → Waiting (suc k) n s u

  one_round :
      (polls n : ℕ) (s t : Repository) (status : Fields)
      → check_cancel e n task_id context s ≡ (ok tt, t)
      → e.get_status asr_task_id n ≡ ok status
      → (state_of status == "completed") ≡ false
      → (state_of status == "failed") ≡ false
      → poll e (suc polls) n asr_task_id task_id context s
        ≡ poll e polls (n + 1) asr_task_id task_id context t
  unfolding poll
  one_round polls n s t status c a nc nf = ground arith

  skip_rounds :
      (polls : ℕ) {k n : ℕ} {s u : Repository}
      → Waiting k n s u
      → poll e (k + polls) n asr_task_id task_id context s
        ≡ poll e polls (n + k) asr_task_id task_id context u
  skip_rounds polls {n = n} {s = s} stop =
      let start : n + 0 ≡ n = omega arith in
      let all : 0 + polls ≡ polls = omega arith in rw (start, all)
  skip_rounds polls {k = suc k} {n = n} {s = s} {u = u} (round {t = t} status c a nc nf w) =
      let left : suc k + polls ≡ suc (k + polls) = omega arith in
      let right : n + suc k ≡ n + 1 + k = omega arith in
      rw (left, right) (one_round (k + polls) n s t status c a nc nf ∙ skip_rounds polls w)

  out_of_time :
      (n : ℕ) (u : Repository)
      → poll e zero n asr_task_id task_id context u ≡ (err timeout_error, u)
  unfolding poll
  out_of_time n u = refl

  -- A handler that is still waiting when its time is up ends in TimeoutError, after exactly the
  -- rounds that its time allows.
  pub poll_times_out :
      {k n : ℕ} {s u : Repository}
      → Waiting k n s u
      → poll e k n asr_task_id task_id context s ≡ (err timeout_error, u)
  poll_times_out {k = k} {n = n} {u = u} w =
      let all : k + 0 ≡ k = omega arith in (rw all at (skip_rounds 0 w)) ∙ out_of_time (n + k) u

  poll_stops :
      (polls n : ℕ) (s t : Repository)
      → check_cancel e n task_id context s ≡ (err task_cancelled, t)
      → poll e (suc polls) n asr_task_id task_id context s ≡ (err task_cancelled, t)
  unfolding poll
  poll_stops polls n s t c = ground arith

  poll_completes :
      (polls n : ℕ) (s t : Repository) (status : Fields)
      → check_cancel e n task_id context s ≡ (ok tt, t)
      → e.get_status asr_task_id n ≡ ok status
      → (state_of status == "completed") ≡ true
      → poll e (suc polls) n asr_task_id task_id context s ≡ collect_result e asr_task_id t
  unfolding poll
  poll_completes polls n s t status c a done = ground arith

  poll_fails :
      (polls n : ℕ) (s t : Repository) (status : Fields)
      → check_cancel e n task_id context s ≡ (ok tt, t)
      → e.get_status asr_task_id n ≡ ok status
      → (state_of status == "completed") ≡ false
      → (state_of status == "failed") ≡ true
      → poll e (suc polls) n asr_task_id task_id context s ≡ (err (runtime_error "ASR_FAILED"), t)
  unfolding poll
  poll_fails polls n s t status c a nc bad = ground arith

  -- What the service and the other callers do at the round that ends the loop, with the loop's
  -- answer.
  pub data Ending (n : ℕ) (s : Repository) : Result Fields × Repository → Type 0 where
    cancelled :
        (t : Repository)
        → check_cancel e n task_id context s ≡ (err task_cancelled, t)
        → Ending n s (err task_cancelled, t)
    completed :
        (t : Repository) (status : Fields)
        → check_cancel e n task_id context s ≡ (ok tt, t)
        → e.get_status asr_task_id n ≡ ok status
        → (state_of status == "completed") ≡ true
        → Ending n s (collect_result e asr_task_id t)
    failed :
        (t : Repository) (status : Fields)
        → check_cancel e n task_id context s ≡ (ok tt, t)
        → e.get_status asr_task_id n ≡ ok status
        → (state_of status == "completed") ≡ false
        → (state_of status == "failed") ≡ true
        → Ending n s (err (runtime_error "ASR_FAILED"), t)

  poll-Ending :
      (polls n : ℕ) (s : Repository) {r : Result Fields × Repository}
      → Ending n s r
      → poll e (suc polls) n asr_task_id task_id context s ≡ r
  poll-Ending polls n s (cancelled t c) = poll_stops polls n s t c
  poll-Ending polls n s (completed t status c a done) = poll_completes polls n s t status c a done
  poll-Ending polls n s (failed t status c a nc bad) = poll_fails polls n s t status c a nc bad

  -- After any number of waiting rounds, the first round that finds a cancellation, a completed or a
  -- failed transcription ends the loop: with TaskCancelled and no further call, with the segments,
  -- or with ASR_FAILED; time left over does not matter.
  pub poll_ends :
      (polls k n : ℕ) (s u : Repository) {r : Result Fields × Repository}
      → Waiting k n s u
      → Ending (n + k) u r
      → poll e (k + suc polls) n asr_task_id task_id context s ≡ r
  poll_ends polls k n s u w end = skip_rounds (suc polls) w ∙ poll-Ending polls (n + k) u end
