-- ===== src/Tests/Tasks.antt =====
-- The task repository at work (app/services/runtime_state.py): one task, a worker, a cancellation.
use office_mult_agent.Base.{◌+◌, ◌≤◌, none, some, true, ◌≡◌, refl, arith, get_elem?, ok}
use office_mult_agent.Base.Int.{pos}
use office_mult_agent.Tasks.Object.{running, claim_one}
use office_mult_agent.Base.Dict.{insert, lookup}
use office_mult_agent.Tasks.Repository.{Repository, create, update, claim, claim_from, cancel}
use office_mult_agent.Tests.Samples.{ann, empty, job, one_job, leased_job, one_leased}
use office_mult_agent.Tasks.History.{
  Reach, here, next, claimed, updated, cancelled, fits_at, grants, AllValid,
}
use office_mult_agent.Tasks.Invariant.{Reach-AllValid, grants-le-max_attempts}
use office_mult_agent.Tasks.Lease.{held, claim_keeps-Untouchable}

create_first : create "t1" 100 "meeting_transcription" none (pos 2) ann empty ≡ (ok 0, one_job)
unfolding create insert
create_first = refl

claim_first : claim "w1" 200 360 one_job ≡ (ok (some 0), one_leased)
unfolding claim claim_from claim_one
claim_first = refl

claim_again : claim "w2" 300 360 one_leased ≡ (ok none, one_leased)
unfolding claim claim_from claim_one
claim_again = refl

-- The lease has run out, and one attempt is left.
claim_stale : (claim "w2" 360000200 360 one_leased).0 ≡ ok (some 0)
unfolding claim claim_from claim_one
claim_stale = refl

-- What the worker's claim leaves, at 40 percent, and then flagged for its end.
abbrev under_way : Repository
under_way = (update "t1" running (pos 40) ann none (claim "w1" 200 360 one_job).1).1

running_fits : fits_at "t1" running ann (claim "w1" 200 360 one_job).1 ≡ true
unfolding claim claim_from claim_one lookup
running_fits = refl

abbrev run : Reach one_job (cancel 300 "t1" ann under_way).1
run =
    next
      (next (next here (claimed "w1" 200 360))
        (updated "t1" running (pos 40) ann none running_fits))
      (cancelled 300 "t1" ann)

one_job-AllValid : AllValid one_job
one_job-AllValid = ground arith

Reach-AllValid_example : AllValid (cancel 300 "t1" ann under_way).1
Reach-AllValid_example = Reach-AllValid run one_job-AllValid

grants-le-max_attempts_example : 0 + grants run 0 ≤ 2
grants-le-max_attempts_example = grants-le-max_attempts run 0 job one_job-AllValid refl

claim_keeps-Untouchable_example :
    get_elem? (claim "w2" 300 360 one_leased).1.heap 0 ≡ some leased_job
claim_keeps-Untouchable_example =
    claim_keeps-Untouchable "w2" 300 360 one_leased 0 leased_job refl
      (held 200 refl refl (omega arith))
