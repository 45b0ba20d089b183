-- ===== src/Tests/Sql.antt =====
-- The SQL repositories (app/repositories) at small tables.
use office_mult_agent.Base.{
  String, true, false, none, some, List, [], ◌∷◌, map, ◌≡◌, refl, arith, eq_iff, string_eq, In, ◌↔◌,
  ok,
}
use office_mult_agent.Base.Int.{pos}
use office_mult_agent.Value.{Fields, field, str, end}
use office_mult_agent.Context.{RequestContext, request_context}
use office_mult_agent.Idempotency.{recall}
use office_mult_agent.Idempotency.FirstWins.{Attempt}
use office_mult_agent.Approvals.{get_pending}
use office_mult_agent.Approvals.Decisions.{Call, request, decide_on}
use office_mult_agent.Memories.{ConfirmedMemory, list_memories}
use office_mult_agent.Tasks.Object.{running, queued, retry_wait}
use office_mult_agent.Sql.Rows.{insert_row, change_where, Unique, map_option}
use office_mult_agent.Sql.Idempotency.{save_result, get_result}
use office_mult_agent.Sql.Idempotency.Refines.{saves, remembers, saves_refine_new}
use office_mult_agent.Sql.Approvals.{get_pending_row}
use office_mult_agent.Sql.Approvals.Refines.{row_calls, dict_calls, calls_refine_new}
use office_mult_agent.Sql.Memories.{list_memory_rows, save_memory_row}
use office_mult_agent.Sql.Memories.Refines.{
  Save, NewIds, save_rows, save_entries, text_of, list_rows-list_memories,
}
use office_mult_agent.Sql.Tasks.{
  BackgroundTaskRecord, Table, can_claim, to_task, claim_next_row, request_row_cancel,
  save_task_row,
}
use office_mult_agent.Sql.Tasks.Claims.{ClaimOutcome, claim_next_row-Claimed}
use office_mult_agent.Sql.Tasks.Draining.{claims, served, claims_drain}
use office_mult_agent.Sql.Tasks.Copies.{
  standing, next_claim, failed_row, id_of, cancel_lost, attempts_exceeded,
}
use office_mult_agent.Sql.Tasks.Bounds.{start, step, create, claim, IsSound, Reach-IsSound}
use office_mult_agent.Tests.Samples.{ann, job}
use office_mult_agent.Tests.Memories.{no_memories}

abbrev bob : RequestContext
bob = request_context "thread" "other" "bob"

abbrev first_result : Fields
first_result = field "id" (str "1") end

abbrev second_result : Fields
second_result = field "id" (str "2") end

abbrev attempts : List (String × Attempt)
attempts =
    ("r1", record { operation = "submit"; key = "k"; result = first_result; context = ann })
    ∷ ("r2", record { operation = "submit"; key = "k"; result = second_result; context = ann })
    ∷ ("r3", record { operation = "submit"; key = "k"; result = second_result; context = bob })
    ∷ []

-- The second save of a key answers the first result, and is not stored.
second_save :
    save_result "r2" "submit" "k" second_result ann
      (save_result "r1" "submit" "k" first_result ann []).1
    ≡ (ok first_result, (save_result "r1" "submit" "k" first_result ann []).1)
unfolding save_result insert_row get_result
second_save = refl

saves_refine_new_example :
    ((saves attempts []).0 ≡ (remembers attempts []).0)
    × (get_result "submit" "k" ann (saves attempts []).1
        ≡ ok (recall "submit" "k" ann (remembers attempts []).1))
saves_refine_new_example = saves_refine_new attempts "submit" "k" ann

abbrev calls : List (String × Call)
calls =
    ("a1", request "thread" "t" ann)
    ∷ ("a2", request "thread" "t" ann)
    ∷ ("a3", decide_on "thread" "t" true none ann)
    ∷ ("a4", decide_on "thread" "t" true none ann)
    ∷ ("a5", request "thread" "t" ann)
    ∷ []

calls_refine_new_example :
    ((row_calls calls []).0 ≡ (dict_calls calls []).0)
    × (get_pending_row "thread" "t" ann (row_calls calls []).1
        ≡ ok (get_pending "thread" "t" ann (dict_calls calls []).1))
calls_refine_new_example = calls_refine_new calls "thread" "t" ann

abbrev memory : String → String → ConfirmedMemory
memory memory_id value = record {
  memory_id = memory_id;
  tenant_id = "acme";
  operator_id = "ann";
  key = "tone";
  value = value;
  confirmed_at = 3;
}

abbrev memory_saves : List Save
memory_saves = (memory "m1" "short", 5, ann) ∷ (memory "m2" "long", 6, ann) ∷ []

-- The row keeps the id of the first save.
memory_rows :
    list_memory_rows ann
      (save_memory_row
        (memory "m2" "long")
        6
        ann
        (save_memory_row (memory "m1" "short") 5 ann []).1).1
    ≡ record (memory "m1" "long") { confirmed_at = 6 } ∷ []
unfolding list_memory_rows save_memory_row change_where
memory_rows = refl

memory_ids : NewIds memory_saves []
unfolding save_memory_row
memory_ids = (refl, (refl, tt))

list_rows-list_memories_example :
    In ("tone", "long") (map text_of (list_memory_rows ann (save_rows memory_saves [])))
    ↔ In ("tone", "long") (map text_of (list_memories ann (save_entries memory_saves no_memories)))
list_rows-list_memories_example =
    list_rows-list_memories memory_saves ann no_memories refl memory_ids ("tone", "long")

-- A task that runs its last attempt.
abbrev task_row : BackgroundTaskRecord
task_row = record {
  id = "t1";
  tenant_id = "acme";
  created_by = "ann";
  created_at = 100;
  version = 2;
  kind = "meeting_transcription";
  status = running;
  progress = 5;
  error_code = none;
  payload = end;
  result = none;
  attempts = 1;
  max_attempts = 2;
  available_at = 100;
  locked_at = some 200;
  locked_by = some "w1";
  cancel_requested = false;
  finished_at = none;
}

abbrev waiting_row : BackgroundTaskRecord
waiting_row = record task_row {
  id = "t2";
  status = queued;
  attempts = 0;
  locked_at = none;
  locked_by = none;
}

abbrev table : Table
table = task_row ∷ waiting_row ∷ []

table_ids : Unique id_of table
table_ids = ground (arith, eq_iff "t1" "t2")

claim_next_row-Claimed_example : ClaimOutcome "w2" 300 360 [] table
claim_next_row-Claimed_example = claim_next_row-Claimed "w2" 300 360 [] table table_ids

claims_drain_example : claims "w2" 300 360 [] 1 table ≡ map (served "w2" 300 360 []) table
unfolding can_claim
claims_drain_example = claims_drain "w2" 300 360 (omega arith) [] 1 table table_ids (ground arith)

cancel_lost_example :
    map_option standing (
      failed_row "CRASH"
        (pos 5)
        400
        (to_task task_row)
        "t1"
        (request_row_cancel 300 "t1" ann table).1)
    ≡ some (retry_wait, false)
cancel_lost_example =
    cancel_lost table table_ids task_row refl refl "CRASH" (pos 5) 400 ann 300 refl refl
      (omega arith)

-- Another worker has the last attempt, while a first one saves the copy that it was given before.
abbrev last_row : BackgroundTaskRecord
last_row = record task_row { attempts = 2; locked_by = some "w2" }

last_ids : Unique id_of (last_row ∷ [])
last_ids = ground arith

attempts_exceeded_example :
    map_option
      (next_claim "w3" 9000000 360)
      (failed_row "CRASH" (pos 5) 400 (to_task task_row) "t1" (last_row ∷ []))
    ≡ some (true, true, 3)
attempts_exceeded_example =
    attempts_exceeded (last_row ∷ []) last_ids last_row refl refl "CRASH" (pos 5) 400
      (to_task task_row) "w3" 9000000 360 refl refl refl (omega arith) refl (omega arith)

abbrev created : Table
created = (save_task_row 100 100 job ann []).1

abbrev claimed : Table
claimed = (claim_next_row "w1" 200 360 [] created).1

Reach-IsSound_example : IsSound claimed
Reach-IsSound_example = Reach-IsSound (
    step (step start (create "t1" 100 100 "meeting_transcription" none 2 ann (omega arith)))
      (claim "w1" 200 360 []))
