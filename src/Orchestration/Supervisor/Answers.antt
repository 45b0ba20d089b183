-- ===== src/Orchestration/Supervisor/Answers.antt =====
-- Every run is answered (app/orchestration/supervisor.py): a run out of time too, and never with an
-- empty message.
use office_mult_agent.Base.{
  String, List, Bool, true, false, ◌≡◌, ◌≢◌, ◌⊎◌, inl, inr, refl, ap, arith, string_eq,
  if◌then◌else◌, Error, timeout_error, Result, ok, err, ok-ne-err, Bool-cases, Option-cases,
  Result-cases, subst, sym,
}
use office_mult_agent.Base.Text.{is_empty}
use office_mult_agent.Value.{Value, Fields, str, obj, arr, nil, get_field}
use office_mult_agent.Context.{RequestContext}
use office_mult_agent.Memories.{ConfirmedMemory, MemoryStore, list_for}
use office_mult_agent.Api.Assistant.{GraphResult}
use office_mult_agent.Orchestration.Intent.{Intent, classify_intent, report_submission}
use office_mult_agent.Orchestration.Replies.{
  Printing, RawResult, Structured, Reply, response, fields, absent, each_text, reply_of_fields,
  or_value, original_message, reply_of, answer_of, adapt, done_message, or_else_text,
}
use office_mult_agent.Orchestration.Supervisor.{
  AgentGraph, Runtime, write_file, read_error, run_message, content_of, after_run, timed_out,
  invoke_message, sync_confirmed_memory,
}

-- What the routes can count on: an error that is no timeout, or an answer with a message, which says
-- that it waits for an approval where the run was interrupted.
abbrev pub IsAnswer : Result GraphResult → Type 0
IsAnswer (err e) = e ≢ timeout_error
IsAnswer (ok r) =
    (is_empty r.message ≡ false) × ((r.interrupted ≡ false) ⊎ (r.status ≡ "awaiting_approval"))

module _ (p : Printing) where
  done_nonempty : (intent : Intent) → is_empty (done_message p intent) ≡ false
  done_nonempty report_submission = refl
  done_nonempty _ = refl

  message_nonempty :
      (message : String) (intent : Intent)
      → is_empty (or_else_text message (done_message p intent)) ≡ false
  message_nonempty message intent = elim (Bool-cases (is_empty message)) [
    | inl empty ↦ rw empty (done_nonempty intent)
    | inr full ↦ rw full full
  ]

  each_text-error : (v : Value) (e : Error) → each_text p v ≡ err e → e ≢ timeout_error
  each_text-error (arr items) e h = cc
  each_text-error (str s) e h = cc
  each_text-error (obj d) e h = cc
  each_text-error _ e h = λ q. ground (arith, h, q)

  answer_of-IsAnswer :
      (raw : RawResult) (intent : Intent) (reply : Result (Reply p))
      → ((e : Error) → reply ≡ err e → e ≢ timeout_error)
      → IsAnswer (answer_of p raw intent reply)
  answer_of-IsAnswer raw intent (err e) h = h e refl
  answer_of-IsAnswer raw intent (ok reply) h =
      (message_nonempty reply.message intent, waits raw.interrupted)
    where
      waits :
          (interrupted : Bool)
          → (interrupted ≡ false)
            ⊎ ((if interrupted then "awaiting_approval" else reply.status) ≡ "awaiting_approval")
      waits true = inr refl
      waits false = inl refl

  reply_of_fields-error :
      (raw : RawResult) (d : Fields) (warnings : Result (List String)) (e : Error)
      → ((e : Error) → warnings ≡ err e → e ≢ timeout_error)
      → reply_of_fields p raw d warnings ≡ err e
      → e ≢ timeout_error
  reply_of_fields-error raw d (err x) e f h = let is : x ≡ e = cc in f e (ap err is)
  reply_of_fields-error raw d (ok warnings) e f h = λ q. ok-ne-err h

  reply_of-error :
      (raw : RawResult) (structured : Structured) (e : Error)
      → reply_of p raw structured ≡ err e
      → e ≢ timeout_error
  reply_of-error raw (response r) e h = λ q. ok-ne-err h
  reply_of-error raw (fields d) e h =
      reply_of_fields-error raw d (each_text p (or_value (get_field "warnings" d) (arr nil))) e
        (each_text-error (or_value (get_field "warnings" d) (arr nil))) h
  reply_of-error raw absent e h = λ q. ok-ne-err h

module _ (p : Printing) (g : AgentGraph) where
  adapt-IsAnswer :
      (raw : RawResult) (fallback_message : String) → IsAnswer (adapt p raw fallback_message)
  unfolding adapt
  adapt-IsAnswer raw fallback_message =
      answer_of-IsAnswer p raw
        (classify_intent p.lower (or_else_text fallback_message (original_message p raw.messages)))
        (reply_of p raw raw.structured) (reply_of-error p raw raw.structured)

  timed_out-IsAnswer : (message : String) → IsAnswer (ok (timed_out p message))
  timed_out-IsAnswer message = (refl, inl refl)

  after_run-IsAnswer :
      (message : String) (s : Runtime p g) (run : Result RawResult × g.State)
      → IsAnswer (after_run p g message s run).0
  after_run-IsAnswer message s (ok raw, graph) = adapt-IsAnswer raw message
  after_run-IsAnswer message s (err timeout_error, graph) = timed_out-IsAnswer message
  after_run-IsAnswer message s (err e, graph) = λ q. cc

  write_file-error :
      (context : RequestContext) (found : Result (List ConfirmedMemory) × MemoryStore)
      (s : Runtime p g) (e : Error)
      → (write_file p g context found s).0 ≡ err e
      → ((write_file p g context found s).1.files ≡ s.files)
        × ((write_file p g context found s).1.graph ≡ s.graph)
  write_file-error context (err x, memories) s e raised = (refl, refl)
  write_file-error context (ok list, memories) s e raised =
      elim (Option-cases (g.put context s.graph)) [
        | inl stored ↦ absurd (ground (arith, raised, stored))
        | inr (x, refused) ↦ (ground (arith, refused), ground (arith, refused))
      ]

  sync_confirmed_memory-error :
      (context : RequestContext) (s : Runtime p g) (e : Error)
      → (sync_confirmed_memory p g context s).0 ≡ err e
      → ((sync_confirmed_memory p g context s).1.files ≡ s.files)
        × ((sync_confirmed_memory p g context s).1.graph ≡ s.graph)
  unfolding sync_confirmed_memory
  sync_confirmed_memory-error context s e raised = elim (Option-cases (read_error p g context s)) [
    | inr (x, unread) ↦ (ground (arith, unread), ground (arith, unread))
    | inl read ↦
        let written = write_file-error context (list_for p.formats context s.memories) s e in
        rw (read, sync_confirmed_memory) (written (ground (arith, raised, read)))
  ]

  -- A run whose synchronisation of the memory file raises an error raises this error, and leaves the
  -- graph and every file as they were. Any other run for a message is answered, whatever the graph
  -- does: with an error that is no timeout, or with a message that is not empty, which is awaiting an
  -- approval where the run was interrupted.
  pub invoke_message-IsAnswer :
      (message : String) (task_input : Fields) (context : RequestContext) (s : Runtime p g)
      → ((e : Error) × ((sync_confirmed_memory p g context s).0 ≡ err e)
          × ((invoke_message p g message task_input context s).0 ≡ err e)
          × ((invoke_message p g message task_input context s).1.graph ≡ s.graph)
          × ((invoke_message p g message task_input context s).1.files ≡ s.files))
        ⊎ (((sync_confirmed_memory p g context s).0 ≡ ok tt)
            × IsAnswer (invoke_message p g message task_input context s).0)
  unfolding invoke_message
  invoke_message-IsAnswer message task_input context s =
      elim (Result-cases (sync_confirmed_memory p g context s).0) [
        | inr (e, raised) ↦
            let (files, graph) = sync_confirmed_memory-error context s e raised in
            inl (
              e,
              raised,
              ground (arith, raised),
              ground (arith, raised, graph),
              ground (arith, raised, files),
            )
        | inl (done, synced) ↦ inr (
          synced,
          subst (λ r. IsAnswer r.0) (sym (passes (sync_confirmed_memory p g context s) synced))
              (after_run-IsAnswer message (sync_confirmed_memory p g context s).1 (
                g.invoke (str (content_of p g message task_input)) context
                  (sync_confirmed_memory p g context s).1.graph)),
        )
      ]
    where
      passes :
          (out : Result (Unit {0}) × Runtime p g)
          → out.0 ≡ ok tt
          → run_message p g message task_input context out
            ≡ after_run p g message out.1
                (g.invoke (str (content_of p g message task_input)) context out.1.graph)
      passes (ok done, after) h = refl
      passes (err e, after) h = absurd (ok-ne-err (sym h))
