-- ===== src/Orchestration/Supervisor/MemoryFile.antt =====
-- The file of confirmed memories that every run begins with (app/orchestration/supervisor.py).
use office_mult_agent.Base.{
  ℕ, String, some, List, ◌≡◌, refl, sym, ap, ◌∙◌, ◌==◌, string_eq, pair_eq, if◌then◌else◌,
  timeout_error, Result, ok, err, ok-ne-err, [], ◌∷◌, inl, inr, arith, Option-cases,
}
use office_mult_agent.Base.Dict.{lookup, insert, lookup-insert}
use office_mult_agent.Value.{Fields, str}
use office_mult_agent.Context.{RequestContext}
use office_mult_agent.Memories.{ConfirmedMemory, MemoryStore, list_memories, list_for}
use office_mult_agent.Memories.Coherence.{IsSound, list_for_fresh}
use office_mult_agent.Orchestration.Replies.{Printing, RawResult}
use office_mult_agent.Orchestration.Supervisor.{
  AgentGraph, Runtime, after_run, run_message, read_error, content_of, memory_file, write_file,
  sync_confirmed_memory, invoke_message,
}

module _ (p : Printing) (g : AgentGraph) where
  after_run-files :
      (message : String) (s : Runtime p g) (run : Result RawResult × g.State)
      → (after_run p g message s run).1.files ≡ s.files
  after_run-files message s (ok raw, graph) = refl
  after_run-files message s (err timeout_error, graph) = refl
  after_run-files message s (err e, graph) = refl

module _ (p : Printing) (g : AgentGraph)
    (parses : (t : ℕ) → p.formats.fromisoformat (p.formats.isoformat t) ≡ some t) where
  write_file-files :
      (context : RequestContext) (found : Result (List ConfirmedMemory) × MemoryStore)
      (s : Runtime p g) (memories : List ConfirmedMemory)
      → found.0 ≡ ok memories
      → (write_file p g context found s).0 ≡ ok tt
      → (write_file p g context found s).1.files
        ≡ insert (context.tenant_id, context.operator_id) (memory_file p memories) s.files
  write_file-files context (ok list, kept) s memories same written =
      let is : list ≡ memories = cc in
      elim (Option-cases (g.put context s.graph)) [
        | inl stored ↦ ground (arith, is, stored)
        | inr (e, refused) ↦ absurd (ground (arith, written, refused))
      ]
  write_file-files context (err e, kept) s memories same written = absurd (ok-ne-err (sym same))

  sync_confirmed_memory-files :
      (context : RequestContext) (s : Runtime p g)
      → IsSound p.formats parses ((context.tenant_id, context.operator_id) ∷ []) s.memories
      → (sync_confirmed_memory p g context s).0 ≡ ok tt
      → (sync_confirmed_memory p g context s).1.files
        ≡ insert
            (context.tenant_id, context.operator_id)
            (memory_file p (list_memories context s.memories))
            s.files
  unfolding sync_confirmed_memory
  sync_confirmed_memory-files context s h synced = elim (Option-cases (read_error p g context s)) [
    | inr (e, unread) ↦ absurd (ground (arith, synced, unread))
    | inl read ↦
        let written =
          write_file-files context (list_for p.formats context s.memories) s
            (list_memories context s.memories)
            (list_for_fresh p.formats parses ((context.tenant_id, context.operator_id) ∷ []) context
              s.memories (inl refl) h) in
        rw (read, sync_confirmed_memory) (written (ground (arith, synced, read)))
  ]

  run_message-files :
      (message : String) (task_input : Fields) (context : RequestContext)
      (out : Result (Unit {0}) × Runtime p g)
      → (run_message p g message task_input context out).1.files ≡ out.1.files
  run_message-files message task_input context (err e, s) = refl
  run_message-files message task_input context (ok done, s) =
      after_run-files p g message s
        (g.invoke (str (content_of p g message task_input)) context s.graph)

  -- Where a cached time is read back as it was written, and the operator's memories are honest and their
  -- cached list, if any, is theirs: a run for a message whose synchronisation raises no error leaves in
  -- the file of its operator the confirmed memories that this operator has in the repository at its
  -- start, and every other file as it was.
  pub invoke_message-files :
      (message : String) (task_input : Fields) (context : RequestContext) (s : Runtime p g)
      (key : String × String)
      → IsSound p.formats parses ((context.tenant_id, context.operator_id) ∷ []) s.memories
      → (sync_confirmed_memory p g context s).0 ≡ ok tt
      → lookup key (invoke_message p g message task_input context s).1.files ≡ (
          if (context.tenant_id, context.operator_id) == key
          then some (memory_file p (list_memories context s.memories))
          else lookup key s.files)
  unfolding invoke_message
  invoke_message-files message task_input context s key h synced =
      ap (lookup key) (
        run_message-files message task_input context (sync_confirmed_memory p g context s)
        ∙ sync_confirmed_memory-files context s h synced)
      ∙ lookup-insert (context.tenant_id, context.operator_id) key
          (memory_file p (list_memories context s.memories)) s.files
