-- ===== src/Api/Uploads.antt =====
-- The routes of files and of the knowledge base (app/api/routes.py).
use office_mult_agent.Base.{
  ℕ, String, Option, List, Error, key_error, unsafe_file_error, unicode_decode_error,
  sso_token_unavailable, knowledge_mcp_error, is_value_error, if◌then◌else◌, ok, Exec, pure, ◌>>◌,
}
use office_mult_agent.Context.{RequestContext, AuditRecord, require, audit_record}
use office_mult_agent.Uploads.{FileMetadata}
use office_mult_agent.Files.{
  Bytes, FileTools, FileStore, store_and_parse, get_metadata, delete_file,
}
use office_mult_agent.Knowledge.{Outside as KnowledgeOutside, Cache, KnowledgeAnswer, answer_query}
use office_mult_agent.Api.{Http, answer_with}
use office_mult_agent.Api.Tasks.{lookup_status, guarded_status}

-- `except (UnicodeDecodeError, UnsafeFileError)`
abbrev pub upload_status : Error → ℕ
upload_status (unicode_decode_error m) = 422
upload_status (unsafe_file_error m) = 422
upload_status _ = 500

-- The except clauses of answer_knowledge, in their order.
abbrev pub knowledge_status : Error → ℕ
knowledge_status (sso_token_unavailable m) = 401
knowledge_status (knowledge_mcp_error m) = 503
knowledge_status (key_error m) = 503
knowledge_status e = if is_value_error e then 503 else 500

unfoldable pub answer_knowledge :
    KnowledgeOutside → String → RequestContext → Cache → Http KnowledgeAnswer × Cache
answer_knowledge o query context cache =
    answer_with knowledge_status (answer_query o query context cache)

-- The file service and the audit trail.
abbrev pub Archive : Type 0
Archive = FileStore × List AuditRecord

abbrev pub on_files : {A : Type 0} → Exec FileStore A → Exec Archive A
on_files m (files, audit) = let (r, after) = m files in (r, (after, audit))

abbrev pub log_audit : String → RequestContext → String → Exec Archive (Unit {0})
log_audit action context target_id (files, audit) =
    (ok tt, (files, audit_record action context target_id audit))

module _ (t : FileTools) where
  unfoldable pub upload_file :
      String → String → Bytes → Option String → RequestContext → FileStore → Http String × FileStore
  upload_file uuid filename content content_type context s =
      answer_with upload_status (store_and_parse t uuid filename content content_type context s)

  unfoldable pub file_metadata : String → RequestContext → FileStore → Http FileMetadata × FileStore
  file_metadata file_id context s = answer_with lookup_status (get_metadata t file_id context s)

  unfoldable pub delete_route : String → RequestContext → Archive → Http String × Archive
  delete_route file_id context s = answer_with guarded_status (
      (require context "file:delete"
          >> on_files (delete_file t file_id context)
          >> log_audit "file.delete" context file_id
          >> pure file_id)
        s)
