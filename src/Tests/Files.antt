-- ===== src/Tests/Files.antt =====
-- Uploads, and who reaches them (app/services/files.py).
use office_mult_agent.Base.{
  true, none, some, inl, [], ◌∷◌, ◌≡◌, refl, ok, err, key_error, string_eq,
}
use office_mult_agent.Base.Dict.{lookup}
use office_mult_agent.Value.{end}
use office_mult_agent.Context.{RequestContext, request_context}
use office_mult_agent.Uploads.{FileMetadata}
use office_mult_agent.Sql.Files.{new_file, get_file_row}
use office_mult_agent.Files.{
  FileTools, FileStore, get_rows, get_metadata, read_again, validate_row_count,
}
use office_mult_agent.Files.Isolation.{IsOwn, file_calls-IsOwn}

abbrev pub tools : FileTools
tools = record {
  base_name = λ s. s;
  lower = λ s. s;
  sha256_of = λ content. "hash";
  storage_path = λ tenant_id name. name;
  is_inside = λ path. true;
  parse = λ suffix content. ok (end ∷ []);
  missing_file = λ path. key_error path;
  normal_path = λ path. path;
  max_bytes = 100;
  max_rows = 10;
}

abbrev no_files : FileStore
no_files = record { files = []; metadata = []; disk = []; rows = none }

abbrev notes : FileMetadata
notes = record {
  file_id = "f1";
  filename = "a.txt";
  content_type = none;
  byte_size = 1;
  sha256 = "hash";
  row_count = 1;
  file_type = "txt";
  storage_ref = "f1.txt";
  tenant_id = "acme";
  created_by = "ann";
  status = "stored";
}

abbrev pub one_file : FileStore
one_file = record {
  files = ("f1", end ∷ []) ∷ [];
  metadata = ("f1", notes) ∷ [];
  disk = ("f1.txt", 65 ∷ []) ∷ [];
  rows = none;
}

abbrev bob : RequestContext
bob = request_context "thread" "globex" "bob"

abbrev ann : RequestContext
ann = request_context "thread" "acme" "ann"

-- The service after a restart: only the disk and the repository know the file.
abbrev restarted : FileStore
restarted = record {
  files = [];
  metadata = [];
  disk = ("f1.txt", 65 ∷ []) ∷ [];
  rows = some (new_file notes ann ∷ []);
}

ann_reads : (get_rows tools "f1" ann restarted).0 ≡ ok (end ∷ [])
unfolding get_rows get_metadata get_file_row read_again validate_row_count lookup
ann_reads = refl

bob_gets_none : (get_rows tools "f1" bob restarted).0 ≡ err (key_error "f1")
unfolding get_rows get_metadata get_file_row read_again validate_row_count lookup
bob_gets_none = refl

foreign_in_service : get_rows tools "f1" bob one_file ≡ (err (key_error "f1"), one_file)
unfolding get_rows get_metadata lookup
foreign_in_service = refl

file_calls-IsOwn_example : IsOwn tools "f1" ann restarted
file_calls-IsOwn_example = file_calls-IsOwn tools "f1" ann restarted (inl (end ∷ [], ann_reads))
