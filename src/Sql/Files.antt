-- ===== src/Sql/Files.antt =====
-- SqlAlchemyFileRepository and SqlAlchemyArtifactRepository (app/repositories/files.py and
-- artifacts.py) over the tables files and artifacts. `str(Path(...))` is a parameter.
pub mod Isolation
use office_mult_agent.Base.{
  ℕ, String, Bool, not, ◌&&◌, Option, none, some, List, [], ◌∷◌, ◌++◌, ◌==◌, string_eq, filter,
  Result, ok, err, Exec,
}
use office_mult_agent.Context.{RequestContext}
use office_mult_agent.Uploads.{FileMetadata}
use office_mult_agent.Sql.Rows.{scalar_one_or_none, insert_row}

pub record FileRecord : Type 0 where
  pub id : String
  pub tenant_id : String
  pub created_by : String
  pub filename : String
  pub content_type : Option String
  pub byte_size : ℕ
  pub sha256 : String
  pub row_count : ℕ
  pub file_type : String
  pub object_ref : Option String
  pub status : String

abbrev pub id_of : FileRecord → String
id_of r = r.id

abbrev pub new_file : FileMetadata → RequestContext → FileRecord
new_file metadata context = record {
  id = metadata.file_id;
  tenant_id = context.tenant_id;
  created_by = context.operator_id;
  filename = metadata.filename;
  content_type = metadata.content_type;
  byte_size = metadata.byte_size;
  sha256 = metadata.sha256;
  row_count = metadata.row_count;
  file_type = metadata.file_type;
  object_ref = some metadata.storage_ref;
  status = metadata.status;
}

unfoldable pub save_file_row : FileMetadata → RequestContext → Exec (List FileRecord) (Unit {0})
unfolding insert_row
save_file_row metadata context = insert_row id_of (new_file metadata context)

abbrev pub is_file_of : String → RequestContext → FileRecord → Bool
is_file_of file_id context r = r.id == file_id && r.tenant_id == context.tenant_id

-- The fields that `get` returns, by their names.
abbrev pub file_of : (String → String) → FileRecord → Option FileMetadata
file_of normal_path r = elim r.object_ref [
  | none ↦ none
  | some path ↦ some (record {
    file_id = r.id;
    filename = r.filename;
    content_type = r.content_type;
    byte_size = r.byte_size;
    sha256 = r.sha256;
    row_count = r.row_count;
    file_type = r.file_type;
    storage_ref = normal_path path;
    tenant_id = r.tenant_id;
    created_by = r.created_by;
    status = r.status;
  })
]

abbrev pub file_found :
    (String → String) → Result (Option FileRecord) → Result (Option FileMetadata)
file_found normal_path (err e) = err e
file_found normal_path (ok none) = ok none
file_found normal_path (ok (some r)) = ok (file_of normal_path r)

unfoldable pub get_file_row :
    (String → String) → String → RequestContext → List FileRecord → Result (Option FileMetadata)
get_file_row normal_path file_id context rows =
    file_found normal_path (scalar_one_or_none (filter (is_file_of file_id context) rows))

unfoldable pub delete_file_row : String → RequestContext → List FileRecord → List FileRecord
delete_file_row file_id context rows = filter (λ r. not (is_file_of file_id context r)) rows

pub record ArtifactRecord : Type 0 where
  pub id : String
  pub tenant_id : String
  pub created_by : String
  pub kind : String
  pub object_ref : String
  pub sha256 : String
  pub status : String

abbrev pub new_artifact : String → String → String → String → RequestContext → ArtifactRecord
new_artifact artifact_id kind object_ref sha256 context = record {
  id = artifact_id;
  tenant_id = context.tenant_id;
  created_by = context.operator_id;
  kind = kind;
  object_ref = object_ref;
  sha256 = sha256;
  status = "available";
}

unfoldable pub save_artifact_row :
    String → String → String → String → RequestContext → Exec (List ArtifactRecord) (Unit {0})
unfolding insert_row
save_artifact_row artifact_id kind object_ref sha256 context =
    insert_row (λ r. r.id) (new_artifact artifact_id kind object_ref sha256 context)
