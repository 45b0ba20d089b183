-- ===== src/Files.antt =====
-- Uploaded files: app/services/files.py, FileService, with or without the repository of Sql/Files.
-- Contents are lists of bytes; the parsers of the formats, the hashes and the paths are parameters, and the disk is
-- a dict of paths.
pub mod Isolation
use Prim.Native.Char.{code}
use Prim.Native.String
use Prim.Native.String.{◌++◌ as join_text}
use office_mult_agent.Base.{
  ℕ, suc, String, Bool, true, false, not, ◌&&◌, ◌||◌, Option, none, some, List, [], ◌∷◌, length,
  ltb, contains, ◌==◌, nat_eq, string_eq, is_some, if◌then◌else◌, Error, key_error,
  unsafe_file_error, Result, ok, err, Exec, pure, lift, gets, modify, or_raise, raise_if, ◌>>=◌,
  ◌>>◌,
}
use office_mult_agent.Base.Dict.{Dict, lookup, insert, remove}
use office_mult_agent.Base.Text.{is_empty, contains_text}
use office_mult_agent.Value.{Fields}
use office_mult_agent.Context.{RequestContext}
use office_mult_agent.Uploads.{FileMetadata}
use office_mult_agent.Sql.Rows.{map_option}
use office_mult_agent.Sql.Files.{FileRecord, save_file_row, get_file_row, delete_file_row}

abbrev pub Bytes : Type 0
Bytes = List ℕ

-- What the service calls: the last part of a path, lower case, the hash of a content, the path of a
-- stored file by tenant and name, whether a path lies in the storage directory, and the parsers.
pub record FileTools : Type 0 where
  pub base_name : String → String
  pub lower : String → String
  pub sha256_of : Bytes → String
  pub storage_path : String → String → String
  pub is_inside : String → Bool
  pub parse : String → Bytes → Result (List Fields)
  -- what reading a path that is not there raises
  pub missing_file : String → Error
  -- `str(Path(...))`
  pub normal_path : String → String
  pub max_bytes : ℕ
  pub max_rows : ℕ

pub record FileStore : Type 0 where
  pub files : Dict String (List Fields)
  pub metadata : Dict String FileMetadata
  pub disk : Dict String Bytes
  -- the table of the repository, if the service has one
  pub rows : Option (List FileRecord)

abbrev pub text_length : String → ℕ
text_length String.[] = 0
text_length (String.◌∷◌ c s) = suc (text_length s)

abbrev pub has_control : String → Bool
has_control String.[] = false
has_control (String.◌∷◌ c s) = ltb (code c) 32 || has_control s

-- `filename.rsplit(".", 1)[-1]` of a name with a dot
abbrev pub after_last_dot : String → String
after_last_dot String.[] = ""
after_last_dot (String.◌∷◌ c s) =
    let rest = after_last_dot s in if contains_text "." s then rest else s

abbrev pub starts_with : Bytes → Bytes → Bool
starts_with [] content = true
starts_with (p ∷ ps) [] = false
starts_with (p ∷ ps) (b ∷ bs) = p == b && starts_with ps bs

abbrev pub allowed_types : List String
allowed_types = "csv" ∷ "tsv" ∷ "json" ∷ "xlsx" ∷ "xls" ∷ "docx" ∷ "pdf" ∷ "txt" ∷ "md" ∷ []

unfoldable pub content_types : String → List String
content_types suffix =
    if suffix == "csv"
    then "text/csv" ∷ "application/csv" ∷ []
    else if suffix == "tsv"
    then "text/tab-separated-values" ∷ "text/tsv" ∷ []
    else if suffix == "json"
    then "application/json" ∷ "text/json" ∷ []
    else if suffix == "xlsx"
    then "application/vnd.openxmlformats-officedocument.spreadsheetml.sheet" ∷ []
    else if suffix == "xls"
    then "application/vnd.ms-excel" ∷ []
    else if suffix == "docx"
    then "application/vnd.openxmlformats-officedocument.wordprocessingml.document" ∷ []
    else if suffix == "pdf"
    then "application/pdf" ∷ []
    else if suffix == "txt"
    then "text/plain" ∷ []
    else if suffix == "md"
    then "text/markdown" ∷ "text/plain" ∷ []
    else []

-- `content_type and content_type not in self._content_types[suffix]`
abbrev pub is_mismatch : Option String → String → Bool
is_mismatch none suffix = false
is_mismatch (some type) suffix = not (is_empty type) && not (contains (content_types suffix) type)

-- "%PDF-", "PK", and D0CF11E0
abbrev pub signature_of : String → Bytes
signature_of suffix =
    if suffix == "pdf"
    then 37 ∷ 80 ∷ 68 ∷ 70 ∷ 45 ∷ []
    else if suffix == "xlsx"
    then 80 ∷ 75 ∷ []
    else if suffix == "docx"
    then 80 ∷ 75 ∷ []
    else if suffix == "xls"
    then 208 ∷ 207 ∷ 17 ∷ 224 ∷ []
    else []

abbrev pub signature_error : String → Error
signature_error suffix =
    if suffix == "pdf"
    then unsafe_file_error "invalid PDF signature"
    else if suffix == "xls"
    then unsafe_file_error "invalid XLS signature"
    else unsafe_file_error "invalid Office document signature"

abbrev pub is_none_left : Bytes → Bool
is_none_left [] = true
is_none_left (b ∷ bs) = false

module _ (t : FileTools) where
  abbrev pub suffix_of : String → String
  suffix_of filename = if contains_text "." filename then t.lower (after_last_dot filename) else ""

  unfoldable pub validate_upload : {S : Type 0} → String → Bytes → Option String → Exec S String
  unfolding content_types
  validate_upload filename content content_type = do
    raise_if
        (is_empty filename
          || not (t.base_name filename == filename)
          || ltb 255 (text_length filename))
        (unsafe_file_error "invalid filename")
    raise_if (has_control filename) (unsafe_file_error "invalid filename")
    raise_if (is_none_left content) (unsafe_file_error "file is empty")
    raise_if (ltb t.max_bytes (length content)) (unsafe_file_error "file exceeds maximum size")
    let suffix = suffix_of filename
    raise_if (not (contains allowed_types suffix)) (unsafe_file_error "unsupported file type")
    raise_if (is_mismatch content_type suffix)
        (unsafe_file_error "content type does not match filename")
    raise_if (not (starts_with (signature_of suffix) content)) (signature_error suffix)
    pure suffix

  unfoldable pub validate_row_count : List Fields → Exec FileStore (Unit {0})
  validate_row_count rows =
      raise_if (ltb t.max_rows (length rows)) (unsafe_file_error "file exceeds maximum row count")

  abbrev pub stored_metadata :
      String → String → String → Bytes → List Fields → Option String → RequestContext → FileMetadata
  stored_metadata file_id filename suffix content rows content_type context = record {
    file_id = file_id;
    filename = filename;
    content_type = content_type;
    byte_size = length content;
    sha256 = t.sha256_of content;
    row_count = length rows;
    file_type = suffix;
    storage_ref = t.storage_path context.tenant_id (join_text file_id (join_text "." suffix));
    tenant_id = context.tenant_id;
    created_by = context.operator_id;
    status = "stored";
  }

  abbrev pub keep : FileMetadata → Bytes → List Fields → FileStore → FileStore
  keep m content rows s = record {
    files = insert m.file_id rows s.files;
    metadata = insert m.file_id m s.metadata;
    disk = insert m.storage_ref content s.disk;
    rows = s.rows;
  }

  abbrev pub with_rows :
      FileStore → Result (Unit {0}) × List FileRecord → Result (Unit {0}) × FileStore
  with_rows s (out, rows) = (out, record s { rows = some rows })

  -- `if self.repository is not None: await self.repository.save(metadata, context)`
  abbrev pub save_to_repository : FileMetadata → RequestContext → Exec FileStore (Unit {0})
  save_to_repository m context s = elim s.rows [
    | none ↦ (ok tt, s)
    | some rows ↦ with_rows s (save_file_row m context rows)
  ]

  unfoldable pub store_and_parse :
      String → String → Bytes → Option String → RequestContext → Exec FileStore String
  unfolding validate_upload validate_row_count
  store_and_parse uuid filename content content_type context = do
    suffix ← validate_upload filename content content_type
    rows ← lift (t.parse suffix content)
    validate_row_count rows
    modify
        (keep (stored_metadata uuid filename suffix content rows content_type context) content rows)
    save_to_repository (stored_metadata uuid filename suffix content rows content_type context)
        context
    pure uuid

  abbrev pub if_own : String → RequestContext → Option FileMetadata → Result FileMetadata
  if_own file_id context none = err (key_error file_id)
  if_own file_id context (some m) =
      if m.tenant_id == context.tenant_id then ok m else err (key_error file_id)

  -- What the repository gives, which is kept.
  abbrev pub from_repository :
      String
      → RequestContext
      → FileStore
      → Result (Option FileMetadata)
      → Result FileMetadata × FileStore
  from_repository file_id context s (err e) = (err e, s)
  from_repository file_id context s (ok none) = (err (key_error file_id), s)
  from_repository file_id context s (ok (some m)) =
      (if_own file_id context (some m), record s { metadata = insert file_id m s.metadata })

  unfoldable pub get_metadata : String → RequestContext → Exec FileStore FileMetadata
  get_metadata file_id context s = elim (lookup file_id s.metadata) [
    | some m ↦ (if_own file_id context (some m), s)
    | none ↦ elim s.rows [
      | none ↦ (err (key_error file_id), s)
      | some rows ↦
          from_repository file_id context s (get_file_row t.normal_path file_id context rows)
    ]
  ]

  -- The rows of the file, read again.
  unfoldable pub read_again : FileMetadata → Option Bytes → Exec FileStore (List Fields)
  unfolding validate_row_count
  read_again m none s = (err (t.missing_file m.storage_ref), s)
  read_again m (some content) s =
      (do
        rows ← lift (t.parse m.file_type content)
        validate_row_count rows
        modify (λ s. record s { files = insert m.file_id rows s.files })
        pure rows)
        s

  unfoldable pub get_rows : String → RequestContext → Exec FileStore (List Fields)
  unfolding get_metadata read_again
  get_rows file_id context = do
    m ← get_metadata file_id context
    cached ← gets (λ s. lookup file_id s.files)
    elim cached [
      | some rows ↦ pure rows
      | none ↦ do content ← gets (λ s. lookup m.storage_ref s.disk); read_again m content
    ]

  unfoldable pub delete_file : String → RequestContext → Exec FileStore (Unit {0})
  unfolding get_metadata
  delete_file file_id context = do
    m ← get_metadata file_id context
    raise_if (not (t.is_inside m.storage_ref)) (unsafe_file_error "invalid storage reference")
    modify (λ s. record {
      files = remove file_id s.files;
      metadata = remove file_id s.metadata;
      disk = remove m.storage_ref s.disk;
      rows = map_option (delete_file_row file_id context) s.rows;
    })
