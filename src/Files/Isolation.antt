-- ===== src/Files/Isolation.antt =====
-- Who reaches an uploaded file, and what was checked of it (app/services/files.py).
use office_mult_agent.Base.{
  ◌⊎◌, ◌≤◌, String, true, false, Option, none, some, List, length, ltb, contains, ◌≡◌, ◌≢◌, inl,
  inr, sym, ap, subst, ◌∙◌, arith, ◌==◌, ==_refl, eq_iff, string_eq, Bool-cases, Option-cases,
  Result-cases, key_error, ok, err,
}
use office_mult_agent.Base.Dict.{lookup, lookup-insert_self, lookup-remove}
use office_mult_agent.Value.{Fields}
use office_mult_agent.Context.{RequestContext}
use office_mult_agent.Uploads.{FileMetadata}
use office_mult_agent.Sql.Files.{FileRecord, get_file_row}
use office_mult_agent.Files.{
  Bytes, FileTools, FileStore, allowed_types, suffix_of, validate_upload, if_own,
  validate_row_count, store_and_parse, get_metadata, get_rows, delete_file, stored_metadata, keep,
}

module _ (t : FileTools) (file_id : String) (context : RequestContext) (s : FileStore) where
  -- A caller of another tenant than the file's gets a KeyError, from reading the rows and from deleting,
  -- and nothing changes; as for a file that does not exist.
  pub other_tenant :
      (m : FileMetadata)
      → lookup file_id s.metadata ≡ some m
      → m.tenant_id ≢ context.tenant_id
      → (get_rows t file_id context s ≡ (err (key_error file_id), s))
        × (delete_file t file_id context s ≡ (err (key_error file_id), s))
  unfolding get_rows delete_file get_metadata
  other_tenant m found foreign =
      let differs : (m.tenant_id == context.tenant_id) ≡ false =
        ground (arith, foreign, eq_iff m.tenant_id context.tenant_id) in
      (ground (arith, found, differs), ground (arith, found, differs))

-- The metadata that a caller of their tenant gets of a file, from the service or, where it has none, the repository.
pub record IsOwn (t : FileTools) (file_id : String) (context : RequestContext) (s : FileStore)
    : Type 0 where
  pub m : FileMetadata
  pub read : (get_metadata t file_id context s).0 ≡ ok m
  pub own : m.tenant_id ≡ context.tenant_id
  pub origin :
      (lookup file_id s.metadata ≡ some m)
      ⊎ ((lookup file_id s.metadata ≡ none)
          × (db : List FileRecord) × (s.rows ≡ some db)
          × (get_file_row t.normal_path file_id context db ≡ ok (some m)))

module _ (t : FileTools) (file_id : String) (context : RequestContext) (s : FileStore) where
  if_own_lem :
      (m m' : FileMetadata)
      → if_own t file_id context (some m) ≡ ok m'
      → (m ≡ m') × (m.tenant_id ≡ context.tenant_id)
  if_own_lem m m' h = elim (Bool-cases (m.tenant_id == context.tenant_id)) [
    | inr foreign ↦ absurd (ground (arith, h, foreign))
    | inl own ↦ (ground (arith, h, own), (eq_iff m.tenant_id context.tenant_id).0 own)
  ]

  get_metadata-IsOwn :
      (m : FileMetadata) → (get_metadata t file_id context s).0 ≡ ok m → IsOwn t file_id context s
  unfolding get_metadata
  get_metadata-IsOwn m h = elim (Option-cases (lookup file_id s.metadata)) [
    | inr (known, found) ↦
        let (same, own) = if_own_lem known m (ground (arith, h, found)) in
        record { m = known; read = ground (arith, h, found, same); own = own; origin = inl found }
    | inl missing ↦ elim (Option-cases s.rows) [
      | inl alone ↦ absurd (ground (arith, h, missing, alone))
      | inr (db, has) ↦ elim (Result-cases (get_file_row t.normal_path file_id context db)) [
        | inr (e, failed) ↦ absurd (ground (arith, h, missing, has, failed))
        | inl (answer, got) ↦ elim (Option-cases answer) [
          | inl nothing ↦ absurd (ground (arith, h, missing, has, got, nothing))
          | inr (stored, is) ↦
              let from = got ∙ ap ok is in
              let (same, own) = if_own_lem stored m (ground (arith, h, missing, has, from)) in
              record {
                m = stored;
                read = ground (arith, h, missing, has, from, same);
                own = own;
                origin = inr (missing, db, has, from);
              }
        ]
      ]
    ]
  ]

  -- Whoever reads the rows of a file or deletes it is of the tenant that the file's metadata names; and
  -- that is the metadata kept by the service or, where it keeps none of the file, the one that its repository
  -- gives to this caller.
  pub file_calls-IsOwn :
      ((rows : List Fields) × ((get_rows t file_id context s).0 ≡ ok rows))
        ⊎ ((delete_file t file_id context s).0 ≡ ok tt)
      → IsOwn t file_id context s
  unfolding get_rows delete_file
  file_calls-IsOwn worked = elim (Result-cases (get_metadata t file_id context s).0) [
    | inl (m, read) ↦ get_metadata-IsOwn m read
    | inr (e, failed) ↦ absurd (elim worked [
      | inl (rows, h) ↦ ground (arith, h, failed)
      | inr h ↦ ground (arith, h, failed)
    ])
  ]

-- What an upload that succeeded has gone through, and leaves.
pub record IsStored (t : FileTools) (file_id filename : String) (content : Bytes)
    (context : RequestContext) (s : FileStore) : Type 0 where
  pub rows : List Fields
  pub parsed : t.parse (suffix_of t filename) content ≡ ok rows
  pub allowed : contains allowed_types (suffix_of t filename) ≡ true
  pub size : length content ≤ t.max_bytes
  pub row_count : length rows ≤ t.max_rows
  pub readable : get_rows t file_id context s ≡ (ok rows, s)

module _ (t : FileTools) (uuid filename : String) (content : Bytes) (content_type : Option String)
    (context : RequestContext) (s : FileStore) where
  validate_lem :
      (suffix : String) (after : FileStore)
      → validate_upload t filename content content_type s ≡ (ok suffix, after)
      → (suffix ≡ suffix_of t filename)
        × (after ≡ s)
        × (contains allowed_types (suffix_of t filename) ≡ true)
        × (length content ≤ t.max_bytes)
  unfolding validate_upload
  validate_lem suffix after h = elim (Bool-cases (ltb t.max_bytes (length content))) [
    | inl large ↦ absurd (ground (arith, h, large))
    | inr small ↦ elim (Bool-cases (contains allowed_types (suffix_of t filename))) [
      | inr unknown ↦ absurd (ground (arith, h, small, unknown))
      | inl known ↦ (
        ground (arith, h, small, known),
        ground (arith, h, small, known),
        known,
        ground (arith, small),
      )
    ]
  ]

  abbrev kept : String → List Fields → FileStore
  kept suffix rows =
      keep t (stored_metadata t uuid filename suffix content rows content_type context) content rows
        s

  readable_kept :
      (suffix : String) (rows : List Fields)
      → get_rows t uuid context (kept suffix rows) ≡ (ok rows, kept suffix rows)
  unfolding get_rows get_metadata
  readable_kept suffix rows = ground (
    arith,
    lookup-insert_self uuid
        (stored_metadata t uuid filename suffix content rows content_type context) s.metadata,
    lookup-insert_self uuid rows s.files,
    ==_refl context.tenant_id,
  )

  stored_lem :
      (suffix : String) (rows : List Fields) (after : FileStore)
      → s.rows ≡ none
      → store_and_parse t uuid filename content content_type context s ≡ (ok uuid, after)
      → validate_upload t filename content content_type s ≡ (ok suffix, s)
      → t.parse suffix content ≡ ok rows
      → (length rows ≤ t.max_rows) × (kept suffix rows ≡ after)
  unfolding store_and_parse validate_row_count
  stored_lem suffix rows after alone h valid parsed =
      elim (Bool-cases (ltb t.max_rows (length rows))) [
        | inl many ↦ absurd (ground (arith, h, valid, parsed, many))
        | inr few ↦ (ground (arith, few), ground (arith, alone, h, valid, parsed, few))
      ]

  -- An upload to a service without a repository that succeeds had an allowed type and no more bytes and rows than the limits, and
  -- leaves a file whose rows the caller can read: those that the parser gave.
  pub store_and_parse-IsStored :
      (after : FileStore)
      → s.rows ≡ none
      → store_and_parse t uuid filename content content_type context s ≡ (ok uuid, after)
      → IsStored t uuid filename content context after
  unfolding store_and_parse
  store_and_parse-IsStored after alone h =
      let checked = validate_upload t filename content content_type s in
      elim (Result-cases checked.0) [
        | inr (e, failed) ↦ absurd (ground (arith, h, failed))
        | inl (suffix, v) ↦
            let (suffix_is, same, known, small) =
              validate_lem suffix checked.1 (ap (λ r. (r, checked.1)) v) in
            let valid : validate_upload t filename content content_type s ≡ (ok suffix, s) =
              ap (λ r. (r, checked.1)) v ∙ ap (λ u. (ok suffix, u)) same in
            elim (Result-cases (t.parse suffix content)) [
              | inr (e, failed) ↦ absurd (ground (arith, h, valid, failed))
              | inl (rows, parsed) ↦
                  let (few, is) = stored_lem suffix rows after alone h valid parsed in
                  record {
                    rows = rows;
                    parsed = ap (λ x. t.parse x content) (sym suffix_is) ∙ parsed;
                    allowed = known;
                    size = small;
                    row_count = few;
                    readable =
                        subst (λ u. get_rows t uuid context u ≡ (ok rows, u)) is
                          (readable_kept suffix rows);
                  }
            ]
      ]

module _ (t : FileTools) (file_id : String) (context other : RequestContext)
    (s after : FileStore) where
  -- After a deletion that succeeds in a service without a repository, nobody reads the rows of the file: every caller gets a KeyError.
  pub deleted_file_unreadable :
      s.rows ≡ none
      → delete_file t file_id context s ≡ (ok tt, after)
      → get_rows t file_id other after ≡ (err (key_error file_id), after)
  unfolding delete_file get_metadata get_rows
  deleted_file_unreadable alone h = elim (Option-cases (lookup file_id s.metadata)) [
    | inl missing ↦ absurd (ground (arith, alone, h, missing))
    | inr (m, found) ↦
        ground (arith, alone, h, found, lookup-remove file_id file_id s.metadata, ==_refl file_id)
  ]
