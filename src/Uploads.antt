-- ===== src/Uploads.antt =====
-- What is known of an uploaded file (app/services/files.py, FileMetadata).
use office_mult_agent.Base.{ℕ, String, Option}

pub record FileMetadata : Type 0 where
  pub file_id : String
  pub filename : String
  pub content_type : Option String
  pub byte_size : ℕ
  pub sha256 : String
  pub row_count : ℕ
  pub file_type : String
  pub storage_ref : String
  pub tenant_id : String
  pub created_by : String
  pub status : String
