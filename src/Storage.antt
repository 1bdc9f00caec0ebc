-- ===== src/Storage.antt =====
-- storage/models, retrieval/search.py (email tables) and storage/raw_store.py: the tables of the
-- state, each as the list of its rows, and the files of the raw store.
use ok.Prelude.{
  ℕ, String, Bool, List, [], ◌∷◌, Option, none, some, ◌==◌, any, delete_where, is_part,
}
use ok.Json.{Json, JsonText, Fields}
use ok.Records.{SourceRecord}

pub record EmailRow : Type 0 where
  pub source_ref : String
  pub subject : String
  pub body : String
  pub date : String

pub record ChunkRow : Type 0 where
  pub source_ref : String
  pub chunk_index : ℕ
  pub subject : String
  pub body : String
  pub date : String

pub record SourceRecordRow : Type 0 where
  pub source_ref : String
  pub source_system : String
  pub source_id : String
  pub record_type : String
  pub title : String
  pub retrieval_text : String
  pub author_ref : String
  pub occurred_at : String
  pub updated_at : String
  pub source_url : String
  pub thread_ref : String
  pub permission_refs : JsonText
  pub permission_snapshot_status : String
  pub attachment_refs : JsonText
  pub identity_refs : JsonText
  pub lifecycle_state : String
  pub checksum : String
  pub version : String
  pub metadata_json : Fields
  pub raw_ref : String

pub record SourceIdentityRow : Type 0 where
  pub source_ref : String
  pub source_system : String
  pub identity_ref : String
  pub identity_type : String
  pub value : String
  pub display_name : String

pub record CanonicalObjectRow : Type 0 where
  pub object_ref : String
  pub object_type : String
  pub title : String
  pub source_refs : JsonText
  pub metadata_json : Fields
  pub lifecycle_state : String

-- `confidence` is a float that the source sets to 1.0 alone: it is kept as the number 1.
pub record EntityLinkRow : Type 0 where
  pub link_ref : String
  pub source_ref : String
  pub object_ref : String
  pub relationship_type : String
  pub confidence : ℕ
  pub evidence_json : Fields
  pub reason : String
  pub status : String

pub record RetrievalRecordRow : Type 0 where
  pub retrieval_ref : String
  pub source_ref : String
  pub unit_index : ℕ
  pub start_offset : ℕ
  pub end_offset : ℕ
  pub index_kind : String
  pub status : String
  pub source_checksum : String
  pub prepared_text : String
  pub updated_at : String

pub record SourceLifecycleRow : Type 0 where
  pub source_ref : String
  pub state : String
  pub reason : String
  pub replacement_ref : String
  pub duplicate_group_ref : String
  pub recorded_at : String

pub record AuditEventRow : Type 0 where
  pub id : ℕ
  pub event_type : String
  pub query : String
  pub token : String
  pub purpose : String
  pub human_id : String
  pub agent_id : String
  pub decision : String
  pub reason : String
  pub policy_id : String
  pub policy_version : String
  pub result_count : ℕ
  pub source_refs : String
  pub recorded_at : String

-- a row of `chunk_embeddings`, the embedding as the literal that is stored
pub record EmbeddingRow : Type 0 where
  pub source_ref : String
  pub chunk_index : ℕ
  pub text : String
  pub embedding : String

-- What the raw store writes: a source record, or another JSON payload.
pub data Payload : Type 0 where
  record_payload : SourceRecord → Payload
  json_payload : Json → Payload

pub record RawFile : Type 0 where
  pub path : String
  pub payload : Payload

pub record State : Type 0 where
  pub emails : List EmailRow
  pub chunks : List ChunkRow
  pub source_records : List SourceRecordRow
  pub source_identities : List SourceIdentityRow
  pub canonical_objects : List CanonicalObjectRow
  pub entity_links : List EntityLinkRow
  pub retrieval_records : List RetrievalRecordRow
  pub source_lifecycle : List SourceLifecycleRow
  pub audit_events : List AuditEventRow
  pub next_audit_id : ℕ
  -- `none` while the table does not exist
  pub chunk_embeddings : Option (List EmbeddingRow)
  -- `none` where no raw store is configured
  pub raw_store : Option (List RawFile)

abbrev pub empty_state : State
empty_state = record {
  emails = [];
  chunks = [];
  source_records = [];
  source_identities = [];
  canonical_objects = [];
  entity_links = [];
  retrieval_records = [];
  source_lifecycle = [];
  audit_events = [];
  next_audit_id = 1;
  chunk_embeddings = none;
  raw_store = some [];
}

-- What the state computes by code that is not its own: hash functions, the clock, Unicode case
-- folding, regular expressions and the embedding of a text.
pub record Environment : Type 0 where
  -- the hexdigest of sha256 over the canonical JSON text of a value
  pub sha256_json : Json → String
  -- the file name that blake2b gives a source ref
  pub path_for : String → String
  -- `datetime.now(UTC).isoformat()`
  pub now_iso : String
  pub lower : String → String
  pub casefold : String → String
  -- whether a text holds another between word boundaries, in any case
  pub mentions : String → String → Bool
  pub embed_text : String → String
  -- SQL `column LIKE '%' || part || '%'`, of the part and the column
  pub like : String → String → Bool

-- Executable stand-ins for tests.
abbrev pub test_environment : Environment
test_environment = record {
  sha256_json = λ _. "digest";
  path_for = λ ref. ref;
  now_iso = "2026-01-01T00:00:00+00:00";
  lower = λ s. s;
  casefold = λ s. s;
  mentions = λ text part. text == part;
  embed_text = λ s. s;
  like = is_part;
}

module _ (env : Environment) where
  -- `FileRawSourceStore.put`: a file with the same name is overwritten
  abbrev pub put_raw : String → Payload → List RawFile → List RawFile
  put_raw ref payload files =
      let path = env.path_for ref in
      record { path = path; payload = payload } ∷ delete_where (λ f. f.path == path) files

  -- `FileRawSourceStore.delete`
  abbrev pub delete_raw : String → List RawFile → List RawFile
  delete_raw ref files = delete_where (λ f. f.path == env.path_for ref) files

  -- `FileRawSourceStore.exists`
  abbrev pub exists_raw : String → List RawFile → Bool
  exists_raw ref files = any (λ f. f.path == env.path_for ref) files
