-- ===== src/Records.antt =====
-- etl/extract/source_records.py: the envelope that every connector fills, and its lifecycle.
use ok.Prelude.{String, List, [], ◌∷◌, ◌==◌, contains, concat, if◌then◌else◌}
use ok.Json.{Fields, end}

pub record SourceIdentity : Type 0 where
  pub source_system : String
  pub identity_ref : String
  pub identity_type : String
  pub value : String
  pub display_name : String

pub record SourceAttachment : Type 0 where
  pub attachment_ref : String
  pub title : String
  pub text : String
  pub content_type : String

pub record SourceRecord : Type 0 where
  pub source_ref : String
  pub source_system : String
  pub source_id : String
  pub record_type : String
  pub title : String
  pub body : String
  pub occurred_at : String
  pub updated_at : String
  pub author_ref : String
  pub source_url : String
  pub thread_ref : String
  pub permission_refs : List String
  pub permission_snapshot_status : String
  pub attachment_refs : List String
  pub identity_refs : List String
  pub lifecycle_state : String
  pub checksum : String
  pub version : String
  pub metadata : Fields
  pub raw : Fields
  pub raw_ref : String
  pub source_identities : List SourceIdentity
  pub attachments : List SourceAttachment

-- The record with its four required refs and types; every other field has its default.
abbrev pub source_record : String → String → String → String → SourceRecord
source_record ref system id type = record {
  source_ref = ref;
  source_system = system;
  source_id = id;
  record_type = type;
  title = "";
  body = "";
  occurred_at = "";
  updated_at = "";
  author_ref = "";
  source_url = "";
  thread_ref = "";
  permission_refs = [];
  permission_snapshot_status = "current";
  attachment_refs = [];
  identity_refs = [];
  lifecycle_state = "active";
  checksum = "";
  version = "";
  metadata = end;
  raw = end;
  raw_ref = "";
  source_identities = [];
  attachments = [];
}

-- RESTRICTING_PERMISSION_SNAPSHOT_STATUSES
abbrev restricting_statuses : List String
restricting_statuses = "missing" ∷ "stale" ∷ "revoked" ∷ []

unfoldable pub effective_lifecycle_state : SourceRecord → String
effective_lifecycle_state r =
    if r.lifecycle_state == "active"
    then (if contains restricting_statuses r.permission_snapshot_status
        then "restricted"
        else r.lifecycle_state)
    else r.lifecycle_state

unfoldable pub lifecycle_reason : SourceRecord → String
lifecycle_reason r =
    if contains restricting_statuses r.permission_snapshot_status
    then concat ("permission_snapshot_" ∷ r.permission_snapshot_status ∷ [])
    else "source_record_lifecycle"
