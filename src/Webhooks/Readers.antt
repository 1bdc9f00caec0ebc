-- ===== src/Webhooks/Readers.antt =====
-- runtime/webhooks.py, `_source_record_from_payload` and the readers of payload fields.
use ok.Prelude.{
  String, List, [], ◌∷◌, Option, none, some, ◌==◌, ◌or◌, concat, if◌then◌else◌, Result, return,
  raise, ◌>>=◌, payload_error,
}
use ok.Json.{Json, Items, Fields, null, arr, obj, nil, cons, end, get_field, text_of, item_strings}
use ok.Records.{SourceIdentity, SourceAttachment, SourceRecord}

-- `_string(value.get(key))`
abbrev pub text_field : Fields → String → String
text_field value key = text_of (get_field value key)

-- `_required_string`
required_string : Fields → String → Result String
required_string value key =
    if text_field value key == ""
    then raise (payload_error (concat ("source_record requires " ∷ key ∷ [])))
    else return (text_field value key)

-- `_string_list`
abbrev string_list : Option Json → List String
string_list (some (arr xs)) = item_strings xs
string_list _ = []

-- `_dict`
abbrev pub dict : Option Json → Fields
dict (some (obj fields)) = fields
dict _ = end

abbrev item_dicts : Items → List Fields
item_dicts nil = []
item_dicts (cons item rest) = elim item [
  | obj fields ↦ fields ∷ item_dicts rest
  | _ ↦ item_dicts rest
]

-- `_dict_list`
abbrev dict_list : Option Json → List Fields
dict_list (some (arr xs)) = item_dicts xs
dict_list _ = []

identity_from : Fields → Result SourceIdentity
unfolding required_string
identity_from identity = do
  source_system ← required_string identity "source_system"
  identity_ref ← required_string identity "identity_ref"
  identity_type ← required_string identity "identity_type"
  value ← required_string identity "value"
  return (record {
    source_system = source_system;
    identity_ref = identity_ref;
    identity_type = identity_type;
    value = value;
    display_name = text_field identity "display_name";
  })

attachment_from : Fields → Result SourceAttachment
unfolding required_string
attachment_from attachment = do
  attachment_ref ← required_string attachment "attachment_ref"
  return (record {
    attachment_ref = attachment_ref;
    title = text_field attachment "title";
    text = text_field attachment "text";
    content_type = text_field attachment "content_type" or "text/plain";
  })

-- a tuple of a generator, which raises what an element raises
pub each {ℓ κ} : {A : Type ℓ} {B : Type κ} → (A → Result B) → List A → Result (List B)
each f [] = return []
each f (x ∷ xs) = let rest = each f xs in (do y ← f x; ys ← rest; return (y ∷ ys))

unfoldable pub record_from : Fields → Result SourceRecord
unfolding required_string identity_from attachment_from each
record_from value = do
  source_ref ← required_string value "source_ref"
  source_system ← required_string value "source_system"
  source_id ← required_string value "source_id"
  record_type ← required_string value "record_type"
  source_identities ← each identity_from (dict_list (get_field value "source_identities"))
  attachments ← each attachment_from (dict_list (get_field value "attachments"))
  return (record {
    source_ref = source_ref;
    source_system = source_system;
    source_id = source_id;
    record_type = record_type;
    title = text_field value "title";
    body = text_field value "body";
    occurred_at = text_field value "occurred_at";
    updated_at = text_field value "updated_at";
    author_ref = text_field value "author_ref";
    source_url = text_field value "source_url";
    thread_ref = text_field value "thread_ref";
    permission_refs = string_list (get_field value "permission_refs");
    permission_snapshot_status = text_field value "permission_snapshot_status" or "current";
    attachment_refs = string_list (get_field value "attachment_refs");
    identity_refs = string_list (get_field value "identity_refs");
    lifecycle_state = text_field value "lifecycle_state" or "active";
    checksum = text_field value "checksum";
    version = text_field value "version";
    metadata = dict (get_field value "metadata");
    raw = dict (get_field value "raw");
    raw_ref = text_field value "raw_ref";
    source_identities = source_identities;
    attachments = attachments;
  })

-- `_source_record_from_payload`; a key that is absent and one that is null are the same
unfoldable pub source_record_from_payload : Fields → Result (Option SourceRecord)
unfolding record_from
source_record_from_payload payload = elim (get_field payload "source_record") [
  | none ↦ return none
  | some value ↦ elim value [
    | null ↦ return none
    | obj fields ↦ (record_from fields >>= λ r. return (some r))
    | _ ↦ raise (payload_error "source_record payload must be an object")
  ]
]
