-- ===== src/Context.antt =====
-- etl/load/context_objects.py: the canonical object of a record, and the tables of objects and
-- links. The links themselves are computed in the child.
pub mod Links
use ok.Prelude.{
  String, Bool, List, [], ◌∷◌, ◌++◌, map, Option, none, some, ◌==◌, contains, delete_where, get,
  lt_text, sort_by, if◌then◌else◌,
}
use ok.Json.{Json, Fields, str, dumps, set_field}
use ok.Records.{SourceRecord, effective_lifecycle_state}
use ok.Storage.{State, CanonicalObjectRow, EntityLinkRow}

-- RECORD_TYPE_TO_OBJECT_TYPE
abbrev object_types : List (String × String)
object_types =
    ("email", "Message")
    ∷ ("message", "Message")
    ∷ ("slack_message", "Message")
    ∷ ("event", "Message")
    ∷ ("document", "Document")
    ∷ ("resource", "Document")
    ∷ ("work_item", "WorkItem")
    ∷ ("linear_issue", "WorkItem")
    ∷ ("project", "WorkItem")
    ∷ ("relationship", "Relationship")
    ∷ ("person", "Person")
    ∷ ("organization", "Organization")
    ∷ ("company", "Organization")
    ∷ []

object_type_for_record_type : String → String
unfolding get
object_type_for_record_type type = elim (get object_types type) [
  | some object_type ↦ object_type
  | none ↦ "Document"
]

unfoldable pub canonical_object : SourceRecord → CanonicalObjectRow
unfolding object_type_for_record_type
canonical_object r = record {
  object_ref = r.source_ref;
  object_type = object_type_for_record_type r.record_type;
  title = r.title;
  source_refs = dumps (r.source_ref ∷ []);
  metadata_json =
      set_field
        (set_field (set_field r.metadata "record_type" (str r.record_type)) "source_id"
          (str r.source_id))
        "source_system" (str r.source_system);
  lifecycle_state = effective_lifecycle_state r;
}

-- `store_canonical_objects`: rows with the same refs are deleted first
unfoldable pub store_canonical_objects : List CanonicalObjectRow → State → State
store_canonical_objects [] s = s
store_canonical_objects (o ∷ objects) s =
    let refs = map (λ row. row.object_ref) (o ∷ objects) in
    record s {
      canonical_objects =
          delete_where (λ row. contains refs row.object_ref) s.canonical_objects ++ o ∷ objects;
    }

-- `store_entity_links`
unfoldable pub store_entity_links : List EntityLinkRow → State → State
store_entity_links [] s = s
store_entity_links (l ∷ links) s =
    let refs = map (λ row. row.link_ref) (l ∷ links) in
    record s {
      entity_links = delete_where (λ row. contains refs row.link_ref) s.entity_links ++ l ∷ links;
    }

-- `canonical_object_rows` and `entity_link_rows`: the rows in the order of their refs
unfoldable pub canonical_object_rows : List CanonicalObjectRow → List CanonicalObjectRow
unfolding sort_by lt_text
canonical_object_rows rows = sort_by (λ a b. lt_text a.object_ref b.object_ref) rows

unfoldable pub entity_link_rows : List EntityLinkRow → List EntityLinkRow
unfolding sort_by lt_text
entity_link_rows rows = sort_by (λ a b. lt_text a.link_ref b.link_ref) rows
