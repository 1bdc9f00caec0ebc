-- ===== src/Evidence/Objects.antt =====
-- retrieval/evidence_pack.py: the readers of the rows, and the dictionaries over objects, links and
-- records.
use ok.Prelude.{
  String, Bool, not, ◌&&◌, List, [], ◌∷◌, Option, none, some, ◌==◌, contains, select_where, lt_text,
  Dict, put, index_by, group_by, group_at, sort_by, Result, return, raise, value_error, ◌>>=◌,
  if◌then◌else◌,
}
use ok.Json.{JsonText, get_field, text_of, decode_json_string_list}
use ok.Storage.{SourceRecordRow, CanonicalObjectRow, EntityLinkRow}

-- `_json_list`, which raises where the text is not JSON
unfoldable pub json_list : JsonText → Result (List String)
unfolding decode_json_string_list
json_list none = raise (value_error "JSONDecodeError")
json_list (some v) = return (decode_json_string_list (some v))

-- `_json_list` of a column that was decoded before
unfoldable pub decoded_list : JsonText → List String
unfolding decode_json_string_list
decoded_list raw = decode_json_string_list raw

-- `_entity_ref`
unfoldable pub entity_ref : EntityLinkRow → String
entity_ref link = text_of (get_field link.evidence_json "entity_ref")

-- the inner loop of `_object_by_source_ref`
unfoldable pub put_visible :
    List String
    → CanonicalObjectRow
    → List String
    → Dict CanonicalObjectRow
    → Dict CanonicalObjectRow
put_visible visible o [] d = d
put_visible visible o (ref ∷ refs) d =
    put_visible visible o refs (if contains visible ref then put ref o d else d)

-- `_object_by_source_ref`: a later object of a source replaces an earlier one
unfoldable pub object_by_source_ref :
    List String
    → Dict CanonicalObjectRow
    → List CanonicalObjectRow
    → Result (Dict CanonicalObjectRow)
unfolding json_list put_visible
object_by_source_ref visible d [] = return d
object_by_source_ref visible d (o ∷ rest) = json_list o.source_refs >>= λ refs.
    object_by_source_ref visible (put_visible visible o refs d) rest

-- `visible_entity_links`
unfoldable pub visible_links : List String → List String → List EntityLinkRow → List EntityLinkRow
visible_links refs object_refs =
    select_where (λ link. contains refs link.source_ref && contains object_refs link.object_ref)

abbrev link_before : EntityLinkRow → EntityLinkRow → Bool
link_before a b =
    if a.relationship_type == b.relationship_type
    then lt_text a.object_ref b.object_ref
    else lt_text a.relationship_type b.relationship_type

-- `_links_by_source_ref(links).get(ref, [])`
unfoldable pub links_of : List EntityLinkRow → String → List EntityLinkRow
unfolding group_by sort_by lt_text
links_of links ref =
    sort_by link_before (group_at (group_by (λ link. link.source_ref) [] links) ref)

abbrev record_before : SourceRecordRow → SourceRecordRow → Bool
record_before a b =
    if a.occurred_at == b.occurred_at
    then lt_text a.source_ref b.source_ref
    else lt_text a.occurred_at b.occurred_at

-- `_source_records_by_thread(records).get(thread_ref, [])`
unfoldable pub records_of_thread : List SourceRecordRow → String → List SourceRecordRow
unfolding group_by sort_by lt_text
records_of_thread rows thread_ref = sort_by record_before (
    group_at
      (group_by (λ row. row.thread_ref) [] (select_where (λ row. not (row.thread_ref == "")) rows))
      thread_ref)

-- `_source_record_for_ref`
unfoldable pub source_record_for_ref : List SourceRecordRow → String → Option SourceRecordRow
source_record_for_ref [] ref = none
source_record_for_ref (row ∷ rows) ref =
    if row.source_ref == ref then some row else source_record_for_ref rows ref

-- `source_by_ref`
unfoldable pub source_by_ref : List SourceRecordRow → Dict SourceRecordRow
unfolding index_by
source_by_ref rows = index_by (λ row. row.source_ref) [] rows
