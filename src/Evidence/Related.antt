-- ===== src/Evidence/Related.antt =====
-- retrieval/evidence_pack.py: the objects that are related to the results, and their groups.
use ok.Prelude.{
  ℕ, ◌*◌, String, not, ◌||◌, List, [], ◌∷◌, ◌++◌, map, Option, none, some, ◌==◌, ltb, take,
  contains, concat, join, select_where, lt_text, Dict, get, group_by, sort_by, sorted_set,
  if◌then◌else◌,
}
use ok.Json.{get_field, text_of}
use ok.Storage.{SourceRecordRow, CanonicalObjectRow, EntityLinkRow}
use ok.Search.Snippets.{SearchResult}
use ok.Evidence.Objects.{links_of, records_of_thread, source_record_for_ref}

-- A confidence is counted in hundredths: 100 is the 1.0 of a link, 90 is 0.9.
pub record RelatedObject : Type 0 where
  pub object_ref : String
  pub object_type : String
  pub title : String
  pub relationship_to_primary : String
  pub relationship_source_refs : List String
  pub confidence : ℕ
  pub follow_up_hint : String

-- what the loop over the results has found, and the refs that it has seen
pub record Found : Type 0 where
  pub related : List RelatedObject
  pub seen : List String

abbrev pub related_object : CanonicalObjectRow → String → List String → ℕ → RelatedObject
related_object o relationship refs confidence = record {
  object_ref = o.object_ref;
  object_type = o.object_type;
  title = o.title;
  relationship_to_primary = relationship;
  relationship_source_refs = refs;
  confidence = confidence;
  follow_up_hint = concat ("Ask about " ∷ o.title ∷ []);
}

abbrev pub add_found : String → RelatedObject → Found → Found
add_found ref item found = record { related = found.related ++ item ∷ []; seen = ref ∷ found.seen }

-- `max(float(link["confidence"]) for link in object_links)`
unfoldable pub most_confident : List EntityLinkRow → ℕ
most_confident [] = 0
most_confident (link ∷ links) =
    let most = most_confident links in
    if ltb most (link.confidence * 100) then link.confidence * 100 else most

-- the types of the links of one object, in their order
unfoldable pub relationship_types : List EntityLinkRow → List String
unfolding sorted_set
relationship_types links =
    sorted_set
      (select_where (λ type. not (type == "")) (map (λ link. link.relationship_type) links))

-- one object of `_add_linked_entity_related_objects`
unfoldable pub add_linked_object :
    SearchResult → String → List EntityLinkRow → Option CanonicalObjectRow → Found → Found
unfolding most_confident relationship_types join
add_linked_object result ref links none found = found
add_linked_object result ref links (some o) found =
    add_found ref
      (related_object o (concat ("linked entity: " ∷ join ", " (relationship_types links) ∷ []))
        (result.source_ref ∷ []) (most_confident links))
      found

unfoldable pub add_linked_objects :
    SearchResult → Dict CanonicalObjectRow → List (String × List EntityLinkRow) → Found → Found
unfolding add_linked_object
add_linked_objects result objects [] found = found
add_linked_objects result objects ((ref, links) ∷ rest) found =
    add_linked_objects result objects rest
      (add_linked_object result ref links (get objects ref) found)

-- `sorted(links_by_object_ref.items())`: the links by the object that they lead to
unfoldable pub links_by_object_ref :
    String → List String → List EntityLinkRow → List (String × List EntityLinkRow)
unfolding group_by sort_by lt_text
links_by_object_ref result_ref seen links =
    sort_by (λ a b. lt_text a.0 b.0)
      (group_by (λ link. link.object_ref) []
        (select_where
          (λ link. not ((link.object_ref == result_ref) || contains seen link.object_ref)) links))

-- `_add_linked_entity_related_objects`
unfoldable pub add_linked_entities :
    SearchResult → List EntityLinkRow → Dict CanonicalObjectRow → Found → Found
unfolding add_linked_objects links_by_object_ref
add_linked_entities result links objects found =
    add_linked_objects result objects (links_by_object_ref result.source_ref found.seen links) found

-- an object that a result relates to by two refs: that of the result, and one of the object
unfoldable pub add_at : String → ℕ → String → String → Option CanonicalObjectRow → Found → Found
add_at relationship confidence result_ref ref none found = found
add_at relationship confidence result_ref ref (some o) found =
    add_found ref (related_object o relationship (result_ref ∷ ref ∷ []) confidence) found

-- `_add_project_related_object`
unfoldable pub add_project :
    SearchResult → SourceRecordRow → Dict CanonicalObjectRow → Found → Found
unfolding add_at
add_project result source objects found =
    let project_id = text_of (get_field source.metadata_json "project_id") in
    let ref = concat (source.source_system ∷ ":project:" ∷ project_id ∷ []) in
    if project_id == ""
    then found
    else if (ref == result.source_ref) || contains found.seen ref
    then found
    else add_at "same project" 85 result.source_ref ref (get objects ref) found

-- one record of a thread
unfoldable pub add_thread_record :
    List String → SearchResult → Dict CanonicalObjectRow → SourceRecordRow → Found → Found
unfolding add_at
add_thread_record evidence_refs result objects candidate found =
    if contains evidence_refs candidate.source_ref || contains found.seen candidate.source_ref
    then found
    else add_at "same thread" 90 result.source_ref candidate.source_ref
        (get objects candidate.source_ref) found

-- the loop over the records of a thread
unfoldable pub add_thread :
    List String → SearchResult → Dict CanonicalObjectRow → List SourceRecordRow → Found → Found
unfolding add_thread_record
add_thread evidence_refs result objects [] found = found
add_thread evidence_refs result objects (candidate ∷ rest) found =
    add_thread evidence_refs result objects rest
      (add_thread_record evidence_refs result objects candidate found)

-- what follows for a result once its source is found
unfoldable pub add_of_source :
    List String
    → List SourceRecordRow
    → Dict CanonicalObjectRow
    → SearchResult
    → Option SourceRecordRow
    → Found
    → Found
unfolding add_project add_thread records_of_thread
add_of_source evidence_refs rows objects result none found = found
add_of_source evidence_refs rows objects result (some source) found =
    let with_project = add_project result source objects found in
    if source.thread_ref == ""
    then with_project
    else add_thread evidence_refs result objects (records_of_thread rows source.thread_ref)
        with_project

unfoldable pub add_results :
    List String
    → List SourceRecordRow
    → Dict CanonicalObjectRow
    → List EntityLinkRow
    → List SearchResult
    → Found
    → Found
unfolding add_linked_entities add_of_source links_of source_record_for_ref
add_results evidence_refs rows objects links [] found = found
add_results evidence_refs rows objects links (result ∷ rest) found =
    add_results evidence_refs rows objects links rest (
      add_of_source evidence_refs rows objects result (source_record_for_ref rows result.source_ref)
        (add_linked_entities result (links_of links result.source_ref) objects found))

-- `_related_objects`
unfoldable pub related_objects :
    List SearchResult
    → List SourceRecordRow
    → Dict CanonicalObjectRow
    → List EntityLinkRow
    → List RelatedObject
unfolding add_results
related_objects results rows objects links =
    take 5
      (add_results (map (λ r. r.source_ref) results) rows objects links results
        (record { related = []; seen = [] })).related
