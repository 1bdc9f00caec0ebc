-- ===== src/Evidence.antt =====
-- retrieval/evidence_pack.py: the evidence pack of a search, from the results, the visible source
-- records, the canonical objects and the entity links.
pub mod Objects
pub mod Related
pub mod Buckets
pub mod Entities
pub mod People
pub mod Sourced
pub mod Expansion
pub mod Ambiguity
pub mod Grouped
pub mod Named
pub mod Cited
pub mod Pack
use ok.Prelude.{
  ℕ, String, Bool, true, false, List, [], ◌∷◌, map, Option, none, some, ◌==◌, eqb, length, concat,
  decimal, Dict, get, values, Result, return, raise, ◌>>=◌, if◌then◌else◌,
}
use ok.Storage.{SourceRecordRow, CanonicalObjectRow, EntityLinkRow, Environment}
use ok.Search.Snippets.{SearchResult}
use ok.Evidence.Objects.{
  json_list, decoded_list, object_by_source_ref, visible_links, links_of, source_by_ref,
}
use ok.Evidence.Related.{RelatedObject, related_objects}
use ok.Evidence.Buckets.{Groups, related_object_groups}
use ok.Evidence.Entities.{Entity, entities, entity_refs}
use ok.Evidence.People.{UnresolvedCandidate, unresolved_candidates}

-- a column of a source, and the empty text where there is none
abbrev pub column : (SourceRecordRow → String) → Option SourceRecordRow → String
column of none = ""
column of (some row) = of row

pub record ResultCandidate : Type 0 where
  pub source_ref : String
  pub title : String
  pub snippet : String
  pub timestamp : String
  pub source_url : String
  pub record_type : String
  pub source_system : String
  pub source_id : String
  pub ranking_reason : String

-- `_result_candidate`; its score is always None
unfoldable pub result_candidate : SearchResult → Option SourceRecordRow → ResultCandidate
result_candidate result source = record {
  source_ref = result.source_ref;
  title = result.subject;
  snippet = result.snippet;
  timestamp = result.date;
  source_url = column (λ row. row.source_url) source;
  record_type = column (λ row. row.record_type) source;
  source_system = column (λ row. row.source_system) source;
  source_id = column (λ row. row.source_id) source;
  ranking_reason = "keyword match in permission-filtered retrieval unit";
}

pub record EvidenceItem : Type 0 where
  pub source_ref : String
  pub source_url : String
  pub source_type : String
  pub record_type : String
  pub source_system : String
  pub source_id : String
  pub canonical_object_type : String
  pub title : String
  pub snippet : String
  pub timestamp : String
  pub updated_timestamp : String
  pub linked_entities : List String
  pub permission_refs : List String
  pub why_included : String

-- `context_object.get("object_type", "")`
abbrev pub object_type_of : Option CanonicalObjectRow → String
object_type_of none = ""
object_type_of (some o) = o.object_type

-- `_source_type`
unfoldable pub source_type : String → Option CanonicalObjectRow → String
source_type record_type context_object =
    if object_type_of context_object == "" then record_type else object_type_of context_object

abbrev pub permission_refs_of : Option SourceRecordRow → Result (List String)
permission_refs_of none = return []
permission_refs_of (some row) = json_list row.permission_refs

-- `_evidence_item`; its score is always None
unfoldable pub evidence_item :
    Dict CanonicalObjectRow
    → List EntityLinkRow
    → SearchResult
    → Option SourceRecordRow
    → Result EvidenceItem
unfolding json_list source_type entity_refs links_of
evidence_item objects links result source = permission_refs_of source >>= λ refs. return (record {
  source_ref = result.source_ref;
  source_url = column (λ row. row.source_url) source;
  source_type =
      source_type (column (λ row. row.record_type) source) (get objects result.source_ref);
  record_type = column (λ row. row.record_type) source;
  source_system = column (λ row. row.source_system) source;
  source_id = column (λ row. row.source_id) source;
  canonical_object_type = object_type_of (get objects result.source_ref);
  title = result.subject;
  snippet = result.snippet;
  timestamp = result.date;
  updated_timestamp = column (λ row. row.updated_at) source;
  linked_entities = entity_refs [] (links_of links result.source_ref);
  permission_refs = refs;
  why_included = "matched permission-filtered retrieval text";
})

unfoldable pub evidence_items :
    Dict SourceRecordRow
    → Dict CanonicalObjectRow
    → List EntityLinkRow
    → List SearchResult
    → Result (List EvidenceItem)
unfolding evidence_item
evidence_items sources objects links [] = return []
evidence_items sources objects links (result ∷ rest) =
    evidence_item objects links result (get sources result.source_ref) >>= λ item.
    evidence_items sources objects links rest >>= λ items. return (item ∷ items)

pub record PrimaryObject : Type 0 where
  pub object_ref : String
  pub object_type : String
  pub title : String
  pub source_refs : List String
  pub why_primary : String
  pub confidence : ℕ

-- `_primary_object`, with the confidence 1.0 in hundredths
unfoldable pub primary_object : SearchResult → CanonicalObjectRow → PrimaryObject
unfolding decoded_list
primary_object result o = record {
  object_ref = o.object_ref;
  object_type = o.object_type;
  title = result.subject;
  source_refs = decoded_list o.source_refs;
  why_primary = "matched evidence source";
  confidence = 100;
}

unfoldable pub primary_objects : Dict CanonicalObjectRow → List SearchResult → List PrimaryObject
unfolding primary_object
primary_objects objects [] = []
primary_objects objects (result ∷ rest) =
    let others = primary_objects objects rest in
    elim (get objects result.source_ref) [
      | none ↦ others
      | some o ↦ primary_object result o ∷ others
    ]

pub record EvidencePack : Type 0 where
  pub query : String
  pub summary : String
  pub result_candidates : List ResultCandidate
  pub evidence_items : List EvidenceItem
  pub primary_objects : List PrimaryObject
  pub related_objects : List RelatedObject
  pub related_object_groups : Groups
  pub entities : List Entity
  pub unresolved_candidates : List UnresolvedCandidate
  pub limitations : List String

-- `_summary`
unfoldable pub summary : List SearchResult → String
unfolding decimal
summary results =
    if eqb (length results) 1
    then "1 evidence item"
    else concat (decimal (length results) ∷ " evidence items" ∷ [])

-- `_limitations`
abbrev limitations : List String
limitations = "related object expansion is limited to source-backed entity links and threads" ∷ []

-- the refs of the objects that have a visible source
abbrev pub visible_object_refs : Dict CanonicalObjectRow → List String
visible_object_refs objects = map (λ o. o.object_ref) (values objects)

-- the pack, from the dictionary of the visible objects and the links between what is visible
unfoldable pub pack_of :
    Environment
    → String
    → List SearchResult
    → List SourceRecordRow
    → List CanonicalObjectRow
    → Dict CanonicalObjectRow
    → List EntityLinkRow
    → Result EvidencePack
unfolding summary result_candidate evidence_items primary_objects related_objects
    related_object_groups entities unresolved_candidates source_by_ref
pack_of env query results rows canonical_objects objects links =
    evidence_items (source_by_ref rows) objects links results >>= λ items.
    let related = related_objects results rows objects links in
    return (record {
      query = query;
      summary = summary results;
      result_candidates =
          map (λ r. result_candidate r (get (source_by_ref rows) r.source_ref)) results;
      evidence_items = items;
      primary_objects = primary_objects objects results;
      related_objects = related;
      related_object_groups = related_object_groups related;
      entities = entities results links objects;
      unresolved_candidates =
          unresolved_candidates env query canonical_objects (map (λ row. row.source_ref) rows);
      limitations = limitations;
    })

-- `build_evidence_pack`
unfoldable pub build_evidence_pack :
    Environment
    → String
    → List SearchResult
    → List SourceRecordRow
    → List CanonicalObjectRow
    → List EntityLinkRow
    → Result EvidencePack
unfolding object_by_source_ref visible_links pack_of
build_evidence_pack env query results rows canonical_objects entity_links =
    let visible = map (λ (row : SourceRecordRow). row.source_ref) rows in
    object_by_source_ref visible [] canonical_objects >>= λ objects.
    pack_of env query results rows canonical_objects objects
      (visible_links visible (visible_object_refs objects) entity_links)
