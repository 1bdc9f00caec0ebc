-- ===== src/Evidence/Entities.antt =====
-- retrieval/evidence_pack.py: the entities that the links of the results name.
use ok.Prelude.{
  ℕ, max, String, List, [], ◌∷◌, ◌++◌, Option, none, some, ◌==◌, contains, Dict, get, put, values,
  if◌then◌else◌,
}
use ok.Storage.{CanonicalObjectRow, EntityLinkRow}
use ok.Search.Snippets.{SearchResult}
use ok.Evidence.Objects.{entity_ref, links_of}

pub record Entity : Type 0 where
  pub entity_ref : String
  pub object_ref : String
  pub display_name : String
  pub source_refs : List String
  pub relationship_types : List String
  pub confidence : ℕ
  pub reason : String
  pub status : String

-- `_display_name`
unfoldable pub display_name : Dict CanonicalObjectRow → EntityLinkRow → String
display_name objects link = elim (get objects link.object_ref) [ none ↦ "" | some o ↦ o.title ]

-- `if x not in xs: xs.append(x)`
abbrev pub append_new : String → List String → List String
append_new x xs = if contains xs x then xs else xs ++ x ∷ []

-- the entity of a link that names it first
abbrev pub new_entity : Dict CanonicalObjectRow → EntityLinkRow → Entity
new_entity objects link = record {
  entity_ref = entity_ref link;
  object_ref = link.object_ref;
  display_name = display_name objects link;
  source_refs = [];
  relationship_types = [];
  confidence = link.confidence;
  reason = link.reason;
  status = link.status;
}

abbrev pub add_link : String → EntityLinkRow → Entity → Entity
add_link ref link e = record e {
  source_refs = append_new ref e.source_refs;
  relationship_types = append_new link.relationship_type e.relationship_types;
  confidence = max e.confidence link.confidence;
}

-- `entities_by_ref.setdefault`, and the changes to the entity that it gives
abbrev pub found_or_new : Dict CanonicalObjectRow → EntityLinkRow → Option Entity → Entity
found_or_new objects link none = new_entity objects link
found_or_new objects link (some e) = e

unfoldable pub put_link :
    Dict CanonicalObjectRow → String → EntityLinkRow → Dict Entity → Dict Entity
unfolding entity_ref display_name
put_link objects ref link d =
    let name = entity_ref link in
    if name == ""
    then d
    else put name (add_link ref link (found_or_new objects link (get d name))) d

unfoldable pub put_links :
    Dict CanonicalObjectRow → String → List EntityLinkRow → Dict Entity → Dict Entity
unfolding put_link
put_links objects ref [] d = d
put_links objects ref (link ∷ links) d = put_links objects ref links (put_link objects ref link d)

unfoldable pub put_results :
    Dict CanonicalObjectRow → List EntityLinkRow → List SearchResult → Dict Entity → Dict Entity
unfolding put_links links_of
put_results objects links [] d = d
put_results objects links (result ∷ rest) d =
    put_results objects links rest
      (put_links objects result.source_ref (links_of links result.source_ref) d)

-- `_entities`
unfoldable pub entities :
    List SearchResult → List EntityLinkRow → Dict CanonicalObjectRow → List Entity
unfolding put_results
entities results links objects = values (put_results objects links results [])

-- `_entity_refs`: each entity once, in the order of the links
unfoldable pub entity_refs : List String → List EntityLinkRow → List String
unfolding entity_ref
entity_refs found [] = found
entity_refs found (link ∷ links) =
    entity_refs (if entity_ref link == "" then found else append_new (entity_ref link) found) links
