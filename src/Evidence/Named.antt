-- ===== src/Evidence/Named.antt =====
-- retrieval/evidence_pack.py: the primary objects and the entities against the objects.
use ok.Prelude.{
  String, ◌≡◌, refl, sym, ◌⊎◌, inl, inr, true, List, [], ◌∷◌, map, Option, none, some, arith,
  eq_iff, ◌==◌, contains, All, All-mono, All-selected, All-sort_by, Bool-cases, Option-cases, Dict,
  get, values, Values, put-Values, get-Values, values-All, group_by, group_by-Values, group_at-All,
}
use ok.Storage.{CanonicalObjectRow, EntityLinkRow}
use ok.Search.Snippets.{SearchResult}
use ok.Evidence.{PrimaryObject, primary_object, primary_objects, visible_object_refs}
use ok.Evidence.Objects.{entity_ref, decoded_list, visible_links, links_of}
use ok.Evidence.Entities.{
  Entity, display_name, add_link, found_or_new, put_link, put_links, put_results, entities,
}

-- A primary item shows the ref, the type and all source refs of an object, and the subject of a
-- result as its title.
pub record ShownPrimary (P : CanonicalObjectRow → Type 0) (Q : SearchResult → Type 0)
    (item : PrimaryObject) : Type 0 where
  pub object : CanonicalObjectRow
  pub is_object : P object
  pub object_ref : item.object_ref ≡ object.object_ref
  pub object_type : item.object_type ≡ object.object_type
  pub source_refs : item.source_refs ≡ decoded_list object.source_refs
  pub result : SearchResult
  pub is_result : Q result
  pub title : item.title ≡ result.subject

-- the title of an object, or no text
abbrev pub ShownName : (CanonicalObjectRow → Type 0) → String → Type 0
ShownName P name = (name ≡ "") ⊎ ((o : CanonicalObjectRow) × P o × (name ≡ o.title))

-- An entity has the ref of an object that it is linked to, and the title of an object or no text as
-- its name.
abbrev pub ShownEntity : (CanonicalObjectRow → Type 0) → Entity → Type 0
ShownEntity P e =
    ((o : CanonicalObjectRow) × P o × (e.object_ref ≡ o.object_ref)) × ShownName P e.display_name

module _ (P : CanonicalObjectRow → Type 0) (objects : Dict CanonicalObjectRow)
    (hs : Values P objects) where
  pub primary_objects-Shown :
      (Q : SearchResult → Type 0) (results : List SearchResult)
      → All Q results
      → All (ShownPrimary P Q) (primary_objects objects results)
  unfolding primary_objects primary_object
  primary_objects-Shown Q [] h = tt
  primary_objects-Shown Q (result ∷ results) h =
      let rest = primary_objects-Shown Q results h.1 in
      elim (Option-cases (get objects result.source_ref)) [
        | inl missing ↦ rw (primary_objects, missing) rest
        | inr (o, found) ↦
            rw (primary_objects, found)
              (
                record {
                  object = o;
                  is_object = get-Values P result.source_ref objects hs found;
                  object_ref = refl;
                  object_type = refl;
                  source_refs = refl;
                  result = result;
                  is_result = h.0;
                  title = refl;
                },
                rest,
              )
      ]

  -- a ref among those of some objects is the ref of one of them
  ref-found :
      (ref : String) (os : List CanonicalObjectRow)
      → All P os
      → contains (map (λ o. o.object_ref) os) ref ≡ true
      → (o : CanonicalObjectRow) × P o × (ref ≡ o.object_ref)
  ref-found ref [] h e = cc
  ref-found ref (o ∷ os) h e = elim (Bool-cases (o.object_ref == ref)) [
    | inl same ↦ (o, h.0, sym ((eq_iff o.object_ref ref).0 same))
    | inr differ ↦ ref-found ref os h.1 (ground (arith, e, differ))
  ]

  -- a link that leads to one of the objects
  abbrev Leads : EntityLinkRow → Type 0
  Leads link = (o : CanonicalObjectRow) × P o × (link.object_ref ≡ o.object_ref)

  visible_links-Lead :
      (refs : List String) (links : List EntityLinkRow)
      → All Leads (visible_links refs (visible_object_refs objects) links)
  unfolding visible_links
  visible_links-Lead refs links =
      All-mono _ Leads
        (λ link h.
          ref-found link.object_ref (values objects) (values-All P objects hs) (ground (arith, h)))
        _ (All-selected _ links)

  links_of-Lead :
      (links : List EntityLinkRow) (ref : String) → All Leads links → All Leads (links_of links ref)
  unfolding links_of
  links_of-Lead links ref h = All-sort_by Leads _ _ (
      group_at-All Leads (group_by (λ link. link.source_ref) [] links) ref
        (group_by-Values Leads (λ link. link.source_ref) [] links h tt))

  abbrev ShownIn : Entity → Type 0
  ShownIn = ShownEntity P

  display_name-Shown : (link : EntityLinkRow) → ShownName P (display_name objects link)
  unfolding display_name
  display_name-Shown link = elim (Option-cases (get objects link.object_ref)) [
    | inl missing ↦ rw (display_name, missing) (inl refl)
    | inr (o, found) ↦
        rw (display_name, found) (inr (o, get-Values P link.object_ref objects hs found, refl))
  ]

  found_or_new-Shown :
      (link : EntityLinkRow) (e : Option Entity)
      → Leads link
      → ((x : Entity) → e ≡ some x → ShownIn x)
      → ShownIn (found_or_new objects link e)
  found_or_new-Shown link none h hx = (h, display_name-Shown link)
  found_or_new-Shown link (some x) h hx = hx x refl

  put_link-Shown :
      (ref : String) (link : EntityLinkRow) (d : Dict Entity)
      → Leads link
      → Values ShownIn d
      → Values ShownIn (put_link objects ref link d)
  unfolding put_link
  put_link-Shown ref link d h hd = elim (Bool-cases (entity_ref link == "")) [
    | inl e ↦ rw e hd
    | inr e ↦ rw e (
        put-Values ShownIn (entity_ref link)
          (add_link ref link (found_or_new objects link (get d (entity_ref link)))) d
          (found_or_new-Shown link (get d (entity_ref link)) h
            (λ x found. get-Values ShownIn (entity_ref link) d hd found))
          hd)
  ]

  put_links-Shown :
      (ref : String) (links : List EntityLinkRow) (d : Dict Entity)
      → All Leads links
      → Values ShownIn d
      → Values ShownIn (put_links objects ref links d)
  unfolding put_links
  put_links-Shown ref [] d h hd = hd
  put_links-Shown ref (link ∷ links) d h hd =
      put_links-Shown ref links (put_link objects ref link d) h.1 (put_link-Shown ref link d h.0 hd)

  put_results-Shown :
      (links : List EntityLinkRow) (results : List SearchResult) (d : Dict Entity)
      → All Leads links
      → Values ShownIn d
      → Values ShownIn (put_results objects links results d)
  unfolding put_results
  put_results-Shown links [] d h hd = hd
  put_results-Shown links (result ∷ results) d h hd =
      put_results-Shown links results
        (put_links objects result.source_ref (links_of links result.source_ref) d) h
        (put_links-Shown result.source_ref (links_of links result.source_ref) d
          (links_of-Lead links result.source_ref h) hd)

  pub entities-Shown :
      (refs : List String) (links : List EntityLinkRow) (results : List SearchResult)
      → All ShownIn
          (entities results (visible_links refs (visible_object_refs objects) links) objects)
  unfolding entities
  entities-Shown refs links results = values-All ShownIn _ (
      put_results-Shown (visible_links refs (visible_object_refs objects) links) results []
        (visible_links-Lead refs links) tt)
