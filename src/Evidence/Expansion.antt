-- ===== src/Evidence/Expansion.antt =====
-- retrieval/evidence_pack.py, `_related_objects`: the related objects against the dictionary of the
-- visible objects.
use ok.Prelude.{
  ℕ, ◌≤◌, String, ◌≡◌, refl, inl, inr, ◌||◌, List, [], ◌∷◌, map, Option, none, some, arith, ◌==◌,
  contains, length, length-take, All, All-append, All-take, Bool-cases, Dict, get, Values,
  get-Values, concat,
}
use ok.Json.{get_field, text_of}
use ok.Storage.{SourceRecordRow, CanonicalObjectRow, EntityLinkRow}
use ok.Search.Snippets.{SearchResult}
use ok.Evidence.Objects.{links_of, records_of_thread, source_record_for_ref}
use ok.Evidence.Related.{
  RelatedObject, Found, related_object, add_found, add_linked_object, add_linked_objects,
  links_by_object_ref, add_linked_entities, add_at, add_project, add_thread_record, add_thread,
  add_of_source, add_results, related_objects,
}

-- an object that satisfies the predicate, and shows its ref, its type and its title
abbrev pub Shows : (CanonicalObjectRow → Type 0) → String → String → String → Type 0
Shows P ref type title =
    (o : CanonicalObjectRow) × P o
    × (ref ≡ o.object_ref)
    × (type ≡ o.object_type)
    × (title ≡ o.title)

module _ (P : CanonicalObjectRow → Type 0) where
  abbrev pub ShownItem : RelatedObject → Type 0
  ShownItem item = Shows P item.object_ref item.object_type item.title

  abbrev AllShown : Found → Type 0
  AllShown found = All ShownItem found.related

  add_found-AllShown :
      (ref relationship : String) (o : CanonicalObjectRow) (refs : List String) (confidence : ℕ)
      (found : Found)
      → P o
      → AllShown found
      → AllShown (add_found ref (related_object o relationship refs confidence) found)
  add_found-AllShown ref relationship o refs confidence found p h =
      All-append ShownItem found.related _ h ((o, p, refl, refl, refl), tt)

  module _ (objects : Dict CanonicalObjectRow) (hs : Values P objects) where
    add_linked_object-AllShown :
        (result : SearchResult) (ref : String) (links : List EntityLinkRow)
        (o : Option CanonicalObjectRow) (found : Found)
        → get objects ref ≡ o
        → AllShown found
        → AllShown (add_linked_object result ref links o found)
    unfolding add_linked_object
    add_linked_object-AllShown result ref links none found e h = h
    add_linked_object-AllShown result ref links (some o) found e h =
        add_found-AllShown ref _ o _ _ found (get-Values P ref objects hs e) h

    add_linked_objects-AllShown :
        (result : SearchResult) (groups : List (String × List EntityLinkRow)) (found : Found)
        → AllShown found
        → AllShown (add_linked_objects result objects groups found)
    unfolding add_linked_objects
    add_linked_objects-AllShown result [] found h = h
    add_linked_objects-AllShown result ((ref, links) ∷ groups) found h =
        add_linked_objects-AllShown result groups
          (add_linked_object result ref links (get objects ref) found)
          (add_linked_object-AllShown result ref links (get objects ref) found refl h)

    add_at-AllShown :
        (relationship : String) (confidence : ℕ) (result_ref ref : String)
        (o : Option CanonicalObjectRow) (found : Found)
        → get objects ref ≡ o
        → AllShown found
        → AllShown (add_at relationship confidence result_ref ref o found)
    unfolding add_at
    add_at-AllShown relationship confidence result_ref ref none found e h = h
    add_at-AllShown relationship confidence result_ref ref (some o) found e h =
        add_found-AllShown ref relationship o _ confidence found (get-Values P ref objects hs e) h

    add_project-AllShown :
        (result : SearchResult) (source : SourceRecordRow) (found : Found)
        → AllShown found
        → AllShown (add_project result source objects found)
    unfolding add_project
    add_project-AllShown result source found h =
        let project_id = text_of (get_field source.metadata_json "project_id") in
        let ref : String = concat (source.source_system ∷ ":project:" ∷ project_id ∷ []) in
        elim (Bool-cases (project_id == "")) [
          | inl e ↦ rw e h
          | inr e ↦ elim (Bool-cases ((ref == result.source_ref) || contains found.seen ref)) [
            | inl skip ↦ rw (e, skip) h
            | inr new ↦
                rw (e, new)
                  (add_at-AllShown "same project" 85 result.source_ref ref (get objects ref) found
                    refl h)
          ]
        ]

    add_thread_record-AllShown :
        (evidence_refs : List String) (result : SearchResult) (row : SourceRecordRow)
        (found : Found)
        → AllShown found
        → AllShown (add_thread_record evidence_refs result objects row found)
    unfolding add_thread_record
    add_thread_record-AllShown evidence_refs result row found h =
        elim (Bool-cases
          (contains evidence_refs row.source_ref || contains found.seen row.source_ref)) [
            | inl skip ↦ rw skip h
            | inr new ↦ rw new (
                add_at-AllShown "same thread" 90 result.source_ref row.source_ref
                  (get objects row.source_ref) found refl h)
          ]

    add_thread-AllShown :
        (evidence_refs : List String) (result : SearchResult) (rows : List SourceRecordRow)
        (found : Found)
        → AllShown found
        → AllShown (add_thread evidence_refs result objects rows found)
    unfolding add_thread
    add_thread-AllShown evidence_refs result [] found h = h
    add_thread-AllShown evidence_refs result (row ∷ rows) found h =
        add_thread-AllShown evidence_refs result rows
          (add_thread_record evidence_refs result objects row found)
          (add_thread_record-AllShown evidence_refs result row found h)

    add_of_source-AllShown :
        (evidence_refs : List String) (rows : List SourceRecordRow) (result : SearchResult)
        (source : Option SourceRecordRow) (found : Found)
        → AllShown found
        → AllShown (add_of_source evidence_refs rows objects result source found)
    unfolding add_of_source
    add_of_source-AllShown evidence_refs rows result none found h = h
    add_of_source-AllShown evidence_refs rows result (some source) found h =
        let with_project = add_project-AllShown result source found h in
        elim (Bool-cases (source.thread_ref == "")) [
          | inl e ↦ rw e with_project
          | inr e ↦ rw e (
              add_thread-AllShown evidence_refs result (records_of_thread rows source.thread_ref)
                (add_project result source objects found) with_project)
        ]

    add_results-AllShown :
        (evidence_refs : List String) (rows : List SourceRecordRow) (links : List EntityLinkRow)
        (results : List SearchResult) (found : Found)
        → AllShown found
        → AllShown (add_results evidence_refs rows objects links results found)
    unfolding add_results add_linked_entities
    add_results-AllShown evidence_refs rows links [] found h = h
    add_results-AllShown evidence_refs rows links (result ∷ results) found h =
        add_results-AllShown evidence_refs rows links results _ (
          add_of_source-AllShown evidence_refs rows result
            (source_record_for_ref rows result.source_ref) _
            (add_linked_objects-AllShown result
              (links_by_object_ref result.source_ref found.seen (links_of links result.source_ref))
              found h))

    -- the related objects are of the dictionary, and there are at most five
    pub related_objects-Shown :
        (results : List SearchResult) (rows : List SourceRecordRow) (links : List EntityLinkRow)
        → All ShownItem (related_objects results rows objects links)
          × (length (related_objects results rows objects links) ≤ 5)
    unfolding related_objects
    related_objects-Shown results rows links = (
      All-take ShownItem 5 _ (add_results-AllShown _ rows links results _ tt),
      omega (
        arith,
        length-take 5
            (add_results (map (λ (r : SearchResult). r.source_ref) results) rows objects links
              results (record { related = []; seen = [] })).related,
      ),
    )
