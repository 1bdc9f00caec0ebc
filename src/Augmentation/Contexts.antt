-- ===== src/Augmentation/Contexts.antt =====
-- retrieval/augmentation.py: the sources around the selected ones.
use ok.Prelude.{
  String, Bool, not, ◌&&◌, ◌||◌, List, [], ◌∷◌, ◌++◌, map, Option, none, some, ◌==◌, take, contains,
  first, select_where, lt_text, Dict, get, put, sort_by, if◌then◌else◌,
}
use ok.Storage.{SourceRecordRow, CanonicalObjectRow, EntityLinkRow}
use ok.Augmentation.Candidates.{is_current_link, json_string_tuple}

-- the thread of a stored source, or the empty text
abbrev thread_or : Option SourceRecordRow → String
thread_or none = ""
thread_or (some row) = row.thread_ref

-- `_thread_refs_for_sources(...).get(ref)`
unfoldable pub thread_ref_of : List SourceRecordRow → String → String
thread_ref_of rows ref = thread_or (first (select_where (λ row. row.source_ref == ref) rows))

-- `occurred_at DESC, source_ref`
abbrev pub latest_before : SourceRecordRow → SourceRecordRow → Bool
latest_before a b =
    if a.occurred_at == b.occurred_at
    then lt_text a.source_ref b.source_ref
    else lt_text b.occurred_at a.occurred_at

-- `_add_thread_context_source_refs`, for one seed
unfoldable pub thread_context : List SourceRecordRow → String → List String
unfolding thread_ref_of sort_by lt_text
thread_context rows seed =
    let thread = thread_ref_of rows seed in
    if thread == ""
    then []
    else take 3 (
        select_where (λ ref. not (ref == seed))
          (map (λ row. row.source_ref)
            (sort_by latest_before (
              select_where (λ row. (row.thread_ref == thread) && (row.lifecycle_state == "active"))
                rows))))

abbrev refs_or : String → List String → List String
refs_or ref [] = ref ∷ []
refs_or ref (s ∷ ss) = s ∷ ss

abbrev object_sources : String → Option CanonicalObjectRow → List String
object_sources ref none = ref ∷ []
object_sources ref (some o) = refs_or ref (json_string_tuple o.source_refs)

-- the sources of an object, or its own ref
unfoldable pub sources_of_object : List CanonicalObjectRow → String → List String
unfolding json_string_tuple
sources_of_object objects ref =
    object_sources ref (first (select_where (λ o. o.object_ref == ref) objects))

unfoldable pub outgoing_context :
    List CanonicalObjectRow → List EntityLinkRow → String → List String
unfolding sources_of_object
outgoing_context objects [] seed = []
outgoing_context objects (link ∷ rest) seed =
    let others = outgoing_context objects rest seed in
    if is_current_link link && (link.source_ref == seed) && not (link.object_ref == "")
    then sources_of_object objects link.object_ref ++ others
    else others

unfoldable pub incoming_context : List EntityLinkRow → String → List String
incoming_context links seed =
    map (λ link. link.source_ref)
      (select_where (λ link. is_current_link link && (link.object_ref == seed)) links)

-- `_add_canonical_context_source_refs`, for one seed: there may be no table of objects or of links
unfoldable pub canonical_context :
    Option (List CanonicalObjectRow) → Option (List EntityLinkRow) → String → List String
unfolding outgoing_context incoming_context
canonical_context none links seed = []
canonical_context (some objects) none seed = []
canonical_context (some objects) (some links) seed =
    incoming_context links seed ++ outgoing_context objects links seed

-- the loop that drops empty refs and those that were seen
unfoldable pub keep_new : List String → List String → List String
keep_new seen [] = []
keep_new seen (ref ∷ rest) =
    let old = (ref == "") || contains seen ref in
    let others = keep_new (if old then seen else ref ∷ seen) rest in
    if old then others else ref ∷ others

-- the refs of `_direct_context_source_ref_map` for one seed
unfoldable pub direct_context :
    List SourceRecordRow
    → Option (List CanonicalObjectRow)
    → Option (List EntityLinkRow)
    → String
    → List String
unfolding keep_new thread_context canonical_context
direct_context rows objects links seed =
    keep_new (seed ∷ []) (thread_context rows seed ++ canonical_context objects links seed)

-- `selected_ref_by_related`: the first selected source that a ref is related to
unfoldable pub add_related : List String → String → List String → Dict String → Dict String
add_related selected seed [] d = d
add_related selected seed (ref ∷ rest) d =
    add_related selected seed rest
      (if contains selected ref then d else elim (get d ref) [ none ↦ put ref seed d | some _ ↦ d ])

unfoldable pub selected_by_related :
    List SourceRecordRow
    → Option (List CanonicalObjectRow)
    → Option (List EntityLinkRow)
    → List String
    → List String
    → Dict String
    → Dict String
unfolding add_related direct_context
selected_by_related rows objects links selected [] d = d
selected_by_related rows objects links selected (seed ∷ rest) d =
    selected_by_related rows objects links selected rest
      (add_related selected seed (direct_context rows objects links seed) d)
