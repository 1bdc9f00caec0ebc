-- ===== src/Augmentation/Related.antt =====
-- retrieval/augmentation.py: the follow-up hints.
use ok.Prelude.{
  ℕ, suc, max, String, Bool, true, false, not, ◌&&◌, ◌||◌, List, [], ◌∷◌, ◌++◌, map, Option, none,
  some, ◌==◌, leb, length, take, any, contains, concat, lt_text, Dict, get, sort_by, ◌or◌,
  if◌then◌else◌,
}
use ok.Storage.{SourceRecordRow, CanonicalObjectRow, EntityLinkRow, Environment}
use ok.Augmentation.Python.{Floats, least}
use ok.Augmentation.Candidates.{is_current_link, graph_link_count, graph_link_boost}
use ok.Augmentation.Rerank.{RetrievalCandidate}
use ok.Augmentation.Contexts.{thread_ref_of, selected_by_related}

-- `_direct_graph_neighbors`: whether a current link joins two sources
unfoldable pub are_neighbors : Option (List EntityLinkRow) → String → String → Bool
are_neighbors none a b = false
are_neighbors (some links) a b =
    any
      (λ link.
        is_current_link link
        && (((link.source_ref == a) && (link.object_ref == b))
            || ((link.source_ref == b) && (link.object_ref == a))))
      links

abbrev pub link_count_of : Option (List EntityLinkRow) → String → ℕ
link_count_of none ref = 0
link_count_of (some links) ref = graph_link_count links ref

module _ {F : Type 0} (num : Floats F) where
  pub record RelatedFollowUpHint : Type 0 where
    pub topic : String
    pub reason : String
    pub source_ref : String
    pub related_source_ref : String
    pub source_system : String
    pub record_type : String
    pub suggested_follow_up_query : String
    pub strength : F

  -- `_related_follow_up_strength`
  unfoldable pub related_follow_up_strength : ℕ → ℕ → F
  unfolding graph_link_boost
  related_follow_up_strength rank count = num.round 3 (
      least num (num.lit "1.0") (
        num.plus (num.plus (num.lit "0.35") (num.inverse (max rank 1)))
          (graph_link_boost num count)))

  -- `_related_follow_up_reason`
  unfoldable pub related_follow_up_reason : List SourceRecordRow → String → String → String
  unfolding thread_ref_of
  related_follow_up_reason rows ref related =
      let thread = thread_ref_of rows ref in
      if not (thread == "") && (thread == thread_ref_of rows related)
      then concat ("related by thread to selected evidence " ∷ related ∷ [])
      else concat ("directly related to selected evidence " ∷ related ∷ [])

  unfoldable pub follow_up_hint :
      List SourceRecordRow
      → Option (List EntityLinkRow)
      → ℕ
      → RetrievalCandidate num
      → String
      → RelatedFollowUpHint
  unfolding related_follow_up_reason related_follow_up_strength graph_link_count
  follow_up_hint rows links rank result related = record {
    topic = result.title or result.source_ref;
    reason = related_follow_up_reason rows result.source_ref related;
    source_ref = result.source_ref;
    related_source_ref = related;
    source_system = result.source_system;
    record_type = result.record_type;
    suggested_follow_up_query = result.title or result.source_ref;
    strength = related_follow_up_strength rank (link_count_of links result.source_ref);
  }

  -- what the loop has emitted: the hints, their refs, and the threads of these
  pub record Emitted : Type 0 where
    pub hints : List RelatedFollowUpHint
    pub refs : List String
    pub clusters : List String

  -- a result that is skipped: its thread is there already, or a neighbor of it
  abbrev pub is_crowded :
      List SourceRecordRow → Option (List EntityLinkRow) → String → Emitted → Bool
  is_crowded rows links ref e =
      (not (thread_ref_of rows ref == "") && contains e.clusters (thread_ref_of rows ref))
      || any (are_neighbors links ref) e.refs

  -- a result that is related to a selected source
  unfoldable pub emit_related :
      List SourceRecordRow
      → Option (List EntityLinkRow)
      → ℕ
      → RetrievalCandidate num
      → Option String
      → Emitted
      → Emitted
  unfolding follow_up_hint thread_ref_of are_neighbors
  emit_related rows links rank result none e = e
  emit_related rows links rank result (some related) e =
      if is_crowded rows links result.source_ref e then e else record {
        hints = e.hints ++ follow_up_hint rows links rank result related ∷ [];
        refs = result.source_ref ∷ e.refs;
        clusters =
            if thread_ref_of rows result.source_ref == ""
            then e.clusters
            else thread_ref_of rows result.source_ref ∷ e.clusters;
      }

  -- one round of the loop
  unfoldable pub emit_hint :
      List SourceRecordRow
      → Option (List EntityLinkRow)
      → List String
      → Dict String
      → ℕ
      → RetrievalCandidate num
      → Emitted
      → Emitted
  unfolding emit_related
  emit_hint rows links selected related rank result e =
      if contains selected result.source_ref || contains e.refs result.source_ref
      then e
      else emit_related rows links rank result (get related result.source_ref) e

  -- the loop over the ranked results, which ends at five hints
  unfoldable pub emit_hints :
      List SourceRecordRow
      → Option (List EntityLinkRow)
      → List String
      → Dict String
      → ℕ
      → List (RetrievalCandidate num)
      → Emitted
      → Emitted
  unfolding emit_hint
  emit_hints rows links selected related rank [] e = e
  emit_hints rows links selected related rank (result ∷ rest) e =
      let next = emit_hint rows links selected related rank result e in
      let more = emit_hints rows links selected related (suc rank) rest next in
      if leb 5 (length next.hints) then next else more

  -- the key `(-strength, topic.casefold())`
  abbrev pub hint_before : Environment → RelatedFollowUpHint → RelatedFollowUpHint → Bool
  hint_before env a b =
      if num.less b.strength a.strength
      then true
      else if num.less a.strength b.strength
      then false
      else lt_text (env.casefold a.topic) (env.casefold b.topic)

  -- `_related_follow_up_hints`: without results nothing is related, and no hint is found
  unfoldable pub related_follow_up_hints :
      Environment
      → List SourceRecordRow
      → Option (List CanonicalObjectRow)
      → Option (List EntityLinkRow)
      → List (RetrievalCandidate num)
      → List (RetrievalCandidate num)
      → List RelatedFollowUpHint
  unfolding emit_hints selected_by_related sort_by lt_text
  related_follow_up_hints env rows objects links ranked selected =
      let refs = map (λ (r : RetrievalCandidate num). r.source_ref) selected in
      take 5 (
        sort_by (hint_before env)
          (emit_hints rows links refs (selected_by_related rows objects links refs refs []) 1 ranked
            (record { hints = []; refs = []; clusters = [] })).hints)
