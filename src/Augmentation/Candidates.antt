-- ===== src/Augmentation/Candidates.antt =====
-- retrieval/augmentation.py: the candidates of a retrieval, merged from the rows of its retrievers.
use ok.Prelude.{
  ℕ, suc, ◌+◌, String, Bool, not, ◌&&◌, ◌||◌, List, [], ◌∷◌, ◌++◌, map, Option, none, some, ◌==◌,
  eqb, ltb, any, contains, concat, strip, length, first, select_where, update_where, decimal, ◌or◌,
  if◌then◌else◌,
}
use ok.Json.{Json, JsonText, arr, item_strings}
use ok.Storage.{SourceRecordRow, EntityLinkRow, Environment}
use ok.Augmentation.Python.{Floats, Library, least}
use ok.Augmentation.Vectors.{RankedRow}
use ok.Augmentation.Excerpts.{evidence_snippet}

-- `_json_string_tuple`: the texts of a JSON array that are not blank
abbrev array_strings : Json → List String
array_strings (arr xs) = item_strings xs
array_strings _ = []

abbrev text_strings : JsonText → List String
text_strings none = []
text_strings (some v) = array_strings v

unfoldable pub json_string_tuple : JsonText → List String
unfolding strip
json_string_tuple raw = select_where (λ s. not (strip s == "")) (text_strings raw)

pub record SourceInfo : Type 0 where
  pub source_system : String
  pub record_type : String
  pub retrieval_text : String
  pub permission_refs : List String

abbrev info_of : Option SourceRecordRow → SourceInfo
info_of none = record {
  source_system = "";
  record_type = "";
  retrieval_text = "";
  permission_refs = [];
}
info_of (some row) = record {
  source_system = row.source_system;
  record_type = row.record_type;
  retrieval_text = row.retrieval_text;
  permission_refs = json_string_tuple row.permission_refs;
}

-- `_metadata_by_source_ref(...).get(source_ref, {})`: an empty ref is not asked for
unfoldable pub metadata_of : List SourceRecordRow → String → SourceInfo
unfolding json_string_tuple
metadata_of rows ref =
    info_of (if ref == "" then none else first (select_where (λ row. row.source_ref == ref) rows))

module _ {F : Type 0} (num : Floats F) where
  pub record Candidate : Type 0 where
    pub source_ref : String
    pub source_system : String
    pub record_type : String
    pub title : String
    pub occurred_at : String
    pub permission_refs : List String
    pub snippet : String
    pub score : F
    pub retrievers : List String
    pub unit_index : ℕ
    pub rerank_reasons : List String

  -- whether a candidate has the key of a row
  abbrev pub has_key : RankedRow → Candidate → Bool
  has_key row c = (c.source_ref == row.source_ref) && eqb c.unit_index row.unit_index

  module _ (env : Environment) (lib : Library) where
    -- the candidate of a row whose key is new
    abbrev pub new_candidate : String → SourceInfo → RankedRow → Candidate
    new_candidate query info row = record {
      source_ref = row.source_ref;
      source_system = info.source_system;
      record_type = info.record_type;
      title = row.subject;
      occurred_at = row.date;
      permission_refs = info.permission_refs;
      snippet =
          evidence_snippet env lib (info.retrieval_text or row.body) row.subject query
            row.source_ref;
      score = num.lit "0.0";
      retrievers = [];
      unit_index = row.unit_index;
      rerank_reasons = [];
    }

    -- the score of a rank, and the retriever that gave it
    abbrev pub add_rank : String → ℕ → Candidate → Candidate
    add_rank retriever rank c = record c {
      score = num.plus c.score (num.inverse (60 + rank));
      retrievers =
          if contains c.retrievers retriever then c.retrievers else c.retrievers ++ retriever ∷ [];
    }

    -- one round of `_merge_ranked_rows`
    unfoldable pub merge_row :
        String → String → List SourceRecordRow → ℕ → RankedRow → List Candidate → List Candidate
    unfolding metadata_of evidence_snippet
    merge_row query retriever rows rank row candidates =
        if any (has_key row) candidates
        then update_where (has_key row) (add_rank retriever rank) candidates
        else candidates
          ++ add_rank retriever rank (new_candidate query (metadata_of rows row.source_ref) row)
            ∷ []

    -- `_merge_ranked_rows`, from a rank on
    unfoldable pub merge_ranked_rows :
        String
        → String
        → List SourceRecordRow
        → ℕ
        → List RankedRow
        → List Candidate
        → List Candidate
    unfolding merge_row
    merge_ranked_rows query retriever rows rank [] candidates = candidates
    merge_ranked_rows query retriever rows rank (row ∷ rest) candidates =
        merge_ranked_rows query retriever rows (suc rank) rest
          (merge_row query retriever rows rank row candidates)

-- `status IN ('linked', 'accepted')`
abbrev pub is_current_link : EntityLinkRow → Bool
is_current_link link = (link.status == "linked") || (link.status == "accepted")

-- `_graph_link_counts(...).get(ref, 0)`: links out of a source, and links into it
unfoldable pub graph_link_count : List EntityLinkRow → String → ℕ
graph_link_count links ref =
    length (select_where (λ link. is_current_link link && (link.source_ref == ref)) links)
    + length (select_where (λ link. is_current_link link && (link.object_ref == ref)) links)

module _ {F : Type 0} (num : Floats F) where
  -- `_graph_link_boost`
  unfoldable pub graph_link_boost : ℕ → F
  graph_link_boost count = least num (num.lit "0.04") (num.times (num.log1p count) (num.lit "0.01"))

  -- `_append_rerank_reason`
  abbrev pub append_rerank_reason : String → List String → List String
  append_rerank_reason reason reasons =
      if contains reasons reason then reasons else reasons ++ reason ∷ []

  unfoldable pub apply_link_count : ℕ → Candidate num → Candidate num
  unfolding graph_link_boost decimal
  apply_link_count count c =
      if ltb 0 count
      then record c {
        score = num.plus c.score (graph_link_boost count);
        rerank_reasons =
            append_rerank_reason (concat ("graph_link_count=" ∷ decimal count ∷ []))
              c.rerank_reasons;
      }
      else c

  -- `_apply_graph_link_metrics`; there may be no table of links
  unfoldable pub apply_graph_link_metrics :
      Option (List EntityLinkRow) → List (Candidate num) → List (Candidate num)
  unfolding graph_link_count apply_link_count
  apply_graph_link_metrics none candidates = candidates
  apply_graph_link_metrics (some links) candidates =
      map (λ c. apply_link_count (graph_link_count links c.source_ref) c) candidates
