-- ===== src/Augmentation/People.antt =====
-- retrieval/augmentation.py: the people that a query may mean, and those that the results relate to.
use Prim.Native.Char.{code}
use ok.Prelude.{
  ℕ, suc, String, Bool, true, false, not, ◌&&◌, ◌||◌, List, [], ◌∷◌, ◌++◌, map, Option, none, some,
  ◌==◌, eqb, ltb, take, any, contains, concat, is_part, text_length, select_where, strip,
  starts_with, lt_text, Dict, get, put, sort_by, first, ◌or◌, if◌then◌else◌,
}
use ok.Storage.{SourceRecordRow, EntityLinkRow, Environment}
use ok.Augmentation.Python.{Floats, Library}
use ok.Augmentation.Candidates.{is_current_link}
use ok.Augmentation.Rerank.{RetrievalCandidate, every}

pub record RetrievalPerson : Type 0 where
  pub source_ref : String
  pub name : String
  pub source_system : String
  pub reason : String
  pub related_to : String

pub record RetrievalPeopleBuckets : Type 0 where
  pub possible_query_matches : List RetrievalPerson
  pub related_people : List RetrievalPerson

-- `text.lstrip("@")`
unfoldable pub lstrip_at : String → String
lstrip_at String.[] = ""
lstrip_at (String.◌∷◌ c s) =
    let rest = lstrip_at s in if eqb (code c) 64 then rest else String.◌∷◌ c s

-- the rows of people
abbrev pub person_rows : List SourceRecordRow → List SourceRecordRow
person_rows = select_where (λ row. row.record_type == "person")

-- `_people_relation_reason`
unfoldable pub people_relation_reason : String → String
people_relation_reason type =
    if type == "commenter"
    then "commented_on_same_thread"
    else if contains ("assignee" ∷ "creator" ∷ "author" ∷ "parent_work_item" ∷ []) type
    then "same_issue"
    else if contains ("project_member" ∷ "linked_project" ∷ []) type
    then "linked_project"
    else "same_issue"

module _ (env : Environment) (lib : Library) where
  -- `_query_terms`
  unfoldable pub people_terms : String → List String
  people_terms query =
      select_where (λ term. ltb 1 (text_length term)) (lib.word_runs (env.casefold query))

  -- `terms and all(term in text for term in terms)`
  abbrev all_in : List String → String → Bool
  all_in [] text = false
  all_in (t ∷ ts) text = every (λ term. is_part term text) (t ∷ ts)

  -- `_person_match_reason`
  unfoldable pub person_match_reason : String → SourceRecordRow → String
  unfolding people_terms is_part strip lstrip_at
  person_match_reason query row =
      let normalized = env.casefold (strip query) in
      let haystack =
        env.casefold (concat (row.title ∷ " " ∷ row.retrieval_text ∷ " " ∷ row.source_ref ∷ [])) in
      let terms = people_terms query in
      if is_part "@" normalized && is_part normalized haystack
      then "matched_email"
      else if starts_with normalized "@" && is_part (lstrip_at normalized) haystack
      then "matched_handle"
      else if all_in terms (env.casefold row.title) || all_in terms haystack
      then "matched_name"
      else ""

  abbrev matched_person : String → SourceRecordRow → RetrievalPerson
  matched_person query row = record {
    source_ref = row.source_ref;
    name = row.title or row.source_ref;
    source_system = row.source_system;
    reason = person_match_reason query row;
    related_to = "";
  }

  -- `_person_rows_by_ref(..., [], query=query)`: a query without terms asks for nobody, and an empty
  -- query for all
  abbrev pub asked_rows : String → List SourceRecordRow → List SourceRecordRow
  asked_rows query rows =
      if not (query == "") && not (any (λ _. true) (people_terms query))
      then []
      else person_rows rows

  -- `_direct_person_matches`
  unfoldable pub direct_person_matches : String → List SourceRecordRow → List RetrievalPerson
  unfolding person_match_reason people_terms sort_by lt_text
  direct_person_matches query rows = take 6 (
      select_where (λ p. not (p.reason == ""))
        (map (matched_person query) (
          sort_by (λ a b. lt_text (env.casefold a.title) (env.casefold b.title))
            (asked_rows query rows))))

-- how a person is related to a result
pub record Relation : Type 0 where
  pub related_to : String
  pub relationship_type : String

-- `related.setdefault(ref, relation)`, for a person that is not excluded
abbrev pub relate : List String → List String → String → Relation → Dict Relation → Dict Relation
relate people excluded ref relation d =
    if contains people ref && not (contains excluded ref)
    then elim (get d ref) [ none ↦ put ref relation d | some _ ↦ d ]
    else d

-- the two ends of a link
unfoldable pub relate_link :
    List String → List String → EntityLinkRow → Dict Relation → Dict Relation
relate_link people excluded link d =
    relate people excluded link.source_ref
      (record { related_to = link.object_ref; relationship_type = link.relationship_type })
      (relate people excluded link.object_ref
        (record { related_to = link.source_ref; relationship_type = link.relationship_type }) d)

unfoldable pub relate_links :
    List String → List String → List EntityLinkRow → Dict Relation → Dict Relation
unfolding relate_link
relate_links people excluded [] d = d
relate_links people excluded (link ∷ rest) d =
    relate_links people excluded rest (relate_link people excluded link d)

-- `_related_person_refs`: links out of the selected sources, and then links into them
unfoldable pub related_person_refs :
    List SourceRecordRow → List EntityLinkRow → List String → List String → Dict Relation
unfolding relate_links
related_person_refs rows links selected excluded =
    relate_links (map (λ row. row.source_ref) (person_rows rows)) excluded
      (select_where (λ l. is_current_link l && contains selected l.source_ref) links
        ++ select_where (λ l. is_current_link l && contains selected l.object_ref) links)
      []

-- the rank of the last result of a source, counted from a number on; 9999 if there is none
unfoldable pub rank_of :
    {F : Type 0} {num : Floats F} → ℕ → List (RetrievalCandidate num) → String → Option ℕ
rank_of rank [] ref = none
rank_of rank (r ∷ rest) ref = elim (rank_of (suc rank) rest ref) [
  | some n ↦ some n
  | none ↦ if r.source_ref == ref then some rank else none
]

abbrev rank_or : Option ℕ → ℕ
rank_or none = 9999
rank_or (some n) = n

-- the person of a ref, if the row is found
abbrev related_person : String → Relation → Option SourceRecordRow → List RetrievalPerson
related_person ref relation none = []
related_person ref relation (some row) =
    record {
      source_ref = ref;
      name = row.title or ref;
      source_system = row.source_system;
      reason = people_relation_reason relation.relationship_type;
      related_to = relation.related_to;
    }
    ∷ []

unfoldable pub related_people_of :
    List SourceRecordRow → List (String × Relation) → List RetrievalPerson
unfolding people_relation_reason
related_people_of rows [] = []
related_people_of rows ((ref, relation) ∷ rest) =
    related_person ref relation
      (first (select_where (λ row. row.source_ref == ref) (person_rows rows)))
    ++ related_people_of rows rest

module _ (env : Environment) (lib : Library) {F : Type 0} (num : Floats F) where
  -- the key `(rank_by_ref.get(ref, 9999), ref)`
  abbrev related_before :
      List (RetrievalCandidate num) → String × Relation → String × Relation → Bool
  related_before ranked a b =
      let ra = rank_or (rank_of 1 ranked a.0) in
      let rb = rank_or (rank_of 1 ranked b.0) in if eqb ra rb then lt_text a.0 b.0 else ltb ra rb

  abbrev people_of :
      List SourceRecordRow
      → List (RetrievalCandidate num)
      → List (RetrievalCandidate num)
      → List RetrievalPerson
      → Option (List EntityLinkRow)
      → RetrievalPeopleBuckets
  people_of rows ranked selected direct none = record {
    possible_query_matches = direct;
    related_people = [];
  }
  people_of rows ranked selected direct (some links) = record {
    possible_query_matches = direct;
    related_people = take 4 (
        related_people_of rows (
          sort_by (related_before ranked) (
            related_person_refs rows links (map (λ r. r.source_ref) selected)
              (map (λ p. p.source_ref) direct))));
  }

  -- `_people_buckets`
  unfoldable pub people_buckets :
      List SourceRecordRow
      → String
      → List (RetrievalCandidate num)
      → List (RetrievalCandidate num)
      → Option (List EntityLinkRow)
      → RetrievalPeopleBuckets
  unfolding direct_person_matches related_person_refs related_people_of rank_of sort_by lt_text
  people_buckets rows query ranked selected links =
      people_of rows ranked selected (direct_person_matches env lib query rows) links
