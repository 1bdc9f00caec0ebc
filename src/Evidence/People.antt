-- ===== src/Evidence/People.antt =====
-- retrieval/evidence_pack.py: the people that a first name of the query may mean.
use Prim.Native.Char.{code}
use ok.Prelude.{
  ℕ, String, Bool, not, ◌&&◌, ◌||◌, List, [], ◌∷◌, ◌++◌, Option, none, some, ◌==◌, ltb, eqb, leb,
  length, take, any, contains, concat, join, is_part, select_where, lt_text, Dict, get, put, values,
  sort_by, if◌then◌else◌,
}
use ok.Json.{get_field, text_of}
use ok.Storage.{CanonicalObjectRow, Environment}
use ok.Evidence.Objects.{decoded_list}

-- one of `[a-z0-9]`
abbrev pub is_term_char : ℕ → Bool
is_term_char c = (leb 97 c && leb c 122) || (leb 48 c && leb c 57)

abbrev pub push_front : String → List String → List String
push_front c [] = c ∷ []
push_front c (w ∷ ws) = concat (c ∷ w ∷ []) ∷ ws

unfoldable pub term_runs : String → List String
term_runs String.[] = "" ∷ []
term_runs (String.◌∷◌ c s) =
    let rest = term_runs s in
    if is_term_char (code c) then push_front (String.◌∷◌ c "") rest else "" ∷ rest

module _ (env : Environment) where
  -- `_text_terms`
  unfoldable pub text_terms : String → List String
  unfolding term_runs
  text_terms value = select_where (λ w. not (w == "")) (term_runs (env.casefold value))

  -- `_person_dedupe_key`
  unfoldable pub person_dedupe_key : CanonicalObjectRow → String
  person_dedupe_key o =
      let email = text_of (get_field o.metadata_json "email") in
      if email == "" then o.object_ref else concat ("email:" ∷ env.casefold email ∷ [])

-- `source_priority`
unfoldable pub source_priority : String → ℕ
source_priority system =
    if system == "linear"
    then 0
    else if system == "twenty"
    then 1
    else if system == "slack"
    then 2
    else 99

-- `_person_preference_key`, and whether the key of one person is less than that of another
unfoldable pub preferred_before : CanonicalObjectRow → CanonicalObjectRow → Bool
unfolding source_priority lt_text
preferred_before a b =
    let pa = source_priority (text_of (get_field a.metadata_json "source_system")) in
    let pb = source_priority (text_of (get_field b.metadata_json "source_system")) in
    if eqb pa pb then lt_text a.object_ref b.object_ref else ltb pa pb

-- `_preferred_person`
unfoldable pub preferred_person :
    Option CanonicalObjectRow → CanonicalObjectRow → CanonicalObjectRow
unfolding preferred_before
preferred_person none candidate = candidate
preferred_person (some current) candidate =
    if preferred_before candidate current then candidate else current

-- `people_by_first_name` and `first_names_with_full_match`
pub record People : Type 0 where
  pub by_first_name : Dict (Dict CanonicalObjectRow)
  pub full_matches : List String

abbrev pub people_at : Option (Dict CanonicalObjectRow) → Dict CanonicalObjectRow
people_at none = []
people_at (some d) = d

module _ (env : Environment) where
  unfoldable pub put_person : String → CanonicalObjectRow → People → People
  unfolding person_dedupe_key preferred_person
  put_person first_name o p =
      let by_key = people_at (get p.by_first_name first_name) in
      let key = person_dedupe_key env o in
      record p {
        by_first_name =
            put first_name (put key (preferred_person (get by_key key) o) by_key) p.by_first_name;
      }

  -- a person by the terms of the name: a name of one term is passed over
  unfoldable pub visit_named : List String → CanonicalObjectRow → List String → People → People
  unfolding put_person is_part join
  visit_named query_terms o [] p = p
  visit_named query_terms o (first ∷ []) p = p
  visit_named query_terms o (first ∷ second ∷ rest) p =
      if is_part (join " " (first ∷ second ∷ rest)) (join " " query_terms)
      then record p { full_matches = first ∷ p.full_matches }
      else if contains query_terms first
      then put_person first o p
      else p

  -- whether an object is a person with a visible source
  abbrev pub is_visible_person : List String → CanonicalObjectRow → Bool
  is_visible_person visible o =
      (o.object_type == "Person") && any (λ ref. contains visible ref) (decoded_list o.source_refs)

  -- one round of the loop over the objects
  unfoldable pub visit_object : List String → List String → CanonicalObjectRow → People → People
  unfolding visit_named text_terms decoded_list
  visit_object query_terms visible o p =
      if is_visible_person visible o
      then visit_named query_terms o (text_terms env o.title) p
      else p

  unfoldable pub visit_people :
      List String → List String → List CanonicalObjectRow → People → People
  unfolding visit_object
  visit_people query_terms visible [] p = p
  visit_people query_terms visible (o ∷ rest) p =
      visit_people query_terms visible rest (visit_object query_terms visible o p)

pub record UnresolvedCandidate : Type 0 where
  pub candidate_ref : String
  pub object_ref : String
  pub object_type : String
  pub display_name : String
  pub matched_text : String
  pub confidence : ℕ
  pub reason : String
  pub status : String

abbrev pub unresolved_candidate : String → CanonicalObjectRow → UnresolvedCandidate
unresolved_candidate matched_text person = record {
  candidate_ref = concat ("candidate:person:" ∷ matched_text ∷ ":" ∷ person.object_ref ∷ []);
  object_ref = person.object_ref;
  object_type = "Person";
  display_name = person.title;
  matched_text = matched_text;
  confidence = 50;
  reason = "ambiguous_visible_person_name";
  status = "unresolved";
}

unfoldable pub candidates_of : String → List CanonicalObjectRow → List UnresolvedCandidate
candidates_of matched_text [] = []
candidates_of matched_text (person ∷ rest) =
    unresolved_candidate matched_text person ∷ candidates_of matched_text rest

-- the people of one first name, where there are two or more and none has a full match
unfoldable pub ambiguous : List String → String → List CanonicalObjectRow → List UnresolvedCandidate
unfolding candidates_of sort_by lt_text
ambiguous full_matches matched_text people =
    if contains full_matches matched_text
    then []
    else if ltb (length people) 2
    then []
    else candidates_of matched_text (sort_by (λ a b. lt_text a.object_ref b.object_ref) people)

unfoldable pub all_ambiguous :
    List String → Dict (Dict CanonicalObjectRow) → List UnresolvedCandidate
unfolding ambiguous
all_ambiguous full_matches [] = []
all_ambiguous full_matches ((name, people) ∷ rest) =
    ambiguous full_matches name (values people) ++ all_ambiguous full_matches rest

abbrev no_people : People
no_people = record { by_first_name = []; full_matches = [] }

abbrev resolve : People → List UnresolvedCandidate
resolve p =
    take 10 (all_ambiguous p.full_matches (sort_by (λ a b. lt_text a.0 b.0) p.by_first_name))

-- `_unresolved_candidates`, over the terms of the query
unfoldable pub unresolved_of_terms :
    Environment → List String → List CanonicalObjectRow → List String → List UnresolvedCandidate
unfolding visit_people all_ambiguous sort_by lt_text
unresolved_of_terms env visible objects [] = []
unresolved_of_terms env visible objects (term ∷ terms) =
    resolve (visit_people env (term ∷ terms) visible objects no_people)

unfoldable pub unresolved_candidates :
    Environment → String → List CanonicalObjectRow → List String → List UnresolvedCandidate
unfolding unresolved_of_terms text_terms
unresolved_candidates env query objects visible =
    unresolved_of_terms env visible objects (text_terms env query)
