-- ===== src/Resolution.antt =====
-- etl/transform/entity_resolution.py: clusters of identities, by e-mail address and by name, and
-- their counts against labels. The clusters by Splink are left out.
pub mod Coarser
use Prim.Native.Char.{Char}
use ok.Prelude.{
  ℕ, ◌+◌, ◌-◌, String, Bool, true, false, not, ◌&&◌, ◌||◌, List, [], ◌∷◌, ◌++◌, map, Option, none,
  some, ◌==◌, any, length, contains, concat, join, words, strip, select_where, lt_text, sorted_set,
  Dict, get, put, values, if◌then◌else◌,
}
use ok.Augmentation.Cards.{replace}

pub record LabeledIdentity : Type 0 where
  pub identity_ref : String
  pub source_system : String
  pub identity_type : String
  pub value : String
  pub display_name : String
  pub expected_entity : String

-- What the clusters are computed with: case folding, and whether the similarity of two names, as
-- `SequenceMatcher` measures it, reaches the threshold.
pub record Matcher : Type 0 where
  pub casefold : String → String
  pub is_similar : String → String → Bool

-- the text behind the last "@"
unfoldable pub behind_at : String → Option String
behind_at String.[] = none
behind_at (String.◌∷◌ c s) = elim (behind_at s) [
  | some rest ↦ some rest
  | none ↦ if String.◌∷◌ c String.[] == "@" then some s else none
]

-- `_merge_clusters`, on a label
abbrev pub relabelled : String → String → String → String
relabelled source target cluster = if cluster == source then target else cluster

-- `_merge_clusters`
unfoldable pub merge_clusters : String → String → Dict String → Dict String
merge_clusters source target [] = []
merge_clusters source target ((ref, cluster) ∷ rest) =
    (ref, relabelled source target cluster) ∷ merge_clusters source target rest

-- the labels of two identities, where both have one
abbrev pub merge_found : Option String → Option String → Dict String → Dict String
merge_found (some source) (some target) clusters = merge_clusters source target clusters
merge_found _ _ clusters = clusters

abbrev pub keep_found : String → Option String → Dict String → Dict String
keep_found ref none rest = rest
keep_found ref (some cluster) rest = (ref, cluster) ∷ rest

-- `{ref: clusters[ref] for ref in refs}`, where each ref has a cluster
unfoldable pub restricted_to : List String → Dict String → Dict String
unfolding get
restricted_to [] clusters = []
restricted_to (ref ∷ refs) clusters =
    keep_found ref (get clusters ref) (restricted_to refs clusters)

module _ (m : Matcher) where
  -- `exact_email_clusters`
  unfoldable pub exact_email_clusters : Dict String → List LabeledIdentity → Dict String
  unfolding put strip
  exact_email_clusters clusters [] = clusters
  exact_email_clusters clusters (identity ∷ rest) =
      exact_email_clusters
        (put identity.identity_ref
          (concat ("exact_email:" ∷ m.casefold (strip identity.value) ∷ [])) clusters)
        rest

  abbrev domain_or : Option String → String
  domain_or none = ""
  domain_or (some domain) = m.casefold domain

  -- `_email_domain`
  unfoldable pub email_domain : String → String
  unfolding behind_at
  email_domain value = domain_or (behind_at value)

  -- `_same_email_domain`
  abbrev pub same_email_domain : LabeledIdentity → LabeledIdentity → Bool
  same_email_domain left right =
      not (email_domain left.value == "") && (email_domain left.value == email_domain right.value)

  -- `_normalize_name`
  unfoldable pub normalize_name : String → String
  unfolding replace join words
  normalize_name value = join " " (words (replace "." (m.casefold value)))

  -- whether the loop merges the clusters of two identities
  unfoldable pub is_alias : LabeledIdentity → LabeledIdentity → Bool
  unfolding email_domain normalize_name lt_text
  is_alias left right =
      lt_text left.identity_ref right.identity_ref
      && same_email_domain left right
      && m.is_similar (normalize_name left.display_name) (normalize_name right.display_name)

  -- the loop over `right`
  unfoldable pub merge_aliases : LabeledIdentity → List LabeledIdentity → Dict String → Dict String
  unfolding is_alias merge_clusters get
  merge_aliases left [] clusters = clusters
  merge_aliases left (right ∷ rest) clusters = merge_aliases left rest (
      if is_alias left right
      then merge_found (get clusters right.identity_ref) (get clusters left.identity_ref) clusters
      else clusters)

  -- the loop over `left`
  unfoldable pub merge_all_aliases :
      List LabeledIdentity → List LabeledIdentity → Dict String → Dict String
  unfolding merge_aliases
  merge_all_aliases identities [] clusters = clusters
  merge_all_aliases identities (left ∷ rest) clusters =
      merge_all_aliases identities rest (merge_aliases left identities clusters)

  -- `display_name_email_alias_clusters`
  unfoldable pub display_name_email_alias_clusters : List LabeledIdentity → Dict String
  unfolding exact_email_clusters merge_all_aliases restricted_to sorted_set
  display_name_email_alias_clusters identities =
      restricted_to (sorted_set (map (λ i. i.identity_ref) identities))
        (merge_all_aliases identities identities (exact_email_clusters [] identities))

-- `expected_clusters`: the labels
unfoldable pub expected_clusters : Dict String → List LabeledIdentity → Dict String
unfolding put
expected_clusters clusters [] = clusters
expected_clusters clusters (identity ∷ rest) =
    expected_clusters (put identity.identity_ref identity.expected_entity clusters) rest

abbrev same_cluster : Dict String → String → String → Bool
same_cluster clusters a b = elim (get clusters a) [
  | none ↦ false
  | some c ↦ elim (get clusters b) [ none ↦ false | some d ↦ c == d ]
]

abbrev pairs_with : Dict String → String → List String → List (String × String)
pairs_with clusters left [] = []
pairs_with clusters left (right ∷ rest) =
    let behind = pairs_with clusters left rest in
    if same_cluster clusters left right then (left, right) ∷ behind else behind

unfoldable pub pairs_of : Dict String → List String → List (String × String)
unfolding get
pairs_of clusters [] = []
pairs_of clusters (left ∷ rest) = pairs_with clusters left rest ++ pairs_of clusters rest

abbrev keys : Dict String → List String
keys [] = []
keys ((k, v) ∷ d) = k ∷ keys d

-- `_positive_pairs`
unfoldable pub positive_pairs : Dict String → List (String × String)
unfolding pairs_of sorted_set
positive_pairs clusters = pairs_of clusters (sorted_set (keys clusters))

abbrev pub has_pair : List (String × String) → String × String → Bool
has_pair pairs p = any (λ q. (q.0 == p.0) && (q.1 == p.1)) pairs

-- the metrics; a rate is kept as its numerator and its denominator
pub record EntityResolutionMetrics : Type 0 where
  pub identity_count : ℕ
  pub expected_entity_count : ℕ
  pub predicted_entity_count : ℕ
  pub pair_count : ℕ
  pub true_positive_pairs : ℕ
  pub false_positive_pairs : ℕ
  pub false_negative_pairs : ℕ
  pub precision : ℕ × ℕ
  pub recall : ℕ × ℕ

-- `evaluate_clusters`
unfoldable pub evaluate_clusters : List LabeledIdentity → Dict String → EntityResolutionMetrics
unfolding positive_pairs expected_clusters values sorted_set
evaluate_clusters identities predicted =
    let expected_pairs = positive_pairs (expected_clusters [] identities) in
    let predicted_pairs = positive_pairs predicted in
    let both = length (select_where (has_pair predicted_pairs) expected_pairs) in
    let only_predicted =
      length (select_where (λ p. not (has_pair expected_pairs p)) predicted_pairs) in
    let only_expected =
      length (select_where (λ p. not (has_pair predicted_pairs p)) expected_pairs) in
    record {
      identity_count = length identities;
      expected_entity_count = length (sorted_set (map (λ i. i.expected_entity) identities));
      predicted_entity_count = length (sorted_set (values predicted));
      pair_count = length expected_pairs;
      true_positive_pairs = both;
      false_positive_pairs = only_predicted;
      false_negative_pairs = only_expected;
      precision = (both, both + only_predicted);
      recall = (both, both + only_expected);
    }

pub record EntityLinkCandidate : Type 0 where
  pub left_ref : String
  pub right_ref : String
  pub method : String
  pub decision : String
  pub expected_match : Bool

-- `review_candidates`, of which the pairs are sorted already
unfoldable pub review_candidates :
    List LabeledIdentity → String → Dict String → List EntityLinkCandidate
unfolding positive_pairs expected_clusters get
review_candidates identities method predicted =
    let expected = expected_clusters [] identities in
    map
      (λ p. record {
        left_ref = p.0;
        right_ref = p.1;
        method = method;
        decision = if method == "exact_email" then "accept" else "review";
        expected_match = same_cluster expected p.0 p.1;
      })
      (positive_pairs predicted)
