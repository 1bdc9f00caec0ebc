-- ===== src/Resolution/Coarser.antt =====
-- etl/transform/entity_resolution.py: the clusters by name against the ones by e-mail address.
use ok.Prelude.{
  String, ◌≡◌, refl, sym, ap, ◌∙◌, inl, inr, ◌⊎◌, true, false, List, [], ◌∷◌, map, Option, none,
  some, ◌==◌, eq_iff, contains, contains-sorted_set, Bool-cases, Option-cases, Dict, get,
  sorted_set,
}
use ok.Resolution.{
  LabeledIdentity, Matcher, relabelled, merge_clusters, merge_found, exact_email_clusters, is_alias,
  merge_aliases, merge_all_aliases, keep_found, restricted_to, display_name_email_alias_clusters,
}

abbrev mapped : String → String → Option String → Option String
mapped source target none = none
mapped source target (some cluster) = some (relabelled source target cluster)

get-merge_clusters :
    (source target : String) (d : Dict String) (k : String)
    → get (merge_clusters source target d) k ≡ mapped source target (get d k)
unfolding get merge_clusters
get-merge_clusters source target [] k = refl
get-merge_clusters source target ((ref, cluster) ∷ d) k = elim (Bool-cases (ref == k)) [
  | inl e ↦ rw e refl
  | inr e ↦ rw e (get-merge_clusters source target d k)
]

module _ (a b : String) where
  abbrev Together : Dict String → Type 0
  Together d = get d a ≡ get d b

  merge-Together :
      (source target : Option String) (d : Dict String)
      → Together d
      → Together (merge_found source target d)
  merge-Together none target d h = h
  merge-Together (some source) none d h = h
  merge-Together (some source) (some target) d h =
      get-merge_clusters source target d a
      ∙ ap (mapped source target) h
      ∙ sym (get-merge_clusters source target d b)

  module _ (m : Matcher) where
    aliases-Together :
        (left : LabeledIdentity) (rights : List LabeledIdentity) (d : Dict String)
        → Together d
        → Together (merge_aliases m left rights d)
    unfolding merge_aliases
    aliases-Together left [] d h = h
    aliases-Together left (right ∷ rest) d h = elim (Bool-cases (is_alias m left right)) [
      | inl e ↦ rw e (
          aliases-Together left rest _
            (merge-Together (get d right.identity_ref) (get d left.identity_ref) d h))
      | inr e ↦ rw e (aliases-Together left rest d h)
    ]

    all-Together :
        (identities lefts : List LabeledIdentity) (d : Dict String)
        → Together d
        → Together (merge_all_aliases m identities lefts d)
    unfolding merge_all_aliases
    all-Together identities [] d h = h
    all-Together identities (left ∷ rest) d h =
        all-Together identities rest (merge_aliases m left identities d)
          (aliases-Together left identities d h)

get-keep_found :
    (ref : String) (found : Option String) (rest : Dict String) (k : String)
    → (found ≡ none → get (keep_found ref found rest) k ≡ get rest k)
      × ((ref == k) ≡ false → get (keep_found ref found rest) k ≡ get rest k)
      × ((ref == k) ≡ true
          → (cluster : String) → found ≡ some cluster
          → get (keep_found ref found rest) k ≡ some cluster)
unfolding get
get-keep_found ref none rest k = ((λ _. refl), (λ _. refl), λ same cluster h. cc h)
get-keep_found ref (some c) rest k =
    ((λ h. cc h), (λ other. rw other refl), λ same cluster h. rw same h)

-- an entry is what the dictionary has for the key, where the refs name it
get-restricted_to :
    (refs : List String) (d : Dict String) (k : String)
    → (contains refs k ≡ true) ⊎ (get d k ≡ none)
    → get (restricted_to refs d) k ≡ get d k
unfolding restricted_to get
get-restricted_to [] d k (inl known) = cc known
get-restricted_to [] d k (inr absent) = sym absent
get-restricted_to (ref ∷ refs) d k h =
    let (if_none, if_other, if_same) = get-keep_found ref (get d ref) (restricted_to refs d) k in
    elim (Bool-cases (ref == k)) [
      | inl same ↦
          let equal : get d ref ≡ get d k = ap (get d) ((eq_iff ref k).0 same) in
          elim (Option-cases (get d ref)) [
            | inl absent ↦ if_none absent ∙ get-restricted_to refs d k (inr (sym equal ∙ absent))
            | inr (cluster, present) ↦ if_same same cluster present ∙ sym present ∙ equal
          ]
      | inr other ↦
          if_other other
          ∙ get-restricted_to refs d k
              (elim h [ inl known ↦ inl (rw other at known) | inr absent ↦ inr absent ])
    ]

-- Of the refs of identities, two that the clusters by e-mail address put together are together in
-- the clusters by name as well.
pub display_name_email_alias_clusters-coarser :
    (m : Matcher) (identities : List LabeledIdentity) (a b : String)
    → contains (map (λ i. i.identity_ref) identities) a ≡ true
    → contains (map (λ i. i.identity_ref) identities) b ≡ true
    → get (exact_email_clusters m [] identities) a ≡ get (exact_email_clusters m [] identities) b
    → get (display_name_email_alias_clusters m identities) a
      ≡ get (display_name_email_alias_clusters m identities) b
unfolding display_name_email_alias_clusters
display_name_email_alias_clusters-coarser m identities a b has_a has_b together =
    let refs = map (λ i. i.identity_ref) identities in
    let merged = merge_all_aliases m identities identities (exact_email_clusters m [] identities) in
    get-restricted_to (sorted_set refs) merged a (inl (contains-sorted_set refs a ∙ has_a))
    ∙ all-Together a b m identities identities (exact_email_clusters m [] identities) together
    ∙ sym (get-restricted_to (sorted_set refs) merged b (inl (contains-sorted_set refs b ∙ has_b)))
