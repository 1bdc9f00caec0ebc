-- ===== src/Evidence/Ambiguity.antt =====
-- retrieval/evidence_pack.py, `_unresolved_candidates`: the candidates against the visible people.
use mathlib.Core.List.{Mem}
use ok.Prelude.{
  ◌≤◌, String, ◌≡◌, refl, sym, inl, inr, true, List, [], ◌∷◌, Option, none, some, arith, ◌==◌,
  eq_iff, ltb, contains, any-found, join, is_part, length, length-take, All, All-append, All-take,
  All-sort_by, All-Mem, Bool-cases, Dict, get, values, Values, put-Values, get-Values, values-All,
  lt_text, sort_by,
}
use ok.Storage.{CanonicalObjectRow, Environment}
use ok.Evidence.Objects.{decoded_list}
use ok.Evidence.Sourced.{IsSourced}
use ok.Evidence.Expansion.{Shows}
use ok.Evidence.People.{
  text_terms, person_dedupe_key, preferred_before, preferred_person, People, people_at, put_person,
  visit_named, is_visible_person, visit_object, visit_people, UnresolvedCandidate, candidates_of,
  ambiguous, all_ambiguous, unresolved_of_terms, unresolved_candidates,
}

module _ (P : CanonicalObjectRow → Type 0) where
  preferred_person-keeps :
      (current : Option CanonicalObjectRow) (o : CanonicalObjectRow)
      → ((c : CanonicalObjectRow) → current ≡ some c → P c)
      → P o
      → P (preferred_person current o)
  unfolding preferred_person
  preferred_person-keeps none o h p = p
  preferred_person-keeps (some c) o h p = elim (Bool-cases (preferred_before o c)) [
    | inl e ↦ rw e p
    | inr e ↦ rw e (h c refl)
  ]

  people_at-Values :
      (name : String) (d : Dict (Dict CanonicalObjectRow)) (o : Option (Dict CanonicalObjectRow))
      → Values (Values P) d
      → get d name ≡ o
      → Values P (people_at o)
  people_at-Values name d none hs e = tt
  people_at-Values name d (some people) hs e = get-Values (Values P) name d hs e

  abbrev AllPeople : People → Type 0
  AllPeople p = Values (Values P) p.by_first_name

  module _ (env : Environment) where
    put_person-AllPeople :
        (first_name : String) (o : CanonicalObjectRow) (p : People)
        → P o
        → AllPeople p
        → AllPeople (put_person env first_name o p)
    unfolding put_person
    put_person-AllPeople first_name o p h hs =
        let by_key = people_at (get p.by_first_name first_name) in
        let key = person_dedupe_key env o in
        let old : Values P by_key =
          people_at-Values first_name p.by_first_name (get p.by_first_name first_name) hs refl in
        put-Values (Values P) first_name _ p.by_first_name
          (put-Values P key (preferred_person (get by_key key) o) by_key
            (preferred_person-keeps (get by_key key) o (λ c e. get-Values P key by_key old e) h)
            old)
          hs

    visit_named-AllPeople :
        (query_terms : List String) (o : CanonicalObjectRow) (name : List String) (p : People)
        → P o
        → AllPeople p
        → AllPeople (visit_named env query_terms o name p)
    unfolding visit_named
    visit_named-AllPeople query_terms o [] p h hs = hs
    visit_named-AllPeople query_terms o (first ∷ []) p h hs = hs
    visit_named-AllPeople query_terms o (first ∷ second ∷ rest) p h hs =
        elim (Bool-cases (is_part (join " " (first ∷ second ∷ rest)) (join " " query_terms))) [
          | inl e ↦ rw e hs
          | inr e ↦ elim (Bool-cases (contains query_terms first)) [
            | inl found ↦ rw (e, found) (put_person-AllPeople first o p h hs)
            | inr absent ↦ rw (e, absent) hs
          ]
        ]

  candidates_of-Shown :
      (name : String) (people : List CanonicalObjectRow)
      → All P people
      → ((o : CanonicalObjectRow) → P o → o.object_type ≡ "Person")
      → All
          (λ (c : UnresolvedCandidate). Shows P c.object_ref c.object_type c.display_name)
          (candidates_of name people)
  unfolding candidates_of
  candidates_of-Shown name [] h t = tt
  candidates_of-Shown name (o ∷ people) h t =
      ((o, h.0, refl, sym (t o h.0), refl), candidates_of-Shown name people h.1 t)

  abbrev ShownCandidates : List UnresolvedCandidate → Type 0
  ShownCandidates =
      All (λ (c : UnresolvedCandidate). Shows P c.object_ref c.object_type c.display_name)

  ambiguous-Shown :
      (full_matches : List String) (name : String) (people : List CanonicalObjectRow)
      → All P people
      → ((o : CanonicalObjectRow) → P o → o.object_type ≡ "Person")
      → ShownCandidates (ambiguous full_matches name people)
  unfolding ambiguous
  ambiguous-Shown full_matches name people h t = elim (Bool-cases (contains full_matches name)) [
    | inl e ↦ rw e tt
    | inr e ↦ elim (Bool-cases (ltb (length people) 2)) [
      | inl few ↦ rw (e, few) tt
      | inr many ↦
          rw (e, many)
            (candidates_of-Shown name (sort_by (λ a b. lt_text a.object_ref b.object_ref) people)
              (All-sort_by P _ people h) t)
    ]
  ]

  all_ambiguous-Shown :
      (full_matches : List String) (d : Dict (Dict CanonicalObjectRow))
      → Values (Values P) d
      → ((o : CanonicalObjectRow) → P o → o.object_type ≡ "Person")
      → ShownCandidates (all_ambiguous full_matches d)
  unfolding all_ambiguous
  all_ambiguous-Shown full_matches [] h t = tt
  all_ambiguous-Shown full_matches ((name, people) ∷ d) h t =
      All-append _ (ambiguous full_matches name (values people)) _
        (ambiguous-Shown full_matches name (values people) (values-All P people h.0) t)
        (all_ambiguous-Shown full_matches d h.1 t)

module _ (env : Environment) (visible : List String) (stored : List CanonicalObjectRow) where
  -- a person with a visible source
  abbrev pub IsPerson : CanonicalObjectRow → Type 0
  IsPerson o = IsSourced visible stored o × (o.object_type ≡ "Person")

  visible-IsPerson :
      (o : CanonicalObjectRow) → Mem o stored → is_visible_person env visible o ≡ true → IsPerson o
  visible-IsPerson o m e =
      let type_is : (o.object_type == "Person") ≡ true = ground (arith, e) in
      let (ref, seen, named) =
        any-found (λ ref. contains visible ref) (decoded_list o.source_refs) (ground (arith, e)) in
      (
        record { source = ref; seen = seen; named = named; member = m },
        (eq_iff o.object_type "Person").0 type_is,
      )

  visit_object-AllPeople :
      (query_terms : List String) (o : CanonicalObjectRow) (p : People)
      → Mem o stored
      → AllPeople IsPerson p
      → AllPeople IsPerson (visit_object env query_terms visible o p)
  unfolding visit_object
  visit_object-AllPeople query_terms o p m hs =
      elim (Bool-cases (is_visible_person env visible o)) [
        | inl e ↦ rw e (
            visit_named-AllPeople IsPerson env query_terms o (text_terms env o.title) p
              (visible-IsPerson o m e) hs)
        | inr e ↦ rw e hs
      ]

  visit_people-AllPeople :
      (query_terms : List String) (objects : List CanonicalObjectRow) (p : People)
      → All (λ o. Mem o stored) objects
      → AllPeople IsPerson p
      → AllPeople IsPerson (visit_people env query_terms visible objects p)
  unfolding visit_people
  visit_people-AllPeople query_terms [] p h hs = hs
  visit_people-AllPeople query_terms (o ∷ objects) p h hs =
      visit_people-AllPeople query_terms objects (visit_object env query_terms visible o p) h.1
        (visit_object-AllPeople query_terms o p h.0 hs)

  of_terms-Shown :
      (terms : List String)
      → ShownCandidates IsPerson (unresolved_of_terms env visible stored terms)
        × (length (unresolved_of_terms env visible stored terms) ≤ 10)
  unfolding unresolved_of_terms
  of_terms-Shown [] = (tt, omega arith)
  of_terms-Shown (term ∷ terms) =
      let people =
        visit_people env (term ∷ terms) visible stored
          (record { by_first_name = []; full_matches = [] }) in
      let found =
        all_ambiguous people.full_matches (sort_by (λ a b. lt_text a.0 b.0) people.by_first_name) in
      (
        All-take _ 10 found (
            all_ambiguous-Shown IsPerson people.full_matches
              (sort_by (λ a b. lt_text a.0 b.0) people.by_first_name)
              (All-sort_by (λ e. Values IsPerson e.1) _ people.by_first_name
                (visit_people-AllPeople (term ∷ terms) stored _ (All-Mem stored) tt))
              (λ o h. h.1)),
        omega (arith, length-take 10 found),
      )

  -- the candidates are people with a visible source, and there are at most ten
  pub unresolved_candidates-Shown :
      (query : String)
      → ShownCandidates IsPerson (unresolved_candidates env query stored visible)
        × (length (unresolved_candidates env query stored visible) ≤ 10)
  unfolding unresolved_candidates
  unresolved_candidates-Shown query = of_terms-Shown (text_terms env query)
