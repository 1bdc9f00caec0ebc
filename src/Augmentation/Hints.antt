-- ===== src/Augmentation/Hints.antt =====
-- retrieval/augmentation.py, `_related_follow_up_hints`: the hints against the results.
use ok.Prelude.{
  ℕ, suc, ◌≤◌, String, ◌≡◌, refl, inl, inr, Bool, true, false, ◌||◌, List, [], ◌∷◌, map, Option,
  none, some, arith, ◌==◌, eq_refl, eq_iff, leb, length, length-take, any, contains, All,
  All-append, All-take, All-mono, All-sort_by, Bool-cases, Dict, get, sort_by, Distinct,
  Distinct-snoc, Distinct-sort_by, Distinct-take,
}
use ok.Storage.{SourceRecordRow, CanonicalObjectRow, EntityLinkRow, Environment}
use ok.Augmentation.Python.{Floats}
use ok.Augmentation.Rerank.{RetrievalCandidate}
use ok.Augmentation.Contexts.{selected_by_related}
use ok.Augmentation.Leads.{LeadsTo, selected_by_related-LeadsTo}
use ok.Augmentation.Related.{
  RelatedFollowUpHint, follow_up_hint, Emitted, is_crowded, emit_related, emit_hint, emit_hints,
  hint_before, related_follow_up_hints,
}

module _ {F : Type 0} (num : Floats F) (rows : List SourceRecordRow)
    (links : Option (List EntityLinkRow)) (selected : List String) (related : Dict String) where
  -- A hint on a source that is not selected, which is related to the selected one that it names, and
  -- is among the ranked results.
  abbrev pub FollowsUp : List String → RelatedFollowUpHint num → Type 0
  FollowsUp ranked h =
      (contains selected h.source_ref ≡ false)
      × (get related h.source_ref ≡ some h.related_source_ref)
      × (contains ranked h.source_ref ≡ true)

  abbrev pub same_source : RelatedFollowUpHint num → RelatedFollowUpHint num → Bool
  same_source a b = a.source_ref == b.source_ref

  same_source_comm : (a b : RelatedFollowUpHint num) → same_source a b ≡ same_source b a
  same_source_comm a b =
      ground (arith, eq_iff a.source_ref b.source_ref, eq_iff b.source_ref a.source_ref)

  -- the hints so far: all follow up, their refs are emitted, no source has two, and there is room
  record Progress (ranked : List String) (e : Emitted num) : Type 0 where
    pub follow : All (FollowsUp ranked) e.hints
    pub emitted : All (λ h. contains e.refs h.source_ref ≡ true) e.hints
    pub distinct : Distinct same_source e.hints

  -- a source that is not emitted has no hint
  no_hint :
      (h : RelatedFollowUpHint num) (refs : List String) (hints : List (RelatedFollowUpHint num))
      → contains refs h.source_ref ≡ false
      → All (λ x. contains refs x.source_ref ≡ true) hints
      → any (same_source h) hints ≡ false
  no_hint h refs [] new hs = refl
  no_hint h refs (x ∷ hints) new hs = elim (Bool-cases (same_source h x)) [
    | inl same ↦
        let equal : h.source_ref ≡ x.source_ref = (eq_iff h.source_ref x.source_ref).0 same in
        cc hs.0
    | inr differ ↦ ground (arith, differ, no_hint h refs hints new hs.1)
  ]

  emit_related-Progress :
      (ranked : List String) (rank : ℕ) (result : RetrievalCandidate num) (found : Option String)
      (e : Emitted num)
      → contains ranked result.source_ref ≡ true
      → contains selected result.source_ref ≡ false
      → contains e.refs result.source_ref ≡ false
      → get related result.source_ref ≡ found
      → Progress ranked e
      → Progress ranked (emit_related num rows links rank result found e)
  unfolding emit_related follow_up_hint
  emit_related-Progress ranked rank result none e m out new g p = p
  emit_related-Progress ranked rank result (some to) e m out new g p =
      let hint = follow_up_hint num rows links rank result to in
      elim (Bool-cases (is_crowded num rows links result.source_ref e)) [
        | inl crowded ↦ rw crowded p
        | inr free ↦ rw free (record {
          follow = All-append (FollowsUp ranked) e.hints _ p.follow ((out, g, m), tt);
          emitted =
              All-append (λ h. contains (result.source_ref ∷ e.refs) h.source_ref ≡ true) e.hints _
                (All-mono _ (λ h. contains (result.source_ref ∷ e.refs) h.source_ref ≡ true)
                  (λ h old. ground (arith, old)) e.hints p.emitted)
                (ground (arith, eq_refl result.source_ref), tt);
          distinct =
              Distinct-snoc same_source same_source_comm e.hints hint p.distinct
                (no_hint hint e.refs e.hints new p.emitted);
        })
      ]

  emit_hint-Progress :
      (ranked : List String) (rank : ℕ) (result : RetrievalCandidate num) (e : Emitted num)
      → contains ranked result.source_ref ≡ true
      → Progress ranked e
      → Progress ranked (emit_hint num rows links selected related rank result e)
  unfolding emit_hint
  emit_hint-Progress ranked rank result e m p =
      elim (Bool-cases (contains selected result.source_ref || contains e.refs result.source_ref)) [
        | inl skip ↦ rw skip p
        | inr fresh ↦ rw fresh (
            emit_related-Progress ranked rank result (get related result.source_ref) e m
              (ground (arith, fresh)) (ground (arith, fresh)) refl p)
      ]

  emit_hints-Progress :
      (ranked : List String) (rank : ℕ) (results : List (RetrievalCandidate num)) (e : Emitted num)
      → All (λ r. contains ranked r.source_ref ≡ true) results
      → Progress ranked e
      → Progress ranked (emit_hints num rows links selected related rank results e)
  unfolding emit_hints
  emit_hints-Progress ranked rank [] e m p = p
  emit_hints-Progress ranked rank (result ∷ results) e m p =
      let next = emit_hint num rows links selected related rank result e in
      let one = emit_hint-Progress ranked rank result e m.0 p in
      elim (Bool-cases (leb 5 (length next.hints))) [
        | inl full ↦ rw full one
        | inr room ↦ rw room (emit_hints-Progress ranked (suc rank) results next m.1 one)
      ]

module _ {F : Type 0} (num : Floats F) where
  abbrev refs_of : List (RetrievalCandidate num) → List String
  refs_of = map (λ r. r.source_ref)

  own_refs :
      (results : List (RetrievalCandidate num))
      → All (λ r. contains (refs_of results) r.source_ref ≡ true) results
  own_refs [] = tt
  own_refs (r ∷ results) = (
    ground (arith, eq_refl r.source_ref),
    All-mono _ (λ x. contains (refs_of (r ∷ results)) x.source_ref ≡ true)
        (λ x h. ground (arith, h)) results (own_refs results),
  )

  -- a hint on a ranked result that is not selected, and names a selected source that leads to it
  abbrev pub IsFollowUp :
      List SourceRecordRow
      → Option (List CanonicalObjectRow)
      → Option (List EntityLinkRow)
      → List (RetrievalCandidate num)
      → List (RetrievalCandidate num)
      → RelatedFollowUpHint num
      → Type 0
  IsFollowUp rows objects links ranked selected h =
      (contains (refs_of selected) h.source_ref ≡ false)
      × (contains (refs_of ranked) h.source_ref ≡ true)
      × LeadsTo rows objects links (refs_of selected) h.related_source_ref h.source_ref

  -- Each follow-up hint is on a ranked result whose source is not selected, and names a selected
  -- source whose direct context holds it; no two hints are on the same source, and there are at most
  -- five.
  pub related_follow_up_hints-IsFollowUp :
      (env : Environment) (rows : List SourceRecordRow) (objects : Option (List CanonicalObjectRow))
      (links : Option (List EntityLinkRow)) (ranked selected : List (RetrievalCandidate num))
      → let hints = related_follow_up_hints num env rows objects links ranked selected in
        All (IsFollowUp rows objects links ranked selected) hints
        × Distinct (λ a b. a.source_ref == b.source_ref) hints
        × (length hints ≤ 5)
  unfolding related_follow_up_hints
  related_follow_up_hints-IsFollowUp env rows objects links ranked selected =
      let refs = refs_of selected in
      let related = selected_by_related rows objects links refs refs [] in
      let none_yet : Emitted num = record { hints = []; refs = []; clusters = [] } in
      let e = emit_hints num rows links refs related 1 ranked none_yet in
      let p =
        emit_hints-Progress num rows links refs related (refs_of ranked) 1 ranked none_yet
          (own_refs ranked) (record { follow = tt; emitted = tt; distinct = tt }) in
      (
        All-mono _ (IsFollowUp rows objects links ranked selected)
            (λ h f. (
              f.0,
              f.2,
              selected_by_related-LeadsTo rows objects links refs h.source_ref h.related_source_ref
                  f.1,
            ))
            _ (All-take _ 5 _ (All-sort_by _ (hint_before num env) e.hints p.follow)),
        Distinct-take _ 5 _ (
            Distinct-sort_by _ (same_source_comm num rows links refs related) (hint_before num env)
              e.hints p.distinct),
        omega (arith, length-take 5 (sort_by (hint_before num env) e.hints)),
      )
