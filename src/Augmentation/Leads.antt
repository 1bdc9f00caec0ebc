-- ===== src/Augmentation/Leads.antt =====
-- retrieval/augmentation.py, `_direct_context_source_ref_map`: the selected source of a related one.
use ok.Prelude.{
  String, ◌≡◌, inl, inr, true, List, [], ◌∷◌, Option, none, some, ◌==◌, eq_iff, contains, All,
  All-mono, All-contained, Bool-cases, Dict, get, put, get-put,
}
use ok.Storage.{SourceRecordRow, CanonicalObjectRow, EntityLinkRow}
use ok.Augmentation.Contexts.{direct_context, add_related, selected_by_related}

module _ (rows : List SourceRecordRow) (objects : Option (List CanonicalObjectRow))
    (links : Option (List EntityLinkRow)) (selected : List String) where
  -- a selected source whose context has the ref
  abbrev pub LeadsTo : String → String → Type 0
  LeadsTo seed ref =
      (contains selected seed ≡ true)
      × (contains (direct_context rows objects links seed) ref ≡ true)

  abbrev AllLead : Dict String → Type 0
  AllLead d = (ref seed : String) → get d ref ≡ some seed → LeadsTo seed ref

  put-AllLead :
      (seed ref : String) (d : Dict String)
      → LeadsTo seed ref
      → AllLead d
      → AllLead (put ref seed d)
  put-AllLead seed ref d h hd other from e = elim (Bool-cases (ref == other)) [
    | inl same ↦
        let equal : ref ≡ other = (eq_iff ref other).0 same in
        let from_seed : seed ≡ from = cc (get-put ref other seed d, same, e) in
        rw (← equal, ← from_seed) h
    | inr differ ↦ hd other from (cc (get-put ref other seed d, differ, e))
  ]

  add_one-AllLead :
      (seed ref : String) (d : Dict String) (found : Option String)
      → LeadsTo seed ref
      → AllLead d
      → AllLead (elim found [ none ↦ put ref seed d | some _ ↦ d ])
  add_one-AllLead seed ref d none h hd = put-AllLead seed ref d h hd
  add_one-AllLead seed ref d (some _) h hd = hd

  add_related-AllLead :
      (seed : String) (refs : List String) (d : Dict String)
      → All (λ ref. LeadsTo seed ref) refs
      → AllLead d
      → AllLead (add_related selected seed refs d)
  unfolding add_related
  add_related-AllLead seed [] d h hd = hd
  add_related-AllLead seed (ref ∷ refs) d h hd = elim (Bool-cases (contains selected ref)) [
    | inl e ↦ rw e (add_related-AllLead seed refs d h.1 hd)
    | inr e ↦
        rw e (add_related-AllLead seed refs _ h.1 (add_one-AllLead seed ref d (get d ref) h.0 hd))
  ]

  context-LeadsTo :
      (seed : String)
      → contains selected seed ≡ true
      → All (LeadsTo seed) (direct_context rows objects links seed)
  context-LeadsTo seed h =
      All-mono _ (LeadsTo seed) (λ ref listed. (h, listed)) _
        (All-contained (direct_context rows objects links seed))

  selected_by_related-AllLead :
      (seeds : List String) (d : Dict String)
      → All (λ seed. contains selected seed ≡ true) seeds
      → AllLead d
      → AllLead (selected_by_related rows objects links selected seeds d)
  unfolding selected_by_related
  selected_by_related-AllLead [] d h hd = hd
  selected_by_related-AllLead (seed ∷ seeds) d h hd =
      selected_by_related-AllLead seeds
        (add_related selected seed (direct_context rows objects links seed) d) h.1
        (add_related-AllLead seed (direct_context rows objects links seed) d
          (context-LeadsTo seed h.0) hd)

  no_leads : AllLead []
  unfolding get
  no_leads ref seed e = cc

  -- what is related is related by a selected source
  pub selected_by_related-LeadsTo :
      (ref seed : String)
      → get (selected_by_related rows objects links selected selected []) ref ≡ some seed
      → LeadsTo seed ref
  selected_by_related-LeadsTo =
      selected_by_related-AllLead selected [] (All-contained selected) no_leads
