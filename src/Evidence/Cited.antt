-- ===== src/Evidence/Cited.antt =====
-- retrieval/evidence_pack.py: the result candidates and the evidence items against the results and
-- the visible source records.
use ok.Prelude.{
  String, ◌≡◌, refl, sym, inl, inr, List, [], ◌∷◌, map, Option, none, some, All, Option-cases, Dict,
  contains, false, get, get-index_by, get-index_by-none, return, >>=-eq-return, return_inj,
}
use mathlib.Core.Path.{subst}
use ok.Storage.{SourceRecordRow, CanonicalObjectRow, EntityLinkRow}
use ok.Search.Snippets.{SearchResult}
use ok.Evidence.{
  ResultCandidate, EvidenceItem, column, result_candidate, permission_refs_of, evidence_item,
  evidence_items,
}
use ok.Evidence.Objects.{decoded_list, source_by_ref}
use ok.Evidence.Sourced.{json_list-decoded}

-- two lists whose elements correspond in their order
abbrev pub Each {ℓ κ} : {A : Type ℓ} {B : Type κ} → (A → B → Type 0) → List A → List B → Type 0
Each Q [] [] = Unit
Each Q (x ∷ xs) (y ∷ ys) = Q x y × Each Q xs ys
Each Q [] (y ∷ ys) = ⊥
Each Q (x ∷ xs) [] = ⊥

pub Each-All {ℓ κ} :
    {A : Type ℓ} {B : Type κ} (Q : A → B → Type 0) (P : A → Type 0) (R : B → Type 0)
    (f : (x : A) (y : B) → Q x y → P x → R y) (xs : List A) (ys : List B)
    → Each Q xs ys
    → All P xs
    → All R ys
Each-All Q P R f [] [] each h = tt
Each-All Q P R f (x ∷ xs) (y ∷ ys) each h = (f x y each.0 h.0, Each-All Q P R f xs ys each.1 h.1)
Each-All Q P R f [] (y ∷ ys) each h = absurd each
Each-All Q P R f (x ∷ xs) [] each h = absurd each

-- the record of a source, or none of a source that is not visible
abbrev pub RowOf :
    (SourceRecordRow → Type 0) → List String → String → Option SourceRecordRow → Type 0
RowOf R visible ref none = contains visible ref ≡ false
RowOf R visible ref (some row) = R row × (row.source_ref ≡ ref)

-- A candidate shows a result, and the columns of a record of its source, or empty
-- ones where its source is not visible.
pub record ShownCandidate (R : SourceRecordRow → Type 0) (visible : List String)
    (result : SearchResult) (c : ResultCandidate) : Type 0 where
  pub source : Option SourceRecordRow
  pub row_of : RowOf R visible result.source_ref source
  pub source_ref : c.source_ref ≡ result.source_ref
  pub title : c.title ≡ result.subject
  pub snippet : c.snippet ≡ result.snippet
  pub timestamp : c.timestamp ≡ result.date
  pub source_url : c.source_url ≡ column (λ row. row.source_url) source
  pub record_type : c.record_type ≡ column (λ row. row.record_type) source
  pub source_system : c.source_system ≡ column (λ row. row.source_system) source
  pub source_id : c.source_id ≡ column (λ row. row.source_id) source

-- the permission refs of a record, and none without one
abbrev pub refs_of_source : Option SourceRecordRow → List String
refs_of_source none = []
refs_of_source (some row) = decoded_list row.permission_refs

-- An evidence item shows a result, and the columns and the permission refs of a record of its source,
-- or empty ones where its source is not visible.
pub record ShownEvidence (R : SourceRecordRow → Type 0) (visible : List String)
    (result : SearchResult) (item : EvidenceItem) : Type 0 where
  pub source : Option SourceRecordRow
  pub row_of : RowOf R visible result.source_ref source
  pub source_ref : item.source_ref ≡ result.source_ref
  pub title : item.title ≡ result.subject
  pub snippet : item.snippet ≡ result.snippet
  pub timestamp : item.timestamp ≡ result.date
  pub source_url : item.source_url ≡ column (λ row. row.source_url) source
  pub record_type : item.record_type ≡ column (λ row. row.record_type) source
  pub source_system : item.source_system ≡ column (λ row. row.source_system) source
  pub source_id : item.source_id ≡ column (λ row. row.source_id) source
  pub updated_timestamp : item.updated_timestamp ≡ column (λ row. row.updated_at) source
  pub permission_refs : item.permission_refs ≡ refs_of_source source

module _ (R : SourceRecordRow → Type 0) (rows : List SourceRecordRow) (hr : All R rows) where
  abbrev visible : List String
  visible = map (λ row. row.source_ref) rows

  lookup-RowOf : (ref : String) → RowOf R visible ref (get (source_by_ref rows) ref)
  unfolding source_by_ref
  lookup-RowOf ref = elim (Option-cases (get (source_by_ref rows) ref)) [
    | inl missing ↦ rw missing (get-index_by-none (λ row. row.source_ref) ref [] rows missing).1
    | inr (row, found) ↦ rw found (get-index_by (λ row. row.source_ref) R ref rows hr found)
  ]

  pub candidates-Shown :
      (results : List SearchResult)
      → Each
          (ShownCandidate R visible)
          results
          (map (λ r. result_candidate r (get (source_by_ref rows) r.source_ref)) results)
  unfolding result_candidate
  candidates-Shown [] = tt
  candidates-Shown (result ∷ results) = (
    record {
      source = get (source_by_ref rows) result.source_ref;
      row_of = lookup-RowOf result.source_ref;
      source_ref = refl;
      title = refl;
      snippet = refl;
      timestamp = refl;
      source_url = refl;
      record_type = refl;
      source_system = refl;
      source_id = refl;
    },
    candidates-Shown results,
  )

  decoded_refs :
      (source : Option SourceRecordRow) {refs : List String}
      → permission_refs_of source ≡ return refs
      → refs ≡ refs_of_source source
  decoded_refs none e = sym (return_inj e)
  decoded_refs (some row) e = sym (json_list-decoded row.permission_refs e)

  item-Shown :
      (objects : Dict CanonicalObjectRow) (links : List EntityLinkRow) (result : SearchResult)
      {item : EvidenceItem}
      → evidence_item objects links result (get (source_by_ref rows) result.source_ref)
        ≡ return item
      → ShownEvidence R visible result item
  unfolding evidence_item
  item-Shown objects links result e =
      let source = get (source_by_ref rows) result.source_ref in
      let (refs, decoded, done) = >>=-eq-return (permission_refs_of source) _ e in
      subst (ShownEvidence R visible result) (return_inj done) (record {
        source = source;
        row_of = lookup-RowOf result.source_ref;
        source_ref = refl;
        title = refl;
        snippet = refl;
        timestamp = refl;
        source_url = refl;
        record_type = refl;
        source_system = refl;
        source_id = refl;
        updated_timestamp = refl;
        permission_refs = decoded_refs source decoded;
      })

  pub items-Shown :
      (objects : Dict CanonicalObjectRow) (links : List EntityLinkRow) (results : List SearchResult)
      {items : List EvidenceItem}
      → evidence_items (source_by_ref rows) objects links results ≡ return items
      → Each (ShownEvidence R visible) results items
  unfolding evidence_items
  items-Shown objects links [] e = subst (Each (ShownEvidence R visible) []) (return_inj e) tt
  items-Shown objects links (result ∷ results) e =
      let (item, built, rest) =
        >>=-eq-return
          (evidence_item objects links result (get (source_by_ref rows) result.source_ref)) _ e in
      let (items, others, done) =
        >>=-eq-return (evidence_items (source_by_ref rows) objects links results) _ rest in
      subst (Each (ShownEvidence R visible) (result ∷ results)) (return_inj done)
        (item-Shown objects links result built, items-Shown objects links results others)
