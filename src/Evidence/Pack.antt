-- ===== src/Evidence/Pack.antt =====
-- retrieval/evidence_pack.py, `build_evidence_pack`: the whole pack against the visible sources.
use mathlib.Core.Path.{subst}
use mathlib.Core.List.{Mem}
use ok.Prelude.{
  inl, inr, ◌≤◌, String, ◌≡◌, List, [], map, length, All, All-mono, All-Mem, Dict, Values, return,
  >>=-eq-return, return_inj,
}
use ok.Storage.{SourceRecordRow, CanonicalObjectRow, EntityLinkRow, Environment}
use ok.Search.Snippets.{SearchResult}
use ok.Evidence.{
  EvidencePack, PrimaryObject, visible_object_refs, evidence_items, pack_of, build_evidence_pack,
}
use ok.Evidence.Objects.{visible_links, object_by_source_ref, source_by_ref}
use ok.Evidence.Related.{RelatedObject}
use ok.Evidence.Entities.{Entity}
use ok.Evidence.People.{UnresolvedCandidate}
use ok.Evidence.Sourced.{IsSourced, object_by_source_ref-IsSourced}
use ok.Evidence.Expansion.{Shows, related_objects-Shown}
use ok.Evidence.Ambiguity.{unresolved_candidates-Shown}
use ok.Evidence.Cited.{Each, ShownCandidate, ShownEvidence, candidates-Shown, items-Shown}
use ok.Evidence.Named.{ShownPrimary, ShownEntity, primary_objects-Shown, entities-Shown}

-- A pack on some results, all of whose objects satisfy a predicate, whose candidates are people, and
-- whose sources are records that satisfy another predicate. What is shown of an object, of a result
-- or of a record is as it is stored, and the lists that are cut are.
pub record ShowsOnly (P : CanonicalObjectRow → Type 0) (R : SourceRecordRow → Type 0)
    (visible : List String) (results : List SearchResult) (pack : EvidencePack) : Type 0 where
  pub candidates : Each (ShownCandidate R visible) results pack.result_candidates
  pub items : Each (ShownEvidence R visible) results pack.evidence_items
  pub primary : All (ShownPrimary P (λ r. Mem r results)) pack.primary_objects
  pub related :
      All (λ (r : RelatedObject). Shows P r.object_ref r.object_type r.title) pack.related_objects
  pub entities_shown : All (ShownEntity P) pack.entities
  pub unresolved :
      All
        (λ (c : UnresolvedCandidate).
          Shows (λ o. P o × (o.object_type ≡ "Person")) c.object_ref c.object_type c.display_name)
        pack.unresolved_candidates
  pub related_cut : length pack.related_objects ≤ 5
  pub unresolved_cut : length pack.unresolved_candidates ≤ 10

ShownPrimary-mono :
    (P Q : CanonicalObjectRow → Type 0) (f : (o : CanonicalObjectRow) → P o → Q o)
    (S : SearchResult → Type 0) (item : PrimaryObject)
    → ShownPrimary P S item
    → ShownPrimary Q S item
ShownPrimary-mono P Q f S item h = record {
  object = h.object;
  is_object = f h.object h.is_object;
  object_ref = h.object_ref;
  object_type = h.object_type;
  source_refs = h.source_refs;
  result = h.result;
  is_result = h.is_result;
  title = h.title;
}

ShownEntity-mono :
    (P Q : CanonicalObjectRow → Type 0) (f : (o : CanonicalObjectRow) → P o → Q o) (e : Entity)
    → ShownEntity P e
    → ShownEntity Q e
ShownEntity-mono P Q f e (linked, inl none) = ((linked.0, f linked.0 linked.1, linked.2), inl none)
ShownEntity-mono P Q f e (linked, inr (o, p, named)) =
    ((linked.0, f linked.0 linked.1, linked.2), inr (o, f o p, named))

pub ShowsOnly-mono :
    (P Q : CanonicalObjectRow → Type 0) (R : SourceRecordRow → Type 0) (visible : List String)
    (results : List SearchResult) (pack : EvidencePack)
    → ((o : CanonicalObjectRow) → P o → Q o)
    → ShowsOnly P R visible results pack
    → ShowsOnly Q R visible results pack
ShowsOnly-mono P Q R visible results pack f h = record {
  candidates = h.candidates;
  items = h.items;
  primary = All-mono _ _ (ShownPrimary-mono P Q f (λ r. Mem r results)) _ h.primary;
  related =
      All-mono (λ (r : RelatedObject). Shows P r.object_ref r.object_type r.title)
        (λ r. Shows Q r.object_ref r.object_type r.title) (λ x p. (p.0, f p.0 p.1, p.2, p.3, p.4)) _
        h.related;
  entities_shown = All-mono _ _ (ShownEntity-mono P Q f) _ h.entities_shown;
  unresolved =
      All-mono
        (λ (c : UnresolvedCandidate).
          Shows (λ o. P o × (o.object_type ≡ "Person")) c.object_ref c.object_type c.display_name)
        (λ c.
          Shows (λ o. Q o × (o.object_type ≡ "Person")) c.object_ref c.object_type c.display_name)
        (λ x p. (p.0, (f p.0 p.1.0, p.1.1), p.2, p.3, p.4)) _ h.unresolved;
  related_cut = h.related_cut;
  unresolved_cut = h.unresolved_cut;
}

module _ (env : Environment) (query : String) (results : List SearchResult)
    (rows : List SourceRecordRow) (stored : List CanonicalObjectRow) (R : SourceRecordRow → Type 0)
    (hr : All R rows) where
  abbrev visible : List String
  visible = map (λ row. row.source_ref) rows

  pack_of-ShowsOnly :
      (objects : Dict CanonicalObjectRow) (links : List EntityLinkRow) {pack : EvidencePack}
      → Values (IsSourced visible stored) objects
      → pack_of env query results rows stored objects
          (visible_links visible (visible_object_refs objects) links)
        ≡ return pack
      → ShowsOnly (IsSourced visible stored) R visible results pack
  unfolding pack_of
  pack_of-ShowsOnly objects links hs e =
      let shown = visible_links visible (visible_object_refs objects) links in
      let (items, listed, done) =
        >>=-eq-return (evidence_items (source_by_ref rows) objects shown results) _ e in
      let cut = related_objects-Shown (IsSourced visible stored) objects hs results rows shown in
      let people = unresolved_candidates-Shown env visible stored query in
      subst (ShowsOnly (IsSourced visible stored) R visible results) (return_inj done) (record {
        candidates = candidates-Shown R rows hr results;
        items = items-Shown R rows hr objects shown results listed;
        primary =
            primary_objects-Shown (IsSourced visible stored) objects hs (λ r. Mem r results) results
              (All-Mem results);
        related = cut.0;
        entities_shown = entities-Shown (IsSourced visible stored) objects hs visible links results;
        unresolved = people.0;
        related_cut = cut.1;
        unresolved_cut = people.1;
      })

  -- the same of the whole pack, on records that satisfy a predicate
  pub build-ShowsOnly :
      (links : List EntityLinkRow) {pack : EvidencePack}
      → build_evidence_pack env query results rows stored links ≡ return pack
      → ShowsOnly (IsSourced visible stored) R visible results pack
  unfolding build_evidence_pack
  build-ShowsOnly links e =
      let (objects, found, built) = >>=-eq-return (object_by_source_ref visible [] stored) _ e in
      pack_of-ShowsOnly objects links
        (object_by_source_ref-IsSourced visible stored stored [] (All-Mem stored) tt found) built
