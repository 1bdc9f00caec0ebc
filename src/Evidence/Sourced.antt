-- ===== src/Evidence/Sourced.antt =====
-- retrieval/evidence_pack.py: the objects of a pack against the visible sources.
use mathlib.Core.List.{Mem}
use ok.Prelude.{
  String, ◌≡◌, inl, inr, true, List, [], ◌∷◌, none, some, contains, All, All-contained, Bool-cases,
  Dict, put, Values, put-Values, return, >>=-eq-return, return_inj,
}
use ok.Json.{JsonText}
use ok.Storage.{CanonicalObjectRow}
use ok.Evidence.Objects.{json_list, decoded_list, put_visible, object_by_source_ref}

-- An object with a visible source: it is one of the stored objects, and it names a source that is
-- visible.
pub record IsSourced (visible : List String) (stored : List CanonicalObjectRow)
    (o : CanonicalObjectRow) : Type 0 where
  pub source : String
  pub seen : contains visible source ≡ true
  pub named : contains (decoded_list o.source_refs) source ≡ true
  pub member : Mem o stored

-- a list that raises nothing is what the column decodes to
pub json_list-decoded :
    (raw : JsonText) {refs : List String} → json_list raw ≡ return refs → decoded_list raw ≡ refs
unfolding json_list decoded_list
json_list-decoded none e = cc
json_list-decoded (some v) e = return_inj e

module _ (visible : List String) (stored : List CanonicalObjectRow) where
  put_visible-IsSourced :
      (o : CanonicalObjectRow) (refs : List String) (d : Dict CanonicalObjectRow)
      → Mem o stored
      → All (λ ref. contains (decoded_list o.source_refs) ref ≡ true) refs
      → Values (IsSourced visible stored) d
      → Values (IsSourced visible stored) (put_visible visible o refs d)
  unfolding put_visible
  put_visible-IsSourced o [] d m h hs = hs
  put_visible-IsSourced o (ref ∷ refs) d m h hs = elim (Bool-cases (contains visible ref)) [
    | inl e ↦ rw e (
        put_visible-IsSourced o refs (put ref o d) m h.1 (
          put-Values (IsSourced visible stored) ref o d
            (record { source = ref; seen = e; named = h.0; member = m }) hs))
    | inr e ↦ rw e (put_visible-IsSourced o refs d m h.1 hs)
  ]

  -- what the dictionary of objects holds has a visible source
  pub object_by_source_ref-IsSourced :
      (objects : List CanonicalObjectRow) (d : Dict CanonicalObjectRow)
      {out : Dict CanonicalObjectRow}
      → All (λ o. Mem o stored) objects
      → Values (IsSourced visible stored) d
      → object_by_source_ref visible d objects ≡ return out
      → Values (IsSourced visible stored) out
  unfolding object_by_source_ref
  object_by_source_ref-IsSourced [] d h hs e = rw (return_inj e) at hs
  object_by_source_ref-IsSourced (o ∷ objects) d h hs e =
      let (refs, listed, rest) = >>=-eq-return (json_list o.source_refs) _ e in
      object_by_source_ref-IsSourced objects (put_visible visible o refs d) h.1
        (put_visible-IsSourced o refs d h.0
          (rw (json_list-decoded o.source_refs listed) (All-contained refs)) hs)
        rest
