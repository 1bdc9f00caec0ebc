-- ===== src/Metadata/Latest.antt =====
-- etl/load/source_metadata.py, `latest_source_records`: what it keeps of a batch.
use mathlib.Core.List.{reverse, reverse-reverse}
use mathlib.Core.Path.{subst}
use ok.Prelude.{
  String, ◌≡◌, refl, ◌∙◌, eq_refl, inl, inr, Bool, true, false, ◌||◌, List, [], ◌∷◌, arith, ◌==◌,
  eq_iff, any, contains, All, All-mono, All-reverse, Distinct, Distinct-reverse, any-reverse,
  Bool-cases,
}
use ok.Records.{SourceRecord}
use ok.Metadata.{
  Identity, same_identity, has_identity, record_identity, keep_unseen, latest_source_records,
}

-- two records of one source: they share the ref, or the system and the id there
abbrev pub same_source : SourceRecord → SourceRecord → Bool
same_source a b =
    (a.source_ref == b.source_ref) || same_identity (record_identity a) (record_identity b)

eq_comm : (s t : String) → (s == t) ≡ (t == s)
eq_comm s t = ground (arith, eq_iff s t, eq_iff t s)

same_source_comm : (a b : SourceRecord) → same_source a b ≡ same_source b a
same_source_comm a b = ground (
  arith,
  eq_comm a.source_ref b.source_ref,
  eq_comm a.source_system b.source_system,
  eq_comm a.source_id b.source_id,
)

-- whether a record is new to the refs and the identities that the loop has seen
abbrev is_seen : List String → List Identity → SourceRecord → Bool
is_seen refs ids r = contains refs r.source_ref || has_identity ids (record_identity r)

module _ (P : SourceRecord → Type 0) where
  All-keep_unseen :
      (refs : List String) (ids : List Identity) (rs : List SourceRecord)
      → All P rs
      → All P (keep_unseen refs ids rs)
  unfolding keep_unseen
  All-keep_unseen refs ids [] h = tt
  All-keep_unseen refs ids (r ∷ rs) h = elim (Bool-cases (is_seen refs ids r)) [
    | inl e ↦ rw e (All-keep_unseen refs ids rs h.1)
    | inr e ↦ rw e (h.0, All-keep_unseen (r.source_ref ∷ refs) (record_identity r ∷ ids) rs h.1)
  ]

  -- The latest records are some of the batch.
  pub All-latest : (rs : List SourceRecord) → All P rs → All P (latest_source_records rs)
  unfolding latest_source_records
  All-latest rs h =
      All-reverse P (keep_unseen [] [] (reverse rs))
        (All-keep_unseen [] [] (reverse rs) (All-reverse P rs h))

seen_at :
    (refs : List String) (ids : List Identity) (r x : SourceRecord)
    → is_seen (r.source_ref ∷ refs) (record_identity r ∷ ids) x
      ≡ (same_source r x || is_seen refs ids x)
seen_at refs ids r x = ground arith

-- Nothing that is kept was seen before.
keep_unseen-avoids :
    (refs : List String) (ids : List Identity) (rs : List SourceRecord)
    → All (λ x. is_seen refs ids x ≡ false) (keep_unseen refs ids rs)
unfolding keep_unseen
keep_unseen-avoids refs ids [] = tt
keep_unseen-avoids refs ids (r ∷ rs) = elim (Bool-cases (is_seen refs ids r)) [
  | inl e ↦ rw e (keep_unseen-avoids refs ids rs)
  | inr e ↦ rw e (
    e,
    All-mono _ (λ x. is_seen refs ids x ≡ false) (λ x new. ground (arith, seen_at refs ids r x))
        (keep_unseen (r.source_ref ∷ refs) (record_identity r ∷ ids) rs)
        (keep_unseen-avoids (r.source_ref ∷ refs) (record_identity r ∷ ids) rs),
  )
]

none_same :
    (refs : List String) (ids : List Identity) (r : SourceRecord) (rs : List SourceRecord)
    → All (λ x. is_seen (r.source_ref ∷ refs) (record_identity r ∷ ids) x ≡ false) rs
    → any (same_source r) rs ≡ false
none_same refs ids r [] h = refl
none_same refs ids r (x ∷ rs) h =
    ground (arith, h.0, seen_at refs ids r x, none_same refs ids r rs h.1)

keep_unseen-Distinct :
    (refs : List String) (ids : List Identity) (rs : List SourceRecord)
    → Distinct same_source (keep_unseen refs ids rs)
unfolding keep_unseen
keep_unseen-Distinct refs ids [] = tt
keep_unseen-Distinct refs ids (r ∷ rs) = elim (Bool-cases (is_seen refs ids r)) [
  | inl e ↦ rw e (keep_unseen-Distinct refs ids rs)
  | inr e ↦ rw e (
    none_same refs ids r _ (keep_unseen-avoids (r.source_ref ∷ refs) (record_identity r ∷ ids) rs),
    keep_unseen-Distinct (r.source_ref ∷ refs) (record_identity r ∷ ids) rs,
  )
]

-- Of the records of a batch, those that are stored are pairwise of different sources.
pub latest-Distinct : (rs : List SourceRecord) → Distinct same_source (latest_source_records rs)
unfolding latest_source_records
latest-Distinct rs =
    Distinct-reverse same_source same_source_comm (keep_unseen [] [] (reverse rs))
      (keep_unseen-Distinct [] [] (reverse rs))

module _ (refs : List String) (ids : List Identity) (r : SourceRecord)
    (rs : List SourceRecord) where
  keep-seen : is_seen refs ids r ≡ true → keep_unseen refs ids (r ∷ rs) ≡ keep_unseen refs ids rs
  unfolding keep_unseen
  keep-seen e = rw e

  keep-new :
      is_seen refs ids r ≡ false
      → keep_unseen refs ids (r ∷ rs)
        ≡ r ∷ keep_unseen (r.source_ref ∷ refs) (record_identity r ∷ ids) rs
  unfolding keep_unseen
  keep-new e = rw e

-- What the loop passes over was seen before, or is of a source that it keeps.
keep_unseen-covers :
    (refs : List String) (ids : List Identity) (rs kept : List SourceRecord)
    → kept ≡ keep_unseen refs ids rs
    → All (λ r. (is_seen refs ids r || any (same_source r) kept) ≡ true) rs
keep_unseen-covers refs ids [] kept e = tt
keep_unseen-covers refs ids (r ∷ rs) kept e = elim (Bool-cases (is_seen refs ids r)) [
  | inl old ↦
      (ground (arith, old), keep_unseen-covers refs ids rs kept (e ∙ keep-seen refs ids r rs old))
  | inr new ↦
      let others = keep_unseen (r.source_ref ∷ refs) (record_identity r ∷ ids) rs in
      let here : kept ≡ r ∷ others = e ∙ keep-new refs ids r rs new in
      (
        rw here (ground (arith, eq_refl r.source_ref)),
        All-mono _ (λ x. (is_seen refs ids x || any (same_source x) kept) ≡ true)
            (λ x covered.
              rw here (ground (arith, seen_at refs ids r x, same_source_comm r x, covered)))
            rs (keep_unseen-covers (r.source_ref ∷ refs) (record_identity r ∷ ids) rs others refl),
      )
]

-- For every record of a batch, a record of the same source is among those that are stored.
pub latest-covers :
    (rs : List SourceRecord) → All (λ r. any (same_source r) (latest_source_records rs) ≡ true) rs
unfolding latest_source_records
latest-covers rs =
    let kept = keep_unseen [] [] (reverse rs) in
    let covers =
      All-mono _ (λ r. any (same_source r) (reverse kept) ≡ true)
        (λ r h. any-reverse (same_source r) kept ∙ h) (reverse rs)
        (keep_unseen-covers [] [] (reverse rs) kept refl) in
    subst (All (λ r. any (same_source r) (reverse kept) ≡ true)) (reverse-reverse rs)
      (All-reverse (λ r. any (same_source r) (reverse kept) ≡ true) (reverse rs) covers)
