-- ===== src/Changes/Batch.antt =====
-- etl/load/source_changes.py: the loop of `apply_source_changes`, from the lifecycle table to the
-- storing of the records.
use ok.Prelude.{
  ℕ, String, ◌≡◌, ◌≢◌, inl, inr, true, List, [], ◌∷◌, none, some, arith, ◌==◌, All, All-append,
  All-zip, All-intro, List-cases, Bool-cases, Result-cases, get, Result, return, raise,
}
use ok.Records.{SourceRecord}
use ok.Permissions.{PrincipalContext}
use ok.Storage.{State, SourceLifecycleRow, Environment}
use ok.Lifecycle.{has_lifecycle}
use ok.Changes.{
  SourceChange, LifecycleEntry, Loop, lifecycle_state_by_ref, apply_change, apply_changes, finish,
  apply_source_changes,
}
use ok.Changes.Governed.{IsGoverned}
use ok.Changes.Stored.{RecordHidden, store_active_records-IsGoverned}
use ok.Changes.Settled.{key, Settled, IsRound, table}
use ok.Changes.Rounds.{Entries, Known, apply_change-IsRound}

-- what holds of the loop before the changes that are left
record Inv (todo : List SourceChange) (l : Loop) : Type 0 where
  governed : IsGoverned l.state
  entries : Entries l
  known : All (λ d. Known l (key d)) todo
  arrived : All (RecordHidden (table l)) l.active_records
  fresh : All (λ d. All (λ r. r.source_ref ≢ key d) l.active_records) todo

module _ (c : SourceChange) (rest : List SourceChange) (l l' : Loop)
    (round : IsRound (key c) l l') where
  Known-round : (d : SourceChange) → key d ≢ key c → Known l (key d) → Known l' (key d)
  Known-round d other known = rw (round.others (key d) other, round.entries (key d) other) known

  hidden-round :
      (r : SourceRecord)
      → r.source_ref ≢ key c
      → RecordHidden (table l) r
      → RecordHidden (table l') r
  hidden-round r other h = rw (round.others r.source_ref other) h

  kept-hidden :
      All (RecordHidden (table l)) l.active_records
      → All (λ r. r.source_ref ≢ key c) l.active_records
      → All (RecordHidden (table l')) l.active_records
  kept-hidden arrived fresh =
      All-zip (RecordHidden (table l)) (λ r. r.source_ref ≢ key c) (RecordHidden (table l'))
        (λ r h other. hidden-round r other h) l.active_records arrived fresh

  arrived-round :
      All (RecordHidden (table l)) l.active_records
      → All (λ r. r.source_ref ≢ key c) l.active_records
      → All (RecordHidden (table l')) l'.active_records
  arrived-round arrived fresh = elim round.added [
    | inl same ↦ rw same (kept-hidden arrived fresh)
    | inr (r, e, own, h) ↦ rw e (
        All-append (RecordHidden (table l')) l.active_records (r ∷ []) (kept-hidden arrived fresh)
          (h, tt))
  ]

  fresh-round :
      (d : SourceChange)
      → key d ≢ key c
      → All (λ r. r.source_ref ≢ key d) l.active_records
      → All (λ r. r.source_ref ≢ key d) l'.active_records
  fresh-round d other fresh = elim round.added [
    | inl same ↦ rw same fresh
    | inr (r, e, own, h) ↦ rw e (
        All-append (λ x. x.source_ref ≢ key d) l.active_records (r ∷ []) fresh
          ((λ p. other (cc (p, own))), tt))
  ]

  Inv-round : All (λ d. key d ≢ key c) rest → Inv (c ∷ rest) l → Inv rest l'
  Inv-round others h = record {
    governed = round.governed h.governed;
    entries = round.inactive h.entries;
    known =
        All-zip (λ d. key d ≢ key c) (λ d. Known l (key d)) (λ d. Known l' (key d)) Known-round rest
          others h.known.1;
    arrived = arrived-round h.arrived h.fresh.0;
    fresh =
        All-zip (λ d. key d ≢ key c) (λ d. All (λ r. r.source_ref ≢ key d) l.active_records)
          (λ d. All (λ r. r.source_ref ≢ key d) l'.active_records) fresh-round rest others
          h.fresh.1;
  }

module _ (env : Environment) (principal : PrincipalContext) where
  Inv-finish :
      (max_words overlap_words : ℕ) (e : Result (Unit {0})) (l : Loop)
      → IsGoverned l.state
      → All (RecordHidden (table l)) l.active_records
      → IsGoverned (finish env principal max_words overlap_words (e, l)).1
  unfolding finish
  Inv-finish max_words overlap_words (raise e) l g arrived = g
  Inv-finish max_words overlap_words (return _) l g arrived = elim (List-cases l.active_records) [
    | inl e ↦ rw (e, finish) g
    | inr (r, rest, e) ↦
        rw (e, finish)
          (store_active_records-IsGoverned env max_words overlap_words (r ∷ rest) l.state
            (rw e at arrived) g)
  ]

  Inv-changes :
      (max_words overlap_words : ℕ) (changes : List SourceChange) (l : Loop)
      → Settled changes
      → Inv changes l
      → IsGoverned
          (finish env principal max_words overlap_words (apply_changes env principal changes l)).1
  unfolding apply_changes
  Inv-changes max_words overlap_words [] l settled h =
      Inv-finish max_words overlap_words (return tt) l h.governed h.arrived
  Inv-changes max_words overlap_words (c ∷ rest) l settled h =
      elim (Result-cases (apply_change env principal c l)) [
        | inl (e, raised) ↦
            rw (raised, apply_changes)
              (Inv-finish max_words overlap_words (raise e) l h.governed h.arrived)
        | inr (l', returned) ↦
            rw (returned, apply_changes)
              (Inv-changes max_words overlap_words rest l' settled.2 (
                Inv-round c rest l l'
                  (apply_change-IsRound env principal l c returned settled.0 h.entries h.known.0)
                  settled.1 h))
      ]

-- every lifecycle row is known at the start
get-by_ref :
    (rows : List SourceLifecycleRow) (ref : String)
    → has_lifecycle rows ref ≡ true
    → get (lifecycle_state_by_ref rows) ref ≢ none
unfolding lifecycle_state_by_ref get
get-by_ref [] ref h = cc
get-by_ref (row ∷ rows) ref h = ground (arith, get-by_ref rows ref)

entries-by_ref :
    (rows : List SourceLifecycleRow)
    → All (λ row. row.state ≢ "active") rows
    → (ref : String) (e : LifecycleEntry) → get (lifecycle_state_by_ref rows) ref ≡ some e
    → e.state ≢ "active"
unfolding lifecycle_state_by_ref get
entries-by_ref [] h ref e found = cc
entries-by_ref (row ∷ rows) h ref e found = elim (Bool-cases (row.source_ref == ref)) [
  | inl same ↦ λ p. h.0 (ground (arith, same, found, p))
  | inr ne ↦ entries-by_ref rows h.1 ref e (ground (arith, ne, found))
]

-- Where no source with a lifecycle row is active, and no lifecycle row says `active`, the same holds
-- behind a batch, also behind one that raises, provided that the batch names each source once and
-- that a change that restores a source brings a record of that source, or none.
pub apply_source_changes-IsGoverned :
    (env : Environment) (principal : PrincipalContext) (max_words overlap_words : ℕ)
    (changes : List SourceChange) (s : State)
    → Settled changes
    → IsGoverned s
    → IsGoverned (apply_source_changes env principal max_words overlap_words changes s).1
unfolding apply_source_changes
apply_source_changes-IsGoverned env principal max_words overlap_words changes s settled g =
    Inv-changes env principal max_words overlap_words changes _ settled (record {
      governed = g;
      entries = entries-by_ref s.source_lifecycle g.inactive;
      known = All-intro _ (λ d. get-by_ref s.source_lifecycle (key d)) changes;
      arrived = tt;
      fresh = All-intro _ (λ d. tt) changes;
    })
