-- ===== src/Lifecycle/Purge.antt =====
-- governance/lifecycle.py, `purge_expired_raw_sources`: the raw files against the retention.
use mathlib.Core.Path.{subst}
use ok.Prelude.{
  ℕ, String, ◌≡◌, refl, sym, ap, inl, inr, ◌⊎◌, Bool, true, false, not, ◌&&◌, List, [], ◌∷◌, map,
  Option, some, arith, ◌==◌, eq_iff, any, Bool-cases, select_where, sort_by, lt_text, Error, Result,
  return, raise, Result-cases, ◌>>=◌, if◌then◌else◌,
}
use ok.Storage.{State, SourceLifecycleRow, RawFile, Environment, delete_raw, exists_raw}
use ok.Lifecycle.{is_reached, is_expired, after_row, purge_rows, purge_expired_raw_sources}

module _ (env : Environment) where
  exists-delete_raw :
      (gone ref : String) (files : List RawFile)
      → exists_raw env ref (delete_raw env gone files)
        ≡ (not (env.path_for gone == env.path_for ref) && exists_raw env ref files)
  exists-delete_raw gone ref [] = ground arith
  exists-delete_raw gone ref (f ∷ files) =
      let rest = exists-delete_raw gone ref files in
      elim (Bool-cases (f.path == env.path_for gone)) [
        | inl e ↦ rw e (
            ground (
              arith,
              rest,
              e,
              eq_iff f.path (env.path_for gone),
              eq_iff f.path (env.path_for ref),
              eq_iff (env.path_for gone) (env.path_for ref),
            ))
        | inr e ↦ rw e (
            ground (
              arith,
              rest,
              e,
              eq_iff f.path (env.path_for gone),
              eq_iff f.path (env.path_for ref),
              eq_iff (env.path_for gone) (env.path_for ref),
            ))
      ]

module _ (parse : String → Result (Option ℕ)) (cutoff : ℕ) where
  abbrev parsed_reached : Result (Option ℕ) → Bool
  parsed_reached (raise e) = false
  parsed_reached (return recorded_at) = is_reached cutoff recorded_at

  -- a source that is restricted since a time up to the cutoff
  abbrev pub is_overdue : SourceLifecycleRow → Bool
  is_overdue row = (row.state == "restricted") && parsed_reached (parse row.recorded_at)

  abbrev parsed_raises : Result (Option ℕ) → Bool
  parsed_raises (raise e) = true
  parsed_raises (return recorded_at) = false

  -- a restricted source whose time is malformed
  abbrev pub is_malformed : SourceLifecycleRow → Bool
  is_malformed row = (row.state == "restricted") && parsed_raises (parse row.recorded_at)

  -- the rows in front of the first malformed one
  abbrev pub before_malformed : List SourceLifecycleRow → List SourceLifecycleRow
  before_malformed [] = []
  before_malformed (row ∷ rows) =
      let rest = before_malformed rows in if is_malformed row then [] else row ∷ rest

  -- the loop meets a malformed row, or finds whether the row is due
  expired-cases :
      (row : SourceLifecycleRow)
      → ((e : Error) × (is_expired parse cutoff row ≡ raise e) × (is_malformed row ≡ true))
        ⊎ ((is_expired parse cutoff row ≡ return (is_overdue row)) × (is_malformed row ≡ false))
  expired-cases row = elim (Bool-cases (row.state == "restricted")) [
    | inl restricted ↦ elim (Result-cases (parse row.recorded_at)) [
      | inl (e, raised) ↦ inl (e, rw (restricted, raised) refl, rw (restricted, raised) refl)
      | inr (at, parsed) ↦ inr (rw (restricted, parsed) refl, rw (restricted, parsed) refl)
    ]
    | inr other ↦ inr (rw other refl, rw other refl)
  ]

  -- what the loop answers: the refs of the due rows, or an error where a row is malformed
  abbrev Answers : List SourceLifecycleRow → Result (List String) → Type 0
  Answers rows purged =
      ((any is_malformed rows ≡ false)
        × (purged ≡ return (map (λ row. row.source_ref) (select_where is_overdue rows))))
      ⊎ ((any is_malformed rows ≡ true) × ((e : Error) × (purged ≡ raise e)))

  raise-bind :
      (purged : Result (List String)) (f : List String → Result (List String))
      → ((e : Error) × (purged ≡ raise e))
      → (e : Error) × ((purged >>= f) ≡ raise e)
  raise-bind purged f (e, h) = (e, ap (λ m. m >>= f) h)

  module _ (env : Environment) where
    rows-Answers :
        (rows : List SourceLifecycleRow) (files : List RawFile)
        → Answers rows (purge_rows env parse cutoff rows files).0
    unfolding purge_rows
    rows-Answers [] files = inl (refl, refl)
    rows-Answers (row ∷ rows) files =
        let purged = purge_rows env parse cutoff rows (delete_raw env row.source_ref files) in
        let kept = purge_rows env parse cutoff rows files in
        let behind : Result Bool → Type 0 =
          λ m. Answers (row ∷ rows) (after_row row.source_ref files purged kept m).0 in
        elim (expired-cases row) [
          | inl (e, raised, bad) ↦ subst behind (sym raised) (inr (rw bad refl, (e, refl)))
          | inr (done, good) ↦ elim (Bool-cases (is_overdue row)) [
            | inl due ↦
                subst behind (sym (rw due at done))
                  (elim (rows-Answers rows (delete_raw env row.source_ref files)) [
                    | inl (fine, answered) ↦ inl (
                        rw (good, due)
                          (fine, ap (λ m. m >>= λ refs. return (row.source_ref ∷ refs)) answered))
                    | inr (bad, raised) ↦ inr (
                        rw good (bad, raise-bind _ (λ refs. return (row.source_ref ∷ refs)) raised))
                  ])
            | inr left ↦ subst behind (sym (rw left at done)) (elim (rows-Answers rows files) [
              | inl (fine, answered) ↦ inl (rw (good, left) (fine, answered))
              | inr (bad, raised) ↦ inr (rw good (bad, raised))
            ])
          ]
        ]

    -- whether a row asks for the file of a ref to be purged
    abbrev pub asks : String → SourceLifecycleRow → Bool
    asks ref row = is_overdue row && (env.path_for row.source_ref == env.path_for ref)

    rows-exist :
        (ref : String) (rows : List SourceLifecycleRow) (files : List RawFile)
        → exists_raw env ref (purge_rows env parse cutoff rows files).1
          ≡ (not (any (asks ref) (before_malformed rows)) && exists_raw env ref files)
    unfolding purge_rows
    rows-exist ref [] files = refl
    rows-exist ref (row ∷ rows) files =
        let purged = purge_rows env parse cutoff rows (delete_raw env row.source_ref files) in
        let kept = purge_rows env parse cutoff rows files in
        let behind : Result Bool → Type 0 = λ m.
          exists_raw env ref (after_row row.source_ref files purged kept m).1
          ≡ (not (any (asks ref) (before_malformed (row ∷ rows))) && exists_raw env ref files) in
        elim (expired-cases row) [
          | inl (e, raised, bad) ↦ subst behind (sym raised) (rw bad refl)
          | inr (done, good) ↦ elim (Bool-cases (is_overdue row)) [
            | inl due ↦ subst behind (sym (rw due at done)) (
                rw (good, due)
                  (ground (
                    arith,
                    due,
                    rows-exist ref rows (delete_raw env row.source_ref files),
                    exists-delete_raw env row.source_ref ref files,
                  )))
            | inr left ↦
                subst behind (sym (rw left at done))
                  (rw (good, left) (ground (arith, left, rows-exist ref rows files)))
          ]
        ]

    -- With a raw store, the purge changes nothing else. Where no restricted source has a malformed
    -- time, it answers the sorted refs of the sources that are restricted since a time up to the
    -- cutoff; where one has, it raises. A raw file is there behind it exactly if it was there before,
    -- and is not the file of such a source; behind a purge that raises, the sources from the first
    -- malformed row on do not count.
    pub purge_expired_raw_sources-exists :
        (s : State) (files : List RawFile)
        → s.raw_store ≡ some files
        → let outcome = (purge_expired_raw_sources env parse cutoff s).0 in
          let rows = s.source_lifecycle in
          ((left : List RawFile) × ((purge_expired_raw_sources env parse cutoff s).1
              ≡ record s { raw_store = some left })
            × ((ref : String)
                → exists_raw env ref left
                  ≡ (not (any (asks ref) (before_malformed rows)) && exists_raw env ref files)))
          × (((any is_malformed rows ≡ false)
                × (outcome
                    ≡ return (
                        sort_by lt_text
                          (map (λ row. row.source_ref) (select_where is_overdue rows)))))
              ⊎ ((any is_malformed rows ≡ true) × ((e : Error) × (outcome ≡ raise e))))
    unfolding purge_expired_raw_sources
    purge_expired_raw_sources-exists s files stored = (
      (
        (purge_rows env parse cutoff s.source_lifecycle files).1,
        rw stored refl,
        λ ref. rows-exist ref s.source_lifecycle files,
      ),
      elim (rows-Answers s.source_lifecycle files) [
        | inl (fine, answered) ↦
            inl (fine, rw stored (ap (λ m. m >>= λ refs. return (sort_by lt_text refs)) answered))
        | inr (bad, raised) ↦
            inr (bad, rw stored (raise-bind _ (λ refs. return (sort_by lt_text refs)) raised))
      ],
    )
