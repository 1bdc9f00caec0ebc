-- ===== src/Augmentation/Recorded.antt =====
-- retrieval/augmentation.py: the result events against the primary key of their table.
use mathlib.Core.List.{append_assoc, append-nil}
use ok.Prelude.{
  ℕ, suc, String, ◌≡◌, refl, sym, ap, ◌∙◌, inl, inr, Bool, true, false, ◌||◌, List, [], ◌∷◌, ◌++◌,
  map, none, some, arith, ◌==◌, eq_refl, eq_iff, any, any-append, contains, Bool-cases,
  if◌then◌else◌,
}
use ok.Augmentation.Python.{Floats}
use ok.Augmentation.Rerank.{RetrievalCandidate}
use ok.Augmentation.Events.{
  ResultEvent, Telemetry, result_event, result_events_from, same_result, insert_results,
  result_rows, record_result_events,
}

-- whether a ref stands twice in a list
abbrev pub repeats : List String → Bool
repeats [] = false
repeats (ref ∷ refs) = contains refs ref || repeats refs

module _ {F : Type 0} (num : Floats F) where
  -- whether a row has the key of one of some rows
  abbrev clashes : List (ResultEvent num) → List (ResultEvent num) → Bool
  clashes events table = any (λ e. any (same_result num e) table) events

  abbrev repeated : List (ResultEvent num) → Bool
  repeated [] = false
  repeated (e ∷ events) = any (λ x. same_result num x e) events || repeated events

  clashes-snoc :
      (e : ResultEvent num) (events table : List (ResultEvent num))
      → clashes events (table ++ e ∷ [])
        ≡ (clashes events table || any (λ x. same_result num x e) events)
  clashes-snoc e [] table = refl
  clashes-snoc e (x ∷ events) table =
      ground (arith, any-append (same_result num x) table (e ∷ []), clashes-snoc e events table)

  or_assoc : (a b c : Bool) → ((a || b) || c) ≡ (a || (b || c))
  or_assoc true b c = refl
  or_assoc false b c = refl

  rows_lem :
      (table events : List (ResultEvent num)) (b : Bool)
      → result_rows num table (if b then none else some (table ++ events))
        ≡ (if b then table else table ++ events)
  rows_lem table events true = refl
  rows_lem table events false = refl

  -- the rows of one retrieval have one id
  same_refs :
      (id : String) (r : RetrievalCandidate num) (rank from : ℕ)
      (results : List (RetrievalCandidate num))
      → any
          (λ x. same_result num x (result_event num id rank r))
          (result_events_from num id from results)
        ≡ contains (map (λ x. x.source_ref) results) r.source_ref
  unfolding result_events_from
  same_refs id r rank from [] = refl
  same_refs id r rank from (x ∷ results) =
      ground (arith, eq_refl id, same_refs id r rank (suc from) results)

  no_clash :
      (id : String) (rank : ℕ) (r : RetrievalCandidate num) (table : List (ResultEvent num))
      → any (λ e. e.retrieval_query_event_id == id) table ≡ false
      → any (same_result num (result_event num id rank r)) table ≡ false
  no_clash id rank r [] h = refl
  no_clash id rank r (e ∷ table) h = ground (
    arith,
    eq_iff id e.retrieval_query_event_id,
    eq_iff e.retrieval_query_event_id id,
    h,
    no_clash id rank r table,
  )

  -- an insert succeeds exactly where no key would stand twice
  insert_results_lem :
      (events table : List (ResultEvent num))
      → insert_results num events table
        ≡ (if clashes events table || repeated events then none else some (table ++ events))
  unfolding insert_results
  insert_results_lem [] table = ap some (sym (append-nil table))
  insert_results_lem (e ∷ events) table = elim (Bool-cases (any (same_result num e) table)) [
    | inl taken ↦ rw taken refl
    | inr free ↦ rw free (
        insert_results_lem events (table ++ e ∷ [])
        ∙ rw (clashes-snoc e events table, append_assoc table (e ∷ []) events)
            (ap (λ b. if b then none else some (table ++ e ∷ events))
              (or_assoc (clashes events table) (any (λ x. same_result num x e) events)
                (repeated events))))
  ]

  -- the rows of one retrieval have equal keys where their refs are equal
  repeated-refs :
      (id : String) (rank : ℕ) (results : List (RetrievalCandidate num))
      → repeated (result_events_from num id rank results)
        ≡ repeats (map (λ r. r.source_ref) results)
  unfolding result_events_from
  repeated-refs id rank [] = refl
  repeated-refs id rank (r ∷ results) =
      ground (arith, same_refs id r rank (suc rank) results, repeated-refs id (suc rank) results)

  -- no row of a retrieval is in the table under an id that is new there
  no_clashes :
      (id : String) (rank : ℕ) (results : List (RetrievalCandidate num))
      (table : List (ResultEvent num))
      → any (λ e. e.retrieval_query_event_id == id) table ≡ false
      → clashes (result_events_from num id rank results) table ≡ false
  unfolding result_events_from
  no_clashes id rank [] table h = refl
  no_clashes id rank (r ∷ results) table h =
      ground (arith, no_clash id rank r table h, no_clashes id (suc rank) results table h)

  -- Where the id of the query is new to the table, the events of all results are stored, with their
  -- ranks from 1 on, if no source stands twice among the results; if one does, none is stored.
  pub record_result_events_all_or_none :
      (id : String) (results : List (RetrievalCandidate num)) (t : Telemetry num)
      → (id == "") ≡ false
      → any (λ e. e.retrieval_query_event_id == id) t.result_events ≡ false
      → (record_result_events num id results t).result_events ≡ (
          if repeats (map (λ r. r.source_ref) results)
          then t.result_events
          else t.result_events ++ result_events_from num id 1 results)
  unfolding record_result_events
  record_result_events_all_or_none id results t named new =
      rw
        (
          named,
          insert_results_lem (result_events_from num id 1 results) t.result_events,
          no_clashes id 1 results t.result_events new,
          repeated-refs id 1 results,
        )
        (rows_lem t.result_events (result_events_from num id 1 results)
          (repeats (map (λ r. r.source_ref) results)))
