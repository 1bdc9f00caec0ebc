-- ===== src/Audit/Counts.antt =====
-- governance/audit.py, `_counts` and `audit_summary`: the counts against the events.
use ok.Prelude.{
  ℕ, ◌+◌, String, ◌≡◌, refl, ap, ◌∙◌, inl, inr, Bool, true, false, ◌||◌, List, [], ◌∷◌, map, arith,
  ◌==◌, eq_iff, any, Distinct, Bool-cases, length, select_where, if◌then◌else◌, lt_text,
}
use ok.Storage.{State, AuditEventRow, Environment}
use ok.Audit.{
  bump, count_values, insert_count, sort_counts, counts, audit_summary, audit_events, no_filter,
  passes, non_empty,
}

-- how often a text stands in a list
abbrev pub occurrences : String → List String → ℕ
occurrences key [] = 0
occurrences key (v ∷ vs) = (if v == key then 1 else 0) + occurrences key vs

-- what a list of counts says of a key
abbrev pub tally : String → List (String × ℕ) → ℕ
tally key [] = 0
tally key (c ∷ cs) = (if c.0 == key then c.1 else 0) + tally key cs

abbrev pub same_key : String × ℕ → String × ℕ → Bool
same_key a b = a.0 == b.0

tally-bump :
    (key v : String) (cs : List (String × ℕ))
    → tally key (bump v cs) ≡ (if v == key then 1 else 0) + tally key cs
unfolding bump
tally-bump key v [] = refl
tally-bump key v ((k, n) ∷ cs) = elim (Bool-cases (k == v)) [
  | inl same ↦
      let here : k ≡ v = (eq_iff k v).0 same in
      rw same (elim (Bool-cases (k == key)) [
        | inl e ↦ let e' : (v == key) ≡ true = rw here at e in rw (e, e') (omega arith)
        | inr e ↦ let e' : (v == key) ≡ false = rw here at e in rw (e, e') (omega arith)
      ])
  | inr differ ↦ rw differ (omega (arith, tally-bump key v cs))
]

tally-count_values :
    (key : String) (cs : List (String × ℕ)) (vs : List String)
    → tally key (count_values cs vs) ≡ tally key cs + occurrences key vs
unfolding count_values
tally-count_values key cs [] = omega arith
tally-count_values key cs (v ∷ vs) =
    omega (arith, tally-count_values key (bump v cs) vs, tally-bump key v cs)

tally-insert_count :
    (key : String) (c : String × ℕ) (cs : List (String × ℕ))
    → tally key (insert_count c cs) ≡ (if c.0 == key then c.1 else 0) + tally key cs
unfolding insert_count
tally-insert_count key c [] = refl
tally-insert_count key c (d ∷ cs) = elim (Bool-cases (lt_text d.0 c.0)) [
  | inl e ↦ rw e (omega (arith, tally-insert_count key c cs))
  | inr e ↦ rw e refl
]

tally-sort_counts :
    (key : String) (cs : List (String × ℕ)) → tally key (sort_counts cs) ≡ tally key cs
unfolding sort_counts
tally-sort_counts key [] = refl
tally-sort_counts key (c ∷ cs) =
    omega (arith, tally-insert_count key c (sort_counts cs), tally-sort_counts key cs)

-- which keys are counted
any-bump :
    (key v : String) (cs : List (String × ℕ))
    → any (λ d. key == d.0) (bump v cs) ≡ ((key == v) || any (λ d. key == d.0) cs)
unfolding bump
any-bump key v [] = refl
any-bump key v ((k, n) ∷ cs) = elim (Bool-cases (k == v)) [
  | inl same ↦ let here : k ≡ v = (eq_iff k v).0 same in rw same (rw here (ground arith))
  | inr differ ↦ rw differ (ground (arith, any-bump key v cs))
]

bump-Distinct :
    (v : String) (cs : List (String × ℕ)) → Distinct same_key cs → Distinct same_key (bump v cs)
unfolding bump
bump-Distinct v [] d = (refl, tt)
bump-Distinct v ((k, n) ∷ cs) d = elim (Bool-cases (k == v)) [
  | inl same ↦ rw same d
  | inr differ ↦ rw differ (ground (arith, any-bump k v cs, differ, d.0), bump-Distinct v cs d.1)
]

count_values-Distinct :
    (cs : List (String × ℕ)) (vs : List String)
    → Distinct same_key cs
    → Distinct same_key (count_values cs vs)
unfolding count_values
count_values-Distinct cs [] d = d
count_values-Distinct cs (v ∷ vs) d = count_values-Distinct (bump v cs) vs (bump-Distinct v cs d)

any-insert_count :
    (key : String) (c : String × ℕ) (cs : List (String × ℕ))
    → any (λ d. key == d.0) (insert_count c cs) ≡ ((key == c.0) || any (λ d. key == d.0) cs)
unfolding insert_count
any-insert_count key c [] = refl
any-insert_count key c (d ∷ cs) = elim (Bool-cases (lt_text d.0 c.0)) [
  | inl e ↦ rw e (ground (arith, any-insert_count key c cs))
  | inr e ↦ rw e refl
]

insert_count-Distinct :
    (c : String × ℕ) (cs : List (String × ℕ))
    → any (same_key c) cs ≡ false
    → Distinct same_key cs
    → Distinct same_key (insert_count c cs)
unfolding insert_count
insert_count-Distinct c [] new d = (refl, tt)
insert_count-Distinct c (e ∷ cs) new d = elim (Bool-cases (lt_text e.0 c.0)) [
  | inl below ↦ rw below (
    ground (arith, any-insert_count e.0 c cs, new, d.0, eq_iff e.0 c.0, eq_iff c.0 e.0),
    insert_count-Distinct c cs (ground (arith, new)) d.1,
  )
  | inr above ↦ rw above (new, d)
]

any-sort_counts :
    (key : String) (cs : List (String × ℕ))
    → any (λ d. key == d.0) (sort_counts cs) ≡ any (λ d. key == d.0) cs
unfolding sort_counts
any-sort_counts key [] = refl
any-sort_counts key (c ∷ cs) =
    ground (arith, any-insert_count key c (sort_counts cs), any-sort_counts key cs)

sort_counts-Distinct :
    (cs : List (String × ℕ)) → Distinct same_key cs → Distinct same_key (sort_counts cs)
unfolding sort_counts
sort_counts-Distinct [] d = tt
sort_counts-Distinct (c ∷ cs) d =
    insert_count-Distinct c (sort_counts cs) (any-sort_counts c.0 cs ∙ d.0)
      (sort_counts-Distinct cs d.1)

-- a list of counts that names each value once, with the number of its occurrences
pub record CountsOf (values : List String) (found : List (String × ℕ)) : Type 0 where
  pub once : Distinct same_key found
  pub right : (key : String) → tally key found ≡ occurrences key values

pub counts-CountsOf : (values : List String) → CountsOf values (counts values)
unfolding counts
counts-CountsOf values = record {
  once = sort_counts-Distinct (count_values [] values) (count_values-Distinct [] values tt);
  right = λ key.
      omega
        (arith, tally-sort_counts key (count_values [] values), tally-count_values key [] values);
}

all-pass :
    (env : Environment) (rows : List AuditEventRow)
    → select_where (passes env no_filter) rows ≡ rows
all-pass env [] = refl
all-pass env (row ∷ rows) = ap (λ rest. row ∷ rest) (all-pass env rows)

-- The summary counts all events of the trail: their number, and how often each event type, each
-- non-empty decision and each non-empty human id occurs, with no value listed twice.
pub audit_summary-CountsOf :
    (env : Environment) (s : State)
    → let summary = audit_summary env s in
      (summary.total_events ≡ length s.audit_events)
      × CountsOf (map (λ e. e.event_type) s.audit_events) summary.event_types
      × CountsOf (non_empty (map (λ e. e.decision) s.audit_events)) summary.decisions
      × CountsOf (non_empty (map (λ e. e.human_id) s.audit_events)) summary.humans
unfolding audit_summary audit_events
audit_summary-CountsOf env s =
    let all = all-pass env s.audit_events in
    (
      ap length all,
      rw all (counts-CountsOf (map (λ e. e.event_type) s.audit_events)),
      rw all (counts-CountsOf (non_empty (map (λ e. e.decision) s.audit_events))),
      rw all (counts-CountsOf (non_empty (map (λ e. e.human_id) s.audit_events))),
    )
