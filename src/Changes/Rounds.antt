-- ===== src/Changes/Rounds.antt =====
-- etl/load/source_changes.py: one round of the loop of `apply_source_changes`, by its operation.
use mathlib.Core.Path.{subst}
use ok.Prelude.{
  String, ◌≡◌, refl, ◌≢◌, inl, inr, true, false, Option, none, some, arith, ◌==◌, eq_iff, get,
  get-put, return, ◌>>=◌, >>=-eq-return, return_inj, ◌or◌, Bool-cases, Option-cases,
}
use ok.Records.{SourceRecord}
use ok.Permissions.{PrincipalContext}
use ok.Storage.{Environment}
use ok.Lifecycle.{has_lifecycle}
use ok.Changes.{
  SourceChange, SourceChangeOperation, upsert, delete, restrict, restore, supersede, duplicate,
  LifecycleEntry, Loop, should_restore, upsert_change, inactive_change, inactive_state_for,
  target_source_ref, apply_change, operation_name,
}
use ok.Changes.Governed.{apply_inactive_change-IsGoverned}
use ok.Changes.Settled.{
  key, record_ref, Coherent, IsRound, table, restore-IsRound, existing-IsRound, unknown-IsRound,
  set-others,
}

abbrev pub change :
    SourceChangeOperation → Option SourceRecord → String → String → String → String → SourceChange
change operation r ref reason replacement group = record {
  operation = operation;
  source_record = r;
  source_ref = ref;
  reason = reason;
  replacement_ref = replacement;
  duplicate_group_ref = group;
}

-- what the loop knows of lifecycle rows
abbrev pub Entries : Loop → Type 0
Entries l = (ref : String) (e : LifecycleEntry) → get l.lifecycle ref ≡ some e → e.state ≢ "active"

-- a lifecycle row of the source is known to the loop
abbrev pub Known : Loop → String → Type 0
Known l ref = has_lifecycle (table l) ref ≡ true → get l.lifecycle ref ≢ none

inactive_state-ne-active :
    (operation : SourceChangeOperation) (state : String)
    → inactive_state_for operation ≡ return state
    → state ≢ "active"
unfolding inactive_state_for
inactive_state-ne-active restrict state h p = ground (arith, eq_iff "restricted" "active")
inactive_state-ne-active delete state h p = ground (arith, eq_iff "deleted" "active")
inactive_state-ne-active supersede state h p = ground (arith, eq_iff "supersede" "active")
inactive_state-ne-active duplicate state h p = ground (arith, eq_iff "duplicate" "active")
inactive_state-ne-active upsert state h p = cc
inactive_state-ne-active restore state h p = cc

should_restore-none : (r : SourceRecord) → should_restore r none ≡ false
unfolding should_restore
should_restore-none r = refl

module _ (env : Environment) (principal : PrincipalContext) (l : Loop) where
  upsert-IsRound :
      (r : SourceRecord)
      → Entries l
      → Known l r.source_ref
      → IsRound r.source_ref l (upsert_change env principal r l)
  unfolding upsert_change
  upsert-IsRound r entries known = elim (Option-cases (get l.lifecycle r.source_ref)) [
    | inl e ↦
        rw (e, should_restore-none r) (unknown-IsRound env principal r l (λ found. known found e))
    | inr (entry, e) ↦ elim (Bool-cases (should_restore r (some entry))) [
      | inl back ↦ rw (e, back) (restore-IsRound env principal r.source_ref r l refl)
      | inr kept ↦
          rw (e, kept) (existing-IsRound env principal r entry l (entries r.source_ref entry e))
    ]
  ]

  inactive-IsRound :
      (c : SourceChange) (ref state : String)
      → state ≢ "active"
      → IsRound ref l (inactive_change env principal c ref state l)
  unfolding inactive_change
  inactive-IsRound c ref state h =
      let entry : LifecycleEntry = record {
        state = state;
        reason = c.reason or operation_name c.operation;
      } in
      record {
        governed = apply_inactive_change-IsGoverned env _ h principal l.state;
        others = set-others env principal _ l.state;
        entries = λ other ne. ground (arith, get-put ref other entry l.lifecycle, eq_iff ref other);
        inactive = λ keep other e found. elim (Bool-cases (ref == other)) [
          | inl same ↦ λ p. h (ground (arith, get-put ref other entry l.lifecycle, same, found, p))
          | inr ne ↦ keep other e (ground (arith, get-put ref other entry l.lifecycle, ne, found))
        ];
        added = inl refl;
      }

  -- the ref that a change other than an upsert is applied to
  target-eq-key :
      (c : SourceChange) {k : String}
      → target_source_ref c ≡ return k
      → (c.source_ref or record_ref c.source_record) ≡ k
  unfolding target_source_ref
  target-eq-key c h = ground arith

  restore_change-IsRound :
      (r : SourceRecord) (ref reason replacement group : String) {l' : Loop}
      → apply_change env principal (change restore (some r) ref reason replacement group) l
        ≡ return l'
      → Coherent (change restore (some r) ref reason replacement group)
      → IsRound (ref or r.source_ref) l l'
  unfolding apply_change
  restore_change-IsRound r ref reason replacement group {l'} e coherent =
      let c = change restore (some r) ref reason replacement group in
      let (k, target, done) = >>=-eq-return (target_source_ref c) _ e in
      let same : (ref or r.source_ref) ≡ k = target-eq-key c target in
      let own : r.source_ref ≡ k = ground (arith, same, coherent) in
      rw same (
        subst (IsRound k l) (return_inj done)
          (restore-IsRound env principal k (record r { lifecycle_state = "active" }) l own))

  inactive_change-IsRound :
      (operation : SourceChangeOperation) (c : SourceChange) {l' : Loop}
      → (do
        inactive_state ← inactive_state_for operation
        ref ← target_source_ref c
        return (inactive_change env principal c ref inactive_state l))
        ≡ return l'
      → IsRound (c.source_ref or record_ref c.source_record) l l'
  inactive_change-IsRound operation c e =
      let (state, is_state, rest) = >>=-eq-return (inactive_state_for operation) _ e in
      let (k, target, done) = >>=-eq-return (target_source_ref c) _ rest in
      rw (target-eq-key c target) (
        subst (IsRound k l) (return_inj done)
          (inactive-IsRound c k state (inactive_state-ne-active operation state is_state)))

  change-IsRound :
      (operation : SourceChangeOperation) (r : Option SourceRecord)
      (ref reason replacement group : String) {l' : Loop}
      → apply_change env principal (change operation r ref reason replacement group) l ≡ return l'
      → Coherent (change operation r ref reason replacement group)
      → Entries l
      → Known l (key (change operation r ref reason replacement group))
      → IsRound (key (change operation r ref reason replacement group)) l l'
  unfolding apply_change
  change-IsRound upsert none ref reason replacement group e coherent entries known = cc
  change-IsRound upsert (some r) ref reason replacement group e coherent entries known =
      subst (IsRound r.source_ref l) (return_inj e) (upsert-IsRound r entries known)
  change-IsRound restore none ref reason replacement group e coherent entries known = cc
  change-IsRound restore (some r) ref reason replacement group e coherent entries known =
      restore_change-IsRound r ref reason replacement group e coherent
  change-IsRound delete r ref reason replacement group e coherent entries known =
      inactive_change-IsRound delete (change delete r ref reason replacement group) e
  change-IsRound restrict r ref reason replacement group e coherent entries known =
      inactive_change-IsRound restrict (change restrict r ref reason replacement group) e
  change-IsRound supersede r ref reason replacement group e coherent entries known =
      inactive_change-IsRound supersede (change supersede r ref reason replacement group) e
  change-IsRound duplicate r ref reason replacement group e coherent entries known =
      inactive_change-IsRound duplicate (change duplicate r ref reason replacement group) e

  -- A round that returns changes nothing of the other sources, and hides what it has to hide.
  pub apply_change-IsRound :
      (c : SourceChange) {l' : Loop}
      → apply_change env principal c l ≡ return l'
      → Coherent c
      → Entries l
      → Known l (key c)
      → IsRound (key c) l l'
  apply_change-IsRound c e coherent entries known =
      change-IsRound c.operation c.source_record c.source_ref c.reason c.replacement_ref
        c.duplicate_group_ref e coherent entries known
