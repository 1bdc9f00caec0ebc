-- ===== src/Examples/Changes.antt =====
-- A page that is restricted, alone and behind an upsert in the same batch.
use ok.Prelude.{refl, List, [], ◌∷◌, none, get}
use ok.Records.{effective_lifecycle_state}
use ok.Permissions.{local_default}
use ok.Storage.{empty_state, test_environment}
use ok.Changes.{SourceChange, restrict, change_of, apply_source_changes, lifecycle_state_by_ref}
use ok.Changes.Governed.{IsGoverned}
use ok.Changes.Settled.{Settled}
use ok.Changes.Batch.{apply_source_changes-IsGoverned}
use ok.Changes.Overtaken.{upsert_then_restrict, upsert_then_restrict-not-IsGoverned}
use ok.Examples.Governance.{page, one_page, one_page-IsGoverned}

abbrev legal_hold : List SourceChange
legal_hold = change_of restrict none "wiki:page:1" "legal" ∷ []

legal_hold-Settled : Settled legal_hold
legal_hold-Settled = (tt, tt, tt)

apply_source_changes-IsGoverned_example :
    IsGoverned (apply_source_changes test_environment local_default 90 15 legal_hold one_page).1
apply_source_changes-IsGoverned_example =
    apply_source_changes-IsGoverned test_environment local_default 90 15 legal_hold one_page
      legal_hold-Settled one_page-IsGoverned

upsert_then_restrict-not-IsGoverned_example :
    ¬ IsGoverned
      (apply_source_changes test_environment local_default 90 15
        (upsert_then_restrict page "legal")
        empty_state).1
unfolding lifecycle_state_by_ref effective_lifecycle_state get
upsert_then_restrict-not-IsGoverned_example =
    upsert_then_restrict-not-IsGoverned test_environment local_default 90 15 page "legal"
      empty_state refl refl (λ p. cc p)
