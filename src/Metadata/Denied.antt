-- ===== src/Metadata/Denied.antt =====
-- etl/load/source_metadata.py, `denied_source_refs`: the refused rows against what a principal holds.
use ok.Prelude.{
  String, ◌≡◌, refl, ◌↔◌, ◌⊎◌, inl, inr, true, false, List, [], ◌∷◌, arith, eq_iff, any, contains,
  All, Bool-cases, List-cases,
}
use ok.Json.{decode_permission_refs}
use ok.Permissions.{PrincipalContext, GroupInheritance, principal_permission_refs}
use ok.Permissions.Access.{Holds, principal_permission_refs-Holds, common, any-common}
use ok.Storage.{SourceRecordRow}
use ok.Metadata.{is_denied, denied_source_refs}

-- A row is open to a principal if it names no permission, or one that the principal holds.
abbrev pub Open : PrincipalContext → GroupInheritance → SourceRecordRow → Type 0
Open principal inheritance row =
    (decode_permission_refs row.permission_refs ≡ [])
    ⊎ ((ref : String) × (contains (decode_permission_refs row.permission_refs) ref ≡ true)
        × Holds principal inheritance ref)

module _ (principal : PrincipalContext) (inheritance : GroupInheritance)
    (row : SourceRecordRow) where
  Open-allowed : is_denied principal inheritance row ≡ false → Open principal inheritance row
  unfolding is_denied
  Open-allowed h =
      elim (Bool-cases (
        any (λ x. contains (principal_permission_refs principal inheritance) x)
          (decode_permission_refs row.permission_refs))) [
            | inl e ↦
                let (ref, named, held) =
                  common (decode_permission_refs row.permission_refs)
                    (principal_permission_refs principal inheritance) e in
                inr (ref, named, (principal_permission_refs-Holds principal inheritance ref).0 held)
            | inr e ↦ elim (List-cases (decode_permission_refs row.permission_refs)) [
              | inl empty ↦ inl empty
              | inr (x, rest, some_refs) ↦ absurd (ground (arith, some_refs, e, h))
            ]
          ]

  allowed-Open : Open principal inheritance row → is_denied principal inheritance row ≡ false
  unfolding is_denied
  allowed-Open (inl empty) = rw empty refl
  allowed-Open (inr (ref, named, holds)) = ground (
    arith,
    any-common (decode_permission_refs row.permission_refs)
        (principal_permission_refs principal inheritance) ref named
        ((principal_permission_refs-Holds principal inheritance ref).1 holds),
  )

-- A row is not refused to a principal exactly when it names no permission, or one that the principal
-- holds.
pub is_denied_iff :
    (principal : PrincipalContext) (inheritance : GroupInheritance) (row : SourceRecordRow)
    → (is_denied principal inheritance row ≡ false) ↔ Open principal inheritance row
is_denied_iff principal inheritance row =
    (Open-allowed principal inheritance row, allowed-Open principal inheritance row)

-- A ref that is not among the denied ones has no row that is refused.
pub not-denied-Open :
    (principal : PrincipalContext) (inheritance : GroupInheritance) (ref : String)
    (rows : List SourceRecordRow)
    → contains (denied_source_refs principal inheritance rows) ref ≡ false
    → All (λ row. row.source_ref ≡ ref → Open principal inheritance row) rows
unfolding denied_source_refs
not-denied-Open principal inheritance ref [] h = tt
not-denied-Open principal inheritance ref (row ∷ rows) h =
    elim (Bool-cases (is_denied principal inheritance row)) [
      | inl e ↦ (
        λ same. absurd (ground (arith, eq_iff row.source_ref ref, e, h)),
        not-denied-Open principal inheritance ref rows (ground (arith, e, h)),
      )
      | inr e ↦ (
        λ _. Open-allowed principal inheritance row e,
        not-denied-Open principal inheritance ref rows (ground (arith, e, h)),
      )
    ]
