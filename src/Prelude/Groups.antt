-- ===== src/Prelude/Groups.antt =====
-- Dictionaries that are filled from a list: the last value of a key, or all values of a key; and
-- predicates on the values of a dictionary.
use Prim.Native.String.{String}
use mathlib.Core.Path.{◌≡◌, refl, sym, ap, ◌∙◌}
use mathlib.Core.Logic.{inl, inr}
use mathlib.Core.Option.{Option, none, some}
use mathlib.Core.List.{List, [], ◌∷◌, ◌++◌, map}
use text.Mathlib.Text.{◌==◌}
use text.Mathlib.TextEquality.{eq_iff}
use mathlib.Core.Bool.{false}
use ok.Prelude.Tests.{Bool-cases}
use ok.Prelude.Lists.{All, All-append, contains}
use ok.Prelude.Dicts.{Dict, get, put, values, get-put}

module _ {ℓ} {V : Type ℓ} where
  -- a later element replaces one with the same key
  unfoldable pub index_by : (V → String) → Dict V → List V → Dict V
  index_by key d [] = d
  index_by key d (v ∷ rest) = index_by key (put (key v) v d) rest

  -- `d.setdefault(key, []).append(value)`
  abbrev pub append_to : String → V → Dict (List V) → Option (List V) → Dict (List V)
  append_to key v d none = put key (v ∷ []) d
  append_to key v d (some vs) = put key (vs ++ v ∷ []) d

  abbrev pub append_at : String → V → Dict (List V) → Dict (List V)
  append_at key v d = append_to key v d (get d key)

  unfoldable pub group_by : (V → String) → Dict (List V) → List V → Dict (List V)
  group_by key_of d [] = d
  group_by key d (v ∷ rest) = group_by key (append_at (key v) v d) rest

  -- `d.get(key, [])`
  abbrev pub group_at : Dict (List V) → String → List V
  group_at d key = elim (get d key) [ none ↦ [] | some vs ↦ vs ]

module _ {ℓ κ} {V : Type ℓ} (P : V → Type κ) where
  abbrev pub Values : Dict V → Type κ
  Values d = All (λ e. P e.1) d

  pub put-Values : (key : String) (v : V) (d : Dict V) → P v → Values d → Values (put key v d)
  unfolding put
  put-Values key v [] h hs = (h, tt)
  put-Values key v ((k, w) ∷ d) h hs = elim (Bool-cases (k == key)) [
    | inl e ↦ rw e (h, hs.1)
    | inr e ↦ rw e (hs.0, put-Values key v d h hs.1)
  ]

  pub get-Values : (key : String) (d : Dict V) {v : V} → Values d → get d key ≡ some v → P v
  unfolding get
  get-Values key [] hs e = cc
  get-Values key ((k, w) ∷ d) {v} hs e = elim (Bool-cases (k == key)) [
    | inl same ↦ let found : w ≡ v = cc (rw same at e) in rw found at hs.0
    | inr differ ↦ get-Values key d hs.1 (rw differ at e)
  ]

  pub values-All : (d : Dict V) → Values d → All P (values d)
  unfolding values
  values-All [] hs = tt
  values-All ((k, w) ∷ d) hs = (hs.0, values-All d hs.1)

  pub index_by-Values :
      (key : V → String) (d : Dict V) (vs : List V)
      → All P vs
      → Values d
      → Values (index_by key d vs)
  unfolding index_by
  index_by-Values key d [] h hs = hs
  index_by-Values key d (v ∷ vs) h hs =
      index_by-Values key (put (key v) v d) vs h.1 (put-Values (key v) v d h.0 hs)

module _ {ℓ κ} {V : Type ℓ} (P : V → Type κ) where
  pub append_to-Values :
      (key : String) (v : V) (d : Dict (List V)) (o : Option (List V))
      → P v
      → Values (All P) d
      → get d key ≡ o
      → Values (All P) (append_to key v d o)
  append_to-Values key v d none h hs e = put-Values (All P) key (v ∷ []) d (h, tt) hs
  append_to-Values key v d (some vs) h hs e =
      put-Values (All P) key (vs ++ v ∷ []) d
        (All-append P vs (v ∷ []) (get-Values (All P) key d hs e) (h, tt)) hs

  pub group_by-Values :
      (key : V → String) (d : Dict (List V)) (vs : List V)
      → All P vs
      → Values (All P) d
      → Values (All P) (group_by key d vs)
  unfolding group_by
  group_by-Values key d [] h hs = hs
  group_by-Values key d (v ∷ vs) h hs =
      group_by-Values key (append_at (key v) v d) vs h.1
        (append_to-Values (key v) v d (get d (key v)) h.0 hs refl)

  group-All :
      (o : Option (List V))
      → ((vs : List V) → o ≡ some vs → All P vs)
      → All P (elim o [ none ↦ [] | some vs ↦ vs ])
  group-All none h = tt
  group-All (some vs) h = h vs refl

  pub group_at-All : (d : Dict (List V)) (key : String) → Values (All P) d → All P (group_at d key)
  group_at-All d key hs = group-All (get d key) (λ vs e. get-Values (All P) key d hs e)

-- a dictionary whose values have their keys
module _ {ℓ} {V : Type ℓ} (key_of : V → String) where
  abbrev pub Keyed : Dict V → Type 0
  Keyed d = All (λ e. key_of e.1 ≡ e.0) d

  put-Keyed : (v : V) (d : Dict V) → Keyed d → Keyed (put (key_of v) v d)
  unfolding put
  put-Keyed v [] h = (refl, tt)
  put-Keyed v ((k, w) ∷ d) h = elim (Bool-cases (k == key_of v)) [
    | inl e ↦ rw e (sym ((eq_iff k (key_of v)).0 e), h.1)
    | inr e ↦ rw e (h.0, put-Keyed v d h.1)
  ]

  index_by-Keyed : (d : Dict V) (vs : List V) → Keyed d → Keyed (index_by key_of d vs)
  unfolding index_by
  index_by-Keyed d [] h = h
  index_by-Keyed d (v ∷ vs) h = index_by-Keyed (put (key_of v) v d) vs (put-Keyed v d h)

  get-Keyed : (key : String) (d : Dict V) {v : V} → Keyed d → get d key ≡ some v → key_of v ≡ key
  unfolding get
  get-Keyed key [] h e = cc
  get-Keyed key ((k, w) ∷ d) {v} h e = elim (Bool-cases (k == key)) [
    | inl same ↦
        let found : w ≡ v = cc (rw same at e) in sym (ap key_of found) ∙ h.0 ∙ (eq_iff k key).0 same
    | inr differ ↦ get-Keyed key d h.1 (rw differ at e)
  ]

  -- the value of a key is an element with that key
  pub get-index_by {κ} :
      (P : V → Type κ) (key : String) (vs : List V) {v : V}
      → All P vs
      → get (index_by key_of [] vs) key ≡ some v
      → P v × (key_of v ≡ key)
  get-index_by P key vs h e = (
    get-Values P key _ (index_by-Values P key_of [] vs h tt) e,
    get-Keyed key _ (index_by-Keyed [] vs tt) e,
  )

  -- a key without a value is the key of no element
  pub get-index_by-none :
      (key : String) (d : Dict V) (vs : List V)
      → get (index_by key_of d vs) key ≡ none
      → (get d key ≡ none) × (contains (map key_of vs) key ≡ false)
  unfolding index_by
  get-index_by-none key d [] e = (e, refl)
  get-index_by-none key d (v ∷ vs) e =
      let (missing, absent) = get-index_by-none key (put (key_of v) v d) vs e in
      let placed = get-put (key_of v) key v d in
      elim (Bool-cases (key_of v == key)) [
        | inl same ↦ cc (rw same at placed, missing)
        | inr differ ↦ (sym (rw differ at placed) ∙ missing, rw differ absent)
      ]
