-- ===== src/Webhooks/Claimed.antt =====
-- runtime/webhooks.py, `_claim_pending_events`: a claim that is large enough for the whole inbox.
use ok.Prelude.{
  ℕ, zero, suc, ◌≤◌, String, ◌≡◌, refl, ap, ◌∙◌, inl, inr, Bool, true, false, ◌&&◌, ◌||◌, List, [],
  ◌∷◌, map, arith, ◌==◌, eq_iff, eq_refl, any, any-select_where, contains, All, All-mono, All-map,
  All-take, All-zip, All-select_where_if, Distinct, Bool-cases, length, length-select_where, take,
  select_where,
}
use ok.Webhooks.{
  WebhookEvent, same_event, counted, is_due, arrives_before, insert_event_row, sort_events,
  is_claimed_by, mark_processing, mark_all_processing, claim_pending_events,
}
use ok.Webhooks.Attempts.{is_pending, same_id, Bounded, All-sort, Counted, claim-Agreed}

abbrev pub ids : List WebhookEvent → List String
ids = map (λ e. e.event_id)

-- an event that waits is due
abbrev pub Ready : String → WebhookEvent → Type 0
Ready now e = is_pending e ≡ true → is_due now e ≡ true

any-insert :
    (q : WebhookEvent → Bool) (e : WebhookEvent) (es : List WebhookEvent)
    → any q (insert_event_row e es) ≡ (q e || any q es)
any-insert q e [] = refl
any-insert q e (x ∷ es) = elim (Bool-cases (arrives_before x e)) [
  | inl first ↦ rw first (ground (arith, any-insert q e es))
  | inr last ↦ rw last refl
]

any-sort_events :
    (q : WebhookEvent → Bool) (es : List WebhookEvent) → any q (sort_events es) ≡ any q es
any-sort_events q [] = refl
any-sort_events q (e ∷ es) =
    any-insert q e (sort_events es) ∙ ap (λ b. q e || b) (any-sort_events q es)

length-sort_events : (es : List WebhookEvent) → length (sort_events es) ≡ length es
length-sort_events [] = refl
length-sort_events (e ∷ es) = longer (sort_events es) ∙ ap suc (length-sort_events es)
  where
    longer : (xs : List WebhookEvent) → length (insert_event_row e xs) ≡ suc (length xs)
    longer [] = refl
    longer (x ∷ xs) = elim (Bool-cases (arrives_before x e)) [
      | inl first ↦ rw first (ap suc (longer xs))
      | inr last ↦ rw last refl
    ]

take_all : (n : ℕ) (es : List WebhookEvent) → length es ≤ n → take n es ≡ es
take_all zero [] h = refl
take_all zero (e ∷ es) h = absurd (omega arith)
take_all (suc n) [] h = refl
take_all (suc n) (e ∷ es) h = ap (λ l. e ∷ l) (take_all n es (omega arith))

contains-counted :
    (id : String) (es : List WebhookEvent)
    → contains (ids (map counted es)) id ≡ any (λ e. e.event_id == id) es
contains-counted id [] = refl
contains-counted id (e ∷ es) = ap (λ b. (e.event_id == id) || b) (contains-counted id es)

-- an event that waits is among the claimed ones
abbrev Covered : List String → WebhookEvent → Type 0
Covered claimed e = is_pending e ≡ true → contains claimed e.event_id ≡ true

mark_rows-clears :
    (rows events : List WebhookEvent)
    → All (Covered (ids rows)) events
    → All (λ e. is_pending e ≡ false) (mark_all_processing rows events)
mark_rows-clears [] events h =
    All-mono _ (λ e. is_pending e ≡ false)
      (λ e covered. elim (Bool-cases (is_pending e)) [
        | inl waits ↦ cc (covered waits)
        | inr done ↦ done
      ])
      events h
mark_rows-clears (row ∷ rows) events h =
    mark_rows-clears rows (mark_processing row events) (marked events h)
  where
    marked :
        (es : List WebhookEvent)
        → All (Covered (ids (row ∷ rows))) es
        → All (Covered (ids rows)) (mark_processing row es)
    marked [] hs = tt
    marked (e ∷ es) hs = elim (Bool-cases (is_claimed_by row e)) [
      | inl hit ↦ rw hit ((λ waits. cc waits), marked es hs.1)
      | inr miss ↦ rw miss (
        λ waits.
            let known : contains (ids (row ∷ rows)) e.event_id ≡ true = hs.0 waits in
            ground (
              arith,
              known,
              miss,
              waits,
              eq_iff row.event_id e.event_id,
              eq_iff e.event_id row.event_id,
            ),
        marked es hs.1,
      )
    ]

-- an event that is due is found among the ones that are
due-found :
    (now : String) (events : List WebhookEvent)
    → All
        (λ e.
          is_due now e ≡ true → any (λ x. is_due now x && (x.event_id == e.event_id)) events ≡ true)
        events
due-found now [] = tt
due-found now (e ∷ es) = (
  λ due. ground (arith, due, eq_refl e.event_id),
  All-mono _
      (λ x.
        is_due now x ≡ true → any (λ y. is_due now y && (y.event_id == x.event_id)) (e ∷ es) ≡ true)
      (λ x found due. ground (arith, found due)) es (due-found now es),
)

module _ (limit : ℕ) (now : String) (events : List WebhookEvent) (enough : length events ≤ limit)
    (ready : All (Ready now) events) where
  abbrev due : List WebhookEvent
  due = sort_events (select_where (is_due now) events)

  claims_all : take limit due ≡ due
  claims_all = take_all limit due (
      omega (
        arith,
        length-sort_events (select_where (is_due now) events),
        length-select_where (is_due now) events,
      ))

  claimed-Covered : All (Covered (ids (map counted (take limit due)))) events
  claimed-Covered =
      All-zip (Ready now)
        (λ e.
          is_due now e ≡ true → any (λ x. is_due now x && (x.event_id == e.event_id)) events ≡ true)
        (Covered (ids (map counted (take limit due))))
        (λ e ready found waits.
          ap (λ es. contains (ids (map counted es)) e.event_id) claims_all
          ∙ contains-counted e.event_id due
          ∙ any-sort_events (λ x. x.event_id == e.event_id) (select_where (is_due now) events)
          ∙ any-select_where (λ x. x.event_id == e.event_id) (is_due now) events
          ∙ found (ready waits))
        events ready (due-found now events)

  -- a claim that is large enough leaves no event that waits
  pub claim_clears : All (λ e. is_pending e ≡ false) (claim_pending_events limit now events).1
  unfolding claim_pending_events
  claim_clears = mark_rows-clears (map counted (take limit due)) events claimed-Covered

-- the row of a claimed event has its attempts
known_attempts :
    (k : ℕ) (x : WebhookEvent) (rows : List WebhookEvent)
    → All (Counted x) rows
    → All (λ r. k ≤ r.attempt_count) rows
    → contains (ids rows) x.event_id ≡ true
    → k ≤ x.attempt_count
known_attempts k x [] agrees many known = cc known
known_attempts k x (r ∷ rows) agrees many known = elim (Bool-cases (same_id x r)) [
  | inl same ↦ omega (arith, agrees.0 same, many.0)
  | inr other ↦
      known_attempts k x rows agrees.1 many.1
        (ground (arith, known, other, eq_iff r.event_id x.event_id, eq_iff x.event_id r.event_id))
]

-- each claimed event has one attempt more than any event that waits has at least
pub claimed_attempts :
    (most k limit : ℕ) (now : String) (events : List WebhookEvent)
    → Distinct same_event events
    → All (Bounded most) events
    → All (λ e. is_pending e ≡ true → k ≤ e.attempt_count) events
    → let (rows, marked) = claim_pending_events limit now events in
      All (λ e. contains (ids rows) e.event_id ≡ true → suc k ≤ e.attempt_count) marked
unfolding claim_pending_events
claimed_attempts most k limit now events d h many =
    let rows = map counted (take limit (sort_events (select_where (is_due now) events))) in
    let counts : All (λ r. suc k ≤ r.attempt_count) rows = All-map _ counted _ (
      All-take _ limit _ (
        All-sort (λ e. suc k ≤ suc e.attempt_count) (select_where (is_due now) events)
          (All-select_where_if _ (is_due now) events (
            All-mono _ (λ e. is_due now e ≡ true → suc k ≤ suc e.attempt_count)
              (λ e old due.
                let waits : is_pending e ≡ true = ground (arith, due) in omega (arith, old waits))
              events many)))) in
    All-mono _ (λ e. contains (ids rows) e.event_id ≡ true → suc k ≤ e.attempt_count)
      (λ e agreed known. known_attempts (suc k) e rows agreed.0 counts known) _
      (claim-Agreed most limit now events d h)
