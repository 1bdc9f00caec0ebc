-- ===== src/Webhooks/Attempts.antt =====
-- runtime/webhooks.py: the count of the attempts of an event, from claim to outcome.
use mathlib.Core.Path.{subst}
use ok.Prelude.{
  ℕ, suc, ◌≤◌, String, ◌≡◌, refl, sym, ap, ◌∙◌, ◌⊎◌, inl, inr, Bool, true, false, List, [], ◌∷◌,
  map, arith, ◌==◌, eq_iff, any, contains, All, All-mono, All-map, All-zip, All-take,
  All-select_where_if, Distinct, Bool-cases, take, select_where,
}
use ok.Webhooks.{
  WebhookEvent, same_event, counted, is_due, sort_events, insert_event_row, arrives_before,
  is_claimed_by, in_work, mark_processing, mark_all_processing, claim_pending_events,
}

abbrev pub is_pending : WebhookEvent → Bool
is_pending e = e.status == "pending"

-- no more attempts than allowed, and fewer while the event waits
abbrev pub Bounded : ℕ → WebhookEvent → Type 0
Bounded most e = (e.attempt_count ≤ most) × (is_pending e ≡ true → suc e.attempt_count ≤ most)

abbrev pub same_id : WebhookEvent → WebhookEvent → Bool
same_id x c = x.event_id == c.event_id

abbrev ids : List WebhookEvent → List String
ids = map (λ e. e.event_id)

-- rows with the same id are one row
abbrev Same : WebhookEvent → WebhookEvent → Type 0
Same x c = same_id x c ≡ true → x ≡ c

others-Same :
    (e : WebhookEvent) (es : List WebhookEvent)
    → any (same_event e) es ≡ false
    → All (λ c. Same e c × Same c e) es
others-Same e [] h = tt
others-Same e (c ∷ es) h =
    let differ : same_id c e ≡ false = ground (arith, h) in
    let differ' : same_id e c ≡ false =
      ground (arith, differ, eq_iff c.event_id e.event_id, eq_iff e.event_id c.event_id) in
    (
      (λ same. cc (sym differ' ∙ same), λ same. cc (sym differ ∙ same)),
      others-Same e es (ground (arith, h)),
    )

Distinct-Same :
    (events : List WebhookEvent)
    → Distinct same_event events
    → All (λ x. All (Same x) events) events
Distinct-Same [] d = tt
Distinct-Same (e ∷ es) d =
    let others = others-Same e es d.0 in
    (
      (λ _. refl, All-mono _ (Same e) (λ c h. h.0) es others),
      All-zip (λ c. Same e c × Same c e) (λ x. All (Same x) es) (λ x. All (Same x) (e ∷ es))
          (λ x h rest. (h.1, rest)) es others (Distinct-Same es d.1),
    )

module _ (P : WebhookEvent → Type 0) where
  All-insert :
      (e : WebhookEvent) (es : List WebhookEvent) → P e → All P es → All P (insert_event_row e es)
  All-insert e [] h hs = (h, tt)
  All-insert e (x ∷ es) h hs = elim (Bool-cases (arrives_before x e)) [
    | inl first ↦ rw first (hs.0, All-insert e es h hs.1)
    | inr last ↦ rw last (h, hs)
  ]

  pub All-sort : (es : List WebhookEvent) → All P es → All P (sort_events es)
  All-sort [] hs = tt
  All-sort (e ∷ es) hs = All-insert e (sort_events es) hs.0 (All-sort es hs.1)

-- a row against a claimed one: it waits, and its attempt is not yet counted
abbrev Untaken : WebhookEvent → WebhookEvent → Type 0
Untaken x c = same_id x c ≡ true → (is_pending x ≡ true) × (c.attempt_count ≡ suc x.attempt_count)

due-Untaken :
    (now : String) (x c : WebhookEvent) → Same x c → is_due now c ≡ true → Untaken x (counted c)
due-Untaken now x c h due same =
    let one : x ≡ c = h same in
    let waits : is_pending c ≡ true = ground (arith, due) in
    (subst (λ e. is_pending e ≡ true) (sym one) waits, ap (λ e. suc e.attempt_count) (sym one))

claimed-Untaken :
    (limit : ℕ) (now : String) (events : List WebhookEvent) (x : WebhookEvent)
    → All (Same x) events
    → All (Untaken x) (map counted (take limit (sort_events (select_where (is_due now) events))))
claimed-Untaken limit now events x h =
    let due = select_where (is_due now) events in
    All-map (Untaken x) counted (take limit (sort_events due)) (
      All-take _ limit (sort_events due) (
        All-sort (λ c. Untaken x (counted c)) due
          (All-select_where_if (λ c. Untaken x (counted c)) (is_due now) events
            (All-mono (Same x) _ (λ c same due. due-Untaken now x c same due) events h))))

-- a row whose attempt is counted, as the claimed one says
abbrev pub Counted : WebhookEvent → WebhookEvent → Type 0
Counted x c = same_id x c ≡ true → x.attempt_count ≡ c.attempt_count

-- While the claimed rows are marked, a row of the table is done with, or it still waits for one of
-- the rest.
module _ (most : ℕ) (claimed : List WebhookEvent) where
  record Taken (x : WebhookEvent) : Type 0 where
    agrees : All (Counted x) claimed
    not_pending : is_pending x ≡ false
    few : x.attempt_count ≤ most

  record Open (rest : List WebhookEvent) (x : WebhookEvent) : Type 0 where
    untaken : All (Untaken x) claimed
    ahead : All (Untaken x) rest
    bounded : Bounded most x
    covered : contains (ids claimed) x.event_id ≡ true → contains (ids rest) x.event_id ≡ true

  abbrev Stage : List WebhookEvent → WebhookEvent → Type 0
  Stage rest x = Taken x ⊎ Open rest x

  in_work-Taken :
      (m : WebhookEvent) (rest : List WebhookEvent) (x : WebhookEvent)
      → Open (m ∷ rest) x
      → same_id x m ≡ true
      → Taken (in_work m x)
  in_work-Taken m rest x o same =
      let (waits, next) = o.ahead.0 same in
      record {
        agrees =
            All-mono (Untaken x) (Counted (in_work m x)) (λ c h same'. next ∙ sym (h same').1)
              claimed o.untaken;
        not_pending = refl;
        few = omega (arith, next, o.bounded.1 waits);
      }

  passed :
      (m : WebhookEvent) (rest : List WebhookEvent) (x : WebhookEvent)
      → Open (m ∷ rest) x
      → same_id x m ≡ false
      → Open rest x
  passed m rest x o other = record {
    untaken = o.untaken;
    ahead = o.ahead.1;
    bounded = o.bounded;
    covered = λ known.
        let ahead : contains (ids (m ∷ rest)) x.event_id ≡ true = o.covered known in
        ground (arith, ahead, other, eq_iff m.event_id x.event_id, eq_iff x.event_id m.event_id);
  }

  mark-Stage :
      (m : WebhookEvent) (rest events : List WebhookEvent)
      → All (Stage (m ∷ rest)) events
      → All (Stage rest) (mark_processing m events)
  mark-Stage m rest [] hs = tt
  mark-Stage m rest (x ∷ events) (inl taken, hs) =
      let kept : is_claimed_by m x ≡ false = ground (arith, taken.not_pending) in
      rw kept (inl taken, mark-Stage m rest events hs)
  mark-Stage m rest (x ∷ events) (inr o, hs) = elim (Bool-cases (same_id x m)) [
    | inl same ↦
        let hit : is_claimed_by m x ≡ true = ground (arith, same, (o.ahead.0 same).0) in
        rw hit (inl (in_work-Taken m rest x o same), mark-Stage m rest events hs)
    | inr other ↦
        let kept : is_claimed_by m x ≡ false = ground (arith, other) in
        rw kept (inr (passed m rest x o other), mark-Stage m rest events hs)
  ]

  mark_rows-Stage :
      (rest events : List WebhookEvent)
      → All (Stage rest) events
      → All (Stage []) (mark_all_processing rest events)
  mark_rows-Stage [] events hs = hs
  mark_rows-Stage (m ∷ rest) events hs =
      mark_rows-Stage rest (mark_processing m events) (mark-Stage m rest events hs)

-- what holds of a row once all are marked, for the claimed rows that are not yet settled
abbrev pub Agreed : ℕ → List WebhookEvent → WebhookEvent → Type 0
Agreed most rows x = All (Counted x) rows × Bounded most x

strangers-Counted :
    (x : WebhookEvent) (rows : List WebhookEvent)
    → contains (ids rows) x.event_id ≡ false
    → All (Counted x) rows
strangers-Counted x [] h = tt
strangers-Counted x (c ∷ rows) h =
    let differ : same_id x c ≡ false =
      ground (arith, h, eq_iff c.event_id x.event_id, eq_iff x.event_id c.event_id) in
    (λ same. cc (sym differ ∙ same), strangers-Counted x rows (ground (arith, h)))

at_end :
    (most : ℕ) (claimed : List WebhookEvent) (x : WebhookEvent)
    → Stage most claimed [] x
    → Agreed most claimed x
at_end most claimed x (inl taken) =
    (taken.agrees, (taken.few, λ waits. cc (sym taken.not_pending ∙ waits)))
at_end most claimed x (inr o) = elim (Bool-cases (contains (ids claimed) x.event_id)) [
  | inl known ↦ cc (o.covered known)
  | inr unknown ↦ (strangers-Counted x claimed unknown, o.bounded)
]

pub claim-Agreed :
    (most limit : ℕ) (now : String) (events : List WebhookEvent)
    → Distinct same_event events
    → All (Bounded most) events
    → let (rows, marked) = claim_pending_events limit now events in All (Agreed most rows) marked
unfolding claim_pending_events
claim-Agreed most limit now events d h =
    let rows = map counted (take limit (sort_events (select_where (is_due now) events))) in
    All-mono (Stage most rows []) (Agreed most rows) (at_end most rows)
      (mark_all_processing rows events)
      (mark_rows-Stage most rows rows events (
        All-zip (λ x. All (Same x) events) (Bounded most) (Stage most rows rows)
          (λ x same bounded. inr (record {
            untaken = claimed-Untaken limit now events x same;
            ahead = claimed-Untaken limit now events x same;
            bounded = bounded;
            covered = λ known. known;
          }))
          events (Distinct-Same events d) h))
