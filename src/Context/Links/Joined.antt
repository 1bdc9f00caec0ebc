-- ===== src/Context/Links/Joined.antt =====
-- etl/load/context_objects.py: the links of a batch against its records.
use ok.Prelude.{
  String, ◌≡◌, refl, inl, inr, Bool, true, false, not, ◌&&◌, ◌||◌, List, [], ◌∷◌, map, arith, ◌==◌,
  eq_refl, contains, any, All, All-append, All-mono, All-select_where, Distinct, Bool-cases,
  Option-cases, Dict, get, values, index_by, group_at, Values, get-Values, values-All,
  index_by-Values, ltb, length, strip, words,
}
use ok.Records.{SourceRecord}
use ok.Storage.{EntityLinkRow, Environment}
use ok.Context.Links.{
  identity_relationships, comments_by_thread_ref, people, identity_links, thread_links,
  matching_text_field, mention_link, mention_links, comment_links, people_by_email, email_link,
  email_targets, email_pairs, email_links, record_links, dedupe_links, entity_links,
}
use ok.Context.Links.Values.{people_by_email-Values}

-- both ends of a link are among the refs
abbrev pub Joins : List String → EntityLinkRow → Type 0
Joins refs l = (contains refs l.source_ref ≡ true) × (contains refs l.object_ref ≡ true)

module _ (env : Environment) (refs : List String) where
  abbrev Known : SourceRecord → Type 0
  Known r = contains refs r.source_ref ≡ true

  abbrev AllJoin : List EntityLinkRow → Type 0
  AllJoin = All (Joins refs)

  identity_links-Join :
      (r : SourceRecord) (by_id : Dict SourceRecord) (ids : List (String × String))
      → Known r
      → Values Known by_id
      → AllJoin (identity_links env r by_id ids)
  unfolding identity_links
  identity_links-Join r by_id [] h hs = tt
  identity_links-Join r by_id ((relationship, id) ∷ ids) h hs =
      let rest = identity_links-Join r by_id ids h hs in
      elim (Option-cases (get by_id id)) [
        | inl missing ↦ rw (identity_links, missing) rest
        | inr (person, found) ↦
            rw (identity_links, found) ((h, get-Values Known id by_id hs found), rest)
      ]

  thread_links-Join :
      (r : SourceRecord) (by_ref : Dict SourceRecord)
      → Known r
      → Values Known by_ref
      → AllJoin (thread_links env r by_ref)
  unfolding thread_links
  thread_links-Join r by_ref h hs =
      elim (Bool-cases ((r.record_type == "message") && not (r.thread_ref == ""))) [
        | inr e ↦ rw e tt
        | inl e ↦ elim (Option-cases (get by_ref r.thread_ref)) [
          | inl missing ↦ rw (e, missing) tt
          | inr (parent, found) ↦ elim (Bool-cases (parent.source_ref == r.source_ref)) [
            | inl self ↦ rw (e, found, self) tt
            | inr other ↦
                rw (e, found, other) ((h, get-Values Known r.thread_ref by_ref hs found), tt)
          ]
        ]
      ]

  mention_link-Join :
      (r person : SourceRecord) → Known r → Known person → AllJoin (mention_link env r person)
  mention_link-Join r person h hp = elim (Bool-cases (person.source_system == r.source_system)) [
    | inr e ↦ rw e tt
    | inl e ↦ elim (Bool-cases (ltb (length (words (strip person.title))) 2)) [
      | inl short ↦ rw (e, short) tt
      | inr named ↦ elim (Option-cases (matching_text_field env r (strip person.title))) [
        | inl missing ↦ rw (e, named, missing) tt
        | inr (match_field, found) ↦ rw (e, named, found) ((h, hp), tt)
      ]
    ]
  ]

  mention_links-Join :
      (r : SourceRecord) (persons : List SourceRecord)
      → Known r
      → All Known persons
      → AllJoin (mention_links env r persons)
  unfolding mention_links
  mention_links-Join r [] h hs = tt
  mention_links-Join r (person ∷ persons) h hs = elim (Bool-cases (r.record_type == "person")) [
    | inl e ↦ rw e tt
    | inr e ↦ rw e (
        All-append (Joins refs) (mention_link env r person) (mention_links env r persons)
          (mention_link-Join r person h hs.0) (mention_links-Join r persons h hs.1))
  ]

  comment_links-Join :
      (r : SourceRecord) (by_id : Dict SourceRecord) (comments : List SourceRecord)
      → Known r
      → Values Known by_id
      → AllJoin (comment_links env r by_id comments)
  unfolding comment_links
  comment_links-Join r by_id [] h hs = tt
  comment_links-Join r by_id (comment ∷ comments) h hs =
      let rest = comment_links-Join r by_id comments h hs in
      elim (Option-cases (get by_id comment.author_ref)) [
        | inl missing ↦ rw (comment_links, missing) rest
        | inr (commenter, found) ↦
            rw (comment_links, found)
              ((h, get-Values Known comment.author_ref by_id hs found), rest)
      ]

  email_link-Join :
      (email : String) (source target : SourceRecord)
      → Known source
      → Known target
      → AllJoin (email_link env email source target)
  email_link-Join email source target h ht =
      elim (Bool-cases (
        (source.source_ref == target.source_ref)
        || (source.source_system == target.source_system))) [
          | inl e ↦ rw e tt
          | inr e ↦ rw e ((h, ht), tt)
        ]

  email_targets-Join :
      (email : String) (source : SourceRecord) (targets : List SourceRecord)
      → Known source
      → All Known targets
      → AllJoin (email_targets env email source targets)
  unfolding email_targets
  email_targets-Join email source [] h hs = tt
  email_targets-Join email source (target ∷ targets) h hs =
      All-append (Joins refs) (email_link env email source target) _
        (email_link-Join email source target h hs.0)
        (email_targets-Join email source targets h hs.1)

  email_pairs-Join :
      (email : String) (sources targets : List SourceRecord)
      → All Known sources
      → All Known targets
      → AllJoin (email_pairs env email sources targets)
  unfolding email_pairs
  email_pairs-Join email [] targets h hs = tt
  email_pairs-Join email (source ∷ sources) targets h hs =
      All-append (Joins refs) (email_targets env email source targets) _
        (email_targets-Join email source targets h.0 hs)
        (email_pairs-Join email sources targets h.1 hs)

  email_links-Join :
      (d : Dict (List SourceRecord)) → Values (All Known) d → AllJoin (email_links env d)
  unfolding email_links
  email_links-Join [] hs = tt
  email_links-Join ((email, rs) ∷ d) hs =
      All-append (Joins refs) (email_pairs env email rs rs) _
        (email_pairs-Join email rs rs hs.0 hs.0) (email_links-Join d hs.1)

  record_links-Join :
      (by_id by_ref : Dict SourceRecord) (comments : Dict (List SourceRecord))
      (rs : List SourceRecord)
      → Values Known by_id
      → Values Known by_ref
      → All Known rs
      → AllJoin (record_links env by_id by_ref comments rs)
  unfolding record_links
  record_links-Join by_id by_ref comments [] hi hr h = tt
  record_links-Join by_id by_ref comments (r ∷ rs) hi hr h =
      All-append (Joins refs) (identity_links env r by_id (identity_relationships r)) _
        (identity_links-Join r by_id (identity_relationships r) h.0 hi)
        (All-append (Joins refs) (thread_links env r by_ref) _ (thread_links-Join r by_ref h.0 hr) (
          All-append (Joins refs) (mention_links env r (values by_id)) _
            (mention_links-Join r (values by_id) h.0 (values-All Known by_id hi))
            (All-append (Joins refs) (comment_links env r by_id (group_at comments r.source_ref)) _
              (comment_links-Join r by_id (group_at comments r.source_ref) h.0 hi)
              (record_links-Join by_id by_ref comments rs hi hr h.1))))

  dedupe_links-Join :
      (seen : List String) (links : List EntityLinkRow)
      → AllJoin links
      → AllJoin (dedupe_links env seen links)
  unfolding dedupe_links
  dedupe_links-Join seen [] h = tt
  dedupe_links-Join seen (l ∷ links) h = elim (Bool-cases (contains seen l.link_ref)) [
    | inl e ↦ rw e (dedupe_links-Join seen links h.1)
    | inr e ↦ rw e (h.0, dedupe_links-Join (l.link_ref ∷ seen) links h.1)
  ]

  abbrev pub same_link : EntityLinkRow → EntityLinkRow → Bool
  same_link a b = a.link_ref == b.link_ref

  unseen-links :
      (seen : List String) (links : List EntityLinkRow)
      → All (λ l. contains seen l.link_ref ≡ false) (dedupe_links env seen links)
  unfolding dedupe_links
  unseen-links seen [] = tt
  unseen-links seen (l ∷ links) = elim (Bool-cases (contains seen l.link_ref)) [
    | inl e ↦ rw e (unseen-links seen links)
    | inr e ↦ rw e (
      e,
      All-mono _ (λ x. contains seen x.link_ref ≡ false) (λ x h. ground (arith, h)) _
          (unseen-links (l.link_ref ∷ seen) links),
    )
  ]

  new-same_link :
      (l : EntityLinkRow) (seen : List String) (links : List EntityLinkRow)
      → All (λ x. contains (l.link_ref ∷ seen) x.link_ref ≡ false) links
      → any (same_link l) links ≡ false
  new-same_link l seen [] h = refl
  new-same_link l seen (x ∷ links) h = ground (arith, h.0, new-same_link l seen links h.1)

  dedupe_links-Distinct :
      (seen : List String) (links : List EntityLinkRow)
      → Distinct same_link (dedupe_links env seen links)
  unfolding dedupe_links
  dedupe_links-Distinct seen [] = tt
  dedupe_links-Distinct seen (l ∷ links) = elim (Bool-cases (contains seen l.link_ref)) [
    | inl e ↦ rw e (dedupe_links-Distinct seen links)
    | inr e ↦ rw e (
      new-same_link l seen _ (unseen-links (l.link_ref ∷ seen) links),
      dedupe_links-Distinct (l.link_ref ∷ seen) links,
    )
  ]

  entity_links-from :
      (records : List SourceRecord)
      → All Known records
      → AllJoin (entity_links env records) × Distinct same_link (entity_links env records)
  unfolding entity_links people
  entity_links-from records h = (
    dedupe_links-Join [] _ (
        All-append (Joins refs) _ _
          (record_links-Join (people env records) (index_by (λ r. r.source_ref) [] records)
            (comments_by_thread_ref [] records) records
            (index_by-Values Known (λ r. r.source_id) [] _ (All-select_where Known _ records h) tt)
            (index_by-Values Known (λ r. r.source_ref) [] records h tt) h)
          (email_links-Join (people_by_email env [] records)
            (people_by_email-Values Known env records [] h tt))),
    dedupe_links-Distinct [] _,
  )

own_refs :
    (rs : List SourceRecord)
    → All (λ r. contains (map (λ x. x.source_ref) rs) r.source_ref ≡ true) rs
own_refs [] = tt
own_refs (r ∷ rs) = (
  ground (arith, eq_refl r.source_ref),
  All-mono _ (λ x. contains (map (λ y. y.source_ref) (r ∷ rs)) x.source_ref ≡ true)
      (λ x h. ground (arith, h)) rs (own_refs rs),
)

-- Each link that is derived from a batch joins two sources of the batch, and no two links of a batch
-- have the same ref.
pub entity_links-Joins :
    (env : Environment) (records : List SourceRecord)
    → All (Joins (map (λ r. r.source_ref) records)) (entity_links env records)
      × Distinct (λ a b. a.link_ref == b.link_ref) (entity_links env records)
entity_links-Joins env records =
    entity_links-from env (map (λ r. r.source_ref) records) records (own_refs records)
