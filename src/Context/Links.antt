-- ===== src/Context/Links.antt =====
-- etl/load/context_objects.py: the entity links that are derived from a batch of records.
mod Values
pub mod Joined
use ok.Prelude.{
  String, not, ◌&&◌, ◌||◌, List, [], ◌∷◌, ◌++◌, Option, none, some, ◌==◌, ltb, length, contains,
  concat, select_where, strip, words, lt_text, Dict, get, put, values, index_by, append_at,
  group_at, if◌then◌else◌,
}
use ok.Json.{Fields, str, end, field, get_field, text_of}
use ok.Records.{SourceRecord, SourceIdentity}
use ok.Storage.{EntityLinkRow, Environment}

-- `_append_link`: every link is certain, and has the status "linked"
abbrev link : String → String → String → Fields → String → EntityLinkRow
link source_ref object_ref relationship_type evidence reason = record {
  link_ref = concat (source_ref ∷ "->" ∷ object_ref ∷ ":" ∷ relationship_type ∷ []);
  source_ref = source_ref;
  object_ref = object_ref;
  relationship_type = relationship_type;
  confidence = 1;
  evidence_json = evidence;
  reason = reason;
  status = "linked";
}

-- `_source_identity_relationships`
identity_relationships : SourceRecord → List (String × String)
identity_relationships r =
    let assignee_id = text_of (get_field r.metadata "assignee_id") in
    let user_id = text_of (get_field r.metadata "user_id") in
    (if r.author_ref == "" then [] else ("author", r.author_ref) ∷ [])
    ++ ((if assignee_id == "" then [] else ("assignee", assignee_id) ∷ [])
        ++ (if not (user_id == "") && (r.author_ref == "") then ("author", user_id) ∷ [] else []))

comments_by_thread_ref : Dict (List SourceRecord) → List SourceRecord → Dict (List SourceRecord)
comments_by_thread_ref d [] = d
comments_by_thread_ref d (r ∷ rest) =
    comments_by_thread_ref
      (if (r.record_type == "message") && not (r.thread_ref == "")
        then append_at r.thread_ref r d
        else d)
      rest

module _ (env : Environment) where
  -- `_employee_entity_ref`
  pub employee_entity_ref : List SourceIdentity → String
  employee_entity_ref [] = ""
  employee_entity_ref (i ∷ rest) =
      let other = employee_entity_ref rest in
      if (i.identity_type == "email") && not (i.value == "")
      then concat ("employee:email:" ∷ env.lower i.value ∷ [])
      else other

  -- `person_by_source_id`
  pub people : List SourceRecord → Dict SourceRecord
  people records =
      index_by (λ r. r.source_id) []
        (select_where
          (λ r. (r.record_type == "person") && not (employee_entity_ref r.source_identities == ""))
          records)

  identity_links : SourceRecord → Dict SourceRecord → List (String × String) → List EntityLinkRow
  identity_links r by_id [] = []
  identity_links r by_id ((relationship, id) ∷ rest) =
      let others = identity_links r by_id rest in
      elim (get by_id id) [
        | none ↦ others
        | some person ↦
            link r.source_ref person.source_ref relationship
              (field "entity_ref" (str (employee_entity_ref person.source_identities)) (
                field "source_identity_ref" (str id)
                  (field "source_identity_field" (str relationship) end)))
              "deterministic_source_identity"
            ∷ others
      ]

  pub thread_links : SourceRecord → Dict SourceRecord → List EntityLinkRow
  thread_links r by_ref =
      if (r.record_type == "message") && not (r.thread_ref == "")
      then elim (get by_ref r.thread_ref) [
        | none ↦ []
        | some parent ↦
            if parent.source_ref == r.source_ref
            then []
            else link r.source_ref parent.source_ref "parent_work_item"
                (field "thread_ref" (str r.thread_ref) end) "deterministic_thread_ref"
              ∷ []
      ]
      else []

  -- `_matching_text_field`
  pub matching_text_field : SourceRecord → String → Option String
  matching_text_field r text =
      if not (r.title == "") && env.mentions r.title text
      then some "title"
      else if not (r.body == "") && env.mentions r.body text
      then some "body"
      else none

  abbrev mention_link : SourceRecord → SourceRecord → List EntityLinkRow
  mention_link r person =
      let display_name = strip person.title in
      if not (person.source_system == r.source_system)
      then []
      else if ltb (length (words display_name)) 2
      then []
      else elim (matching_text_field r display_name) [
        | none ↦ []
        | some match_field ↦
            link r.source_ref person.source_ref "mentioned_person"
              (field "matched_text" (str display_name) (field "match_field" (str match_field) end))
              "deterministic_full_name_mention"
            ∷ []
      ]

  -- `_full_name_mention_links`
  pub mention_links : SourceRecord → List SourceRecord → List EntityLinkRow
  mention_links r [] = []
  mention_links r (person ∷ rest) =
      let others = mention_links r rest in
      if r.record_type == "person" then [] else mention_link r person ++ others

  pub comment_links : SourceRecord → Dict SourceRecord → List SourceRecord → List EntityLinkRow
  comment_links r by_id [] = []
  comment_links r by_id (comment ∷ rest) =
      let others = comment_links r by_id rest in
      elim (get by_id comment.author_ref) [
        | none ↦ others
        | some commenter ↦
            link r.source_ref commenter.source_ref "commenter"
              (field "comment_source_ref" (str comment.source_ref) end)
              "deterministic_thread_comment_author"
            ∷ others
      ]

  -- `sorted(set(emails))`
  pub insert_email : String → List String → List String
  insert_email e [] = e ∷ []
  insert_email e (f ∷ rest) =
      let below = insert_email e rest in
      if e == f then f ∷ rest else if lt_text e f then e ∷ f ∷ rest else f ∷ below

  pub person_emails : List SourceIdentity → List String
  person_emails [] = []
  person_emails (i ∷ rest) =
      let emails = person_emails rest in
      if (i.identity_type == "email") && not (i.value == "")
      then insert_email (env.casefold (strip i.value)) emails
      else emails

  pub add_emails : SourceRecord → List String → Dict (List SourceRecord) → Dict (List SourceRecord)
  add_emails r [] d = d
  add_emails r (e ∷ rest) d = add_emails r rest (append_at e r d)

  pub people_by_email : Dict (List SourceRecord) → List SourceRecord → Dict (List SourceRecord)
  people_by_email d [] = d
  people_by_email d (r ∷ rest) =
      people_by_email
        (if r.record_type == "person"
          then add_emails r (person_emails r.source_identities) d
          else d)
        rest

  abbrev email_link : String → SourceRecord → SourceRecord → List EntityLinkRow
  email_link email source target =
      if (source.source_ref == target.source_ref) || (source.source_system == target.source_system)
      then []
      else link source.source_ref target.source_ref "same_email_identity"
          (field "email" (str email) end) "exact_email_identity_match"
        ∷ []

  pub email_targets : String → SourceRecord → List SourceRecord → List EntityLinkRow
  email_targets email source [] = []
  email_targets email source (target ∷ rest) =
      email_link email source target ++ email_targets email source rest

  pub email_pairs : String → List SourceRecord → List SourceRecord → List EntityLinkRow
  email_pairs email [] targets = []
  email_pairs email (source ∷ rest) targets =
      email_targets email source targets ++ email_pairs email rest targets

  -- `_same_email_identity_matches`
  pub email_links : Dict (List SourceRecord) → List EntityLinkRow
  email_links [] = []
  email_links ((email, rs) ∷ rest) = email_pairs email rs rs ++ email_links rest

  pub record_links :
      Dict SourceRecord
      → Dict SourceRecord
      → Dict (List SourceRecord)
      → List SourceRecord
      → List EntityLinkRow
  record_links by_id by_ref comments [] = []
  record_links by_id by_ref comments (r ∷ rest) =
      identity_links r by_id (identity_relationships r)
      ++ (thread_links r by_ref
          ++ (mention_links r (values by_id)
              ++ (comment_links r by_id (group_at comments r.source_ref)
                  ++ record_links by_id by_ref comments rest)))

  -- `_dedupe_links`: the first link with a ref is kept
  pub dedupe_links : List String → List EntityLinkRow → List EntityLinkRow
  dedupe_links seen [] = []
  dedupe_links seen (l ∷ rest) =
      let old = contains seen l.link_ref in
      let others = dedupe_links (if old then seen else l.link_ref ∷ seen) rest in
      if old then others else l ∷ others

  unfoldable pub entity_links : List SourceRecord → List EntityLinkRow
  unfolding get put values index_by comments_by_thread_ref employee_entity_ref people identity_links
      thread_links matching_text_field mention_links comment_links insert_email person_emails
      add_emails people_by_email email_targets email_pairs email_links record_links dedupe_links
      identity_relationships strip words lt_text
  entity_links records = dedupe_links [] (
      record_links (people records) (index_by (λ r. r.source_ref) [] records)
        (comments_by_thread_ref [] records) records
      ++ email_links (people_by_email [] records))
