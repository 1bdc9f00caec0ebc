-- ===== src/Context/Links/Values.antt =====
-- etl/load/context_objects.py: the dictionaries over the records of a batch.
use ok.Prelude.{
  String, refl, inl, inr, List, [], ◌∷◌, ◌==◌, All, Bool-cases, Dict, get, Values, append_at,
  append_to-Values,
}
use ok.Records.{SourceRecord}
use ok.Storage.{Environment}
use ok.Context.Links.{person_emails, add_emails, people_by_email}

module _ (P : SourceRecord → Type 0) where
  add_emails-Values :
      (env : Environment) (r : SourceRecord) (emails : List String) (d : Dict (List SourceRecord))
      → P r
      → Values (All P) d
      → Values (All P) (add_emails env r emails d)
  unfolding add_emails
  add_emails-Values env r [] d h hs = hs
  add_emails-Values env r (e ∷ emails) d h hs =
      add_emails-Values env r emails (append_at e r d) h
        (append_to-Values P e r d (get d e) h hs refl)

  pub people_by_email-Values :
      (env : Environment) (rs : List SourceRecord) (d : Dict (List SourceRecord))
      → All P rs
      → Values (All P) d
      → Values (All P) (people_by_email env d rs)
  unfolding people_by_email
  people_by_email-Values env [] d h hs = hs
  people_by_email-Values env (r ∷ rs) d h hs = elim (Bool-cases (r.record_type == "person")) [
    | inl e ↦ rw e (
        people_by_email-Values env rs (add_emails env r (person_emails env r.source_identities) d)
          h.1 (add_emails-Values env r (person_emails env r.source_identities) d h.0 hs))
    | inr e ↦ rw e (people_by_email-Values env rs d h.1 hs)
  ]
