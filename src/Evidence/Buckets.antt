-- ===== src/Evidence/Buckets.antt =====
-- retrieval/evidence_pack.py: the related objects in groups.
use ok.Prelude.{Option, none, some, List, [], ◌∷◌, ◌++◌, ◌==◌, if◌then◌else◌}
use ok.Evidence.Related.{RelatedObject}

-- `related_object_groups`, by its keys
pub record Groups : Type 0 where
  pub people : List RelatedObject
  pub organizations : List RelatedObject
  pub work_items : List RelatedObject
  pub documents : List RelatedObject
  pub threads : List RelatedObject

-- the keys of the groups
pub data Bucket : Type 0 where
  people organizations work_items documents threads : Bucket

-- `_related_object_bucket`; `none` is the empty text
unfoldable pub bucket_of : RelatedObject → Option Bucket
bucket_of item =
    if item.relationship_to_primary == "same thread"
    then some Bucket.threads
    else if item.object_type == "Person"
    then some Bucket.people
    else if item.object_type == "Organization"
    then some Bucket.organizations
    else if item.object_type == "WorkItem"
    then some Bucket.work_items
    else if item.object_type == "Document"
    then some Bucket.documents
    else none

unfoldable pub append_in : Option Bucket → RelatedObject → Groups → Groups
append_in none item g = g
append_in (some Bucket.people) item g = record g { people = g.people ++ item ∷ [] }
append_in (some Bucket.organizations) item g = record g {
  organizations = g.organizations ++ item ∷ [];
}
append_in (some Bucket.work_items) item g = record g { work_items = g.work_items ++ item ∷ [] }
append_in (some Bucket.documents) item g = record g { documents = g.documents ++ item ∷ [] }
append_in (some Bucket.threads) item g = record g { threads = g.threads ++ item ∷ [] }

unfoldable pub group_objects : Groups → List RelatedObject → Groups
unfolding append_in bucket_of
group_objects g [] = g
group_objects g (item ∷ rest) = group_objects (append_in (bucket_of item) item g) rest

abbrev pub no_groups : Groups
no_groups = record {
  people = [];
  organizations = [];
  work_items = [];
  documents = [];
  threads = [];
}

-- `_related_object_groups`
unfoldable pub related_object_groups : List RelatedObject → Groups
unfolding group_objects
related_object_groups items = group_objects no_groups items
