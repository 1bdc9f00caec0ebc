-- ===== src/Evidence/Grouped.antt =====
-- retrieval/evidence_pack.py, `_related_object_groups`: each group against what it is named for.
use mathlib.Core.List.{append_assoc, append-nil}
use ok.Prelude.{
  String, Option, none, some, ap, ◌≡◌, refl, sym, ◌∙◌, inl, inr, Bool, true, false, not, ◌&&◌, List,
  [], ◌∷◌, ◌++◌, select_where, Bool-cases, arith, ◌==◌, eq_iff,
}
use ok.Evidence.Related.{RelatedObject}
use ok.Evidence.Buckets.{
  Groups, Bucket, bucket_of, append_in, group_objects, no_groups, related_object_groups,
}

abbrev same_bucket : Bucket → Bucket → Bool
same_bucket Bucket.people Bucket.people = true
same_bucket Bucket.organizations Bucket.organizations = true
same_bucket Bucket.work_items Bucket.work_items = true
same_bucket Bucket.documents Bucket.documents = true
same_bucket Bucket.threads Bucket.threads = true
same_bucket _ _ = false

-- whether an item has a bucket
abbrev belongs : Bucket → Option Bucket → Bool
belongs bucket none = false
belongs bucket (some b) = same_bucket bucket b

-- the group of a bucket
abbrev pub group_of : Bucket → Groups → List RelatedObject
group_of Bucket.people g = g.people
group_of Bucket.organizations g = g.organizations
group_of Bucket.work_items g = g.work_items
group_of Bucket.documents g = g.documents
group_of Bucket.threads g = g.threads

abbrev own : Bool → RelatedObject → List RelatedObject
own true item = item ∷ []
own false item = []

group_of-append_in :
    (bucket : Bucket) (b : Option Bucket) (item : RelatedObject) (g : Groups)
    → group_of bucket (append_in b item g) ≡ group_of bucket g ++ own (belongs bucket b) item
unfolding append_in
group_of-append_in bucket none item g = sym (append-nil (group_of bucket g))
group_of-append_in Bucket.people (some Bucket.people) item g = refl
group_of-append_in Bucket.people (some Bucket.organizations) item g = sym (append-nil g.people)
group_of-append_in Bucket.people (some Bucket.work_items) item g = sym (append-nil g.people)
group_of-append_in Bucket.people (some Bucket.documents) item g = sym (append-nil g.people)
group_of-append_in Bucket.people (some Bucket.threads) item g = sym (append-nil g.people)
group_of-append_in Bucket.organizations (some Bucket.people) item g =
    sym (append-nil g.organizations)
group_of-append_in Bucket.organizations (some Bucket.organizations) item g = refl
group_of-append_in Bucket.organizations (some Bucket.work_items) item g =
    sym (append-nil g.organizations)
group_of-append_in Bucket.organizations (some Bucket.documents) item g =
    sym (append-nil g.organizations)
group_of-append_in Bucket.organizations (some Bucket.threads) item g =
    sym (append-nil g.organizations)
group_of-append_in Bucket.work_items (some Bucket.people) item g = sym (append-nil g.work_items)
group_of-append_in Bucket.work_items (some Bucket.organizations) item g =
    sym (append-nil g.work_items)
group_of-append_in Bucket.work_items (some Bucket.work_items) item g = refl
group_of-append_in Bucket.work_items (some Bucket.documents) item g = sym (append-nil g.work_items)
group_of-append_in Bucket.work_items (some Bucket.threads) item g = sym (append-nil g.work_items)
group_of-append_in Bucket.documents (some Bucket.people) item g = sym (append-nil g.documents)
group_of-append_in Bucket.documents (some Bucket.organizations) item g =
    sym (append-nil g.documents)
group_of-append_in Bucket.documents (some Bucket.work_items) item g = sym (append-nil g.documents)
group_of-append_in Bucket.documents (some Bucket.documents) item g = refl
group_of-append_in Bucket.documents (some Bucket.threads) item g = sym (append-nil g.documents)
group_of-append_in Bucket.threads (some Bucket.people) item g = sym (append-nil g.threads)
group_of-append_in Bucket.threads (some Bucket.organizations) item g = sym (append-nil g.threads)
group_of-append_in Bucket.threads (some Bucket.work_items) item g = sym (append-nil g.threads)
group_of-append_in Bucket.threads (some Bucket.documents) item g = sym (append-nil g.threads)
group_of-append_in Bucket.threads (some Bucket.threads) item g = refl

abbrev is_in_thread : RelatedObject → Bool
is_in_thread item = item.relationship_to_primary == "same thread"

abbrev has_type : String → RelatedObject → Bool
has_type type item = not (is_in_thread item) && (item.object_type == type)

-- the items that a group is named for: those of the same thread, and of the others those of a type
abbrev pub is_named : Bucket → RelatedObject → Bool
is_named Bucket.people = has_type "Person"
is_named Bucket.organizations = has_type "Organization"
is_named Bucket.work_items = has_type "WorkItem"
is_named Bucket.documents = has_type "Document"
is_named Bucket.threads = is_in_thread

belongs-is_named :
    (bucket : Bucket) (item : RelatedObject)
    → belongs bucket (bucket_of item) ≡ is_named bucket item
unfolding bucket_of
belongs-is_named Bucket.people item = ground arith
belongs-is_named Bucket.organizations item =
    elim (Bool-cases (item.object_type == "Organization")) [
      | inl e ↦ rw ((eq_iff item.object_type "Organization").0 e) (ground arith)
      | inr e ↦ rw e (ground arith)
    ]
belongs-is_named Bucket.work_items item = elim (Bool-cases (item.object_type == "WorkItem")) [
  | inl e ↦ rw ((eq_iff item.object_type "WorkItem").0 e) (ground arith)
  | inr e ↦ rw e (ground arith)
]
belongs-is_named Bucket.documents item = elim (Bool-cases (item.object_type == "Document")) [
  | inl e ↦ rw ((eq_iff item.object_type "Document").0 e) (ground arith)
  | inr e ↦ rw e (ground arith)
]
belongs-is_named Bucket.threads item = ground arith

-- the items of a group, in their order
abbrev pub named : Bucket → List RelatedObject → List RelatedObject
named bucket = select_where (is_named bucket)

named-cons :
    (bucket : Bucket) (item : RelatedObject) (items : List RelatedObject)
    → named bucket (item ∷ items) ≡ own (belongs bucket (bucket_of item)) item ++ named bucket items
named-cons bucket item items = elim (Bool-cases (is_named bucket item)) [
  | inl e ↦ rw (e, belongs-is_named bucket item ∙ e) refl
  | inr e ↦ rw (e, belongs-is_named bucket item ∙ e) refl
]

group_of-group_objects :
    (bucket : Bucket) (items : List RelatedObject) (g : Groups)
    → group_of bucket (group_objects g items) ≡ group_of bucket g ++ named bucket items
unfolding group_objects
group_of-group_objects bucket [] g = sym (append-nil (group_of bucket g))
group_of-group_objects bucket (item ∷ items) g =
    group_of-group_objects bucket items (append_in (bucket_of item) item g)
    ∙ ap (λ l. l ++ named bucket items) (group_of-append_in bucket (bucket_of item) item g)
    ∙ append_assoc (group_of bucket g) (own (belongs bucket (bucket_of item)) item)
        (named bucket items)
    ∙ ap (λ l. group_of bucket g ++ l) (sym (named-cons bucket item items))

-- Each group of the related objects holds exactly those that it is named for, in their order: the
-- threads are the objects of the same thread, whatever their type, and of the others the people are
-- those of the type Person, the organizations those of the type Organization, the work items those
-- of the type WorkItem and the documents those of the type Document.
pub related_object_groups_correct :
    (bucket : Bucket) (items : List RelatedObject)
    → group_of bucket (related_object_groups items) ≡ named bucket items
unfolding related_object_groups
related_object_groups_correct Bucket.people items =
    group_of-group_objects Bucket.people items no_groups
related_object_groups_correct Bucket.organizations items =
    group_of-group_objects Bucket.organizations items no_groups
related_object_groups_correct Bucket.work_items items =
    group_of-group_objects Bucket.work_items items no_groups
related_object_groups_correct Bucket.documents items =
    group_of-group_objects Bucket.documents items no_groups
related_object_groups_correct Bucket.threads items =
    group_of-group_objects Bucket.threads items no_groups
