-- ===== src/Api/Registrations/Written.antt =====
-- The items that createBatch writes, and the jobs of the message that name them.
use do_an_tot_nghiep.Base.{
  ℕ, ◌+◌, ◌≤◌, Bool, false, Option, none, some, List, [], ◌∷◌, ◌++◌, ◌≡◌, ◌≢◌, refl, ap, ==_iff,
  find, length, map, All, All-map, All-zip, Distinct, count, arith,
}
use do_an_tot_nghiep.Store.{Section, Item, Batch, ItemStatus}
use do_an_tot_nghiep.Worker.Handlers.{CreateJobItem}
use do_an_tot_nghiep.Worker.Statements.{item_is}
use do_an_tot_nghiep.Worker.Registrations.{holds_seat}
use do_an_tot_nghiep.Api.Placement.{new_items}
use do_an_tot_nghiep.Api.Registrations.{last_item_of, item_id_of}
use do_an_tot_nghiep.Api.Registrations.Create.{job_items}

-- The jobs of sections and items that go together.
pub jobs : List ℕ → List ℕ → List CreateJobItem
jobs [] us = []
jobs (k ∷ ks) [] = []
jobs (k ∷ ks) (u ∷ us) = record { item_id = u; class_section_id = k } ∷ jobs ks us

abbrev new_item : ℕ → ℕ → ℕ → Item
new_item b k u = record {
  id = u;
  batch_id = b;
  class_section_id = some k;
  status = ItemStatus.pending;
  failure_reason = none;
  remaining_slots = none;
  processed_at = none;
}

abbrev pub Fresh : ℕ → List ℕ → Type 0
Fresh k ks = All (λ j. j ≢ k) ks

abbrev pub Different : List ℕ → Type 0
Different = Distinct (λ k. k)

last_item_of-Fresh :
    (b k : ℕ) (ks us : List ℕ) (found : Option ℕ)
    → Fresh k ks
    → last_item_of k (new_items b ks us) found ≡ found
unfolding last_item_of new_items
last_item_of-Fresh b k [] us found h = refl
last_item_of-Fresh b k (j ∷ ks) [] found h = refl
last_item_of-Fresh b k (j ∷ ks) (u ∷ us) found h =
    ground (arith, h.0, last_item_of-Fresh b k ks us found h.1)

-- What the message says of a section that comes later in the batch.
item_id_of-later :
    (b k j u : ℕ) (ks us : List ℕ)
    → j ≢ k
    → item_id_of j (new_items b (k ∷ ks) (u ∷ us)) ≡ item_id_of j (new_items b ks us)
unfolding last_item_of new_items
item_id_of-later b k j u ks us ne = ground arith

item_id_of-first :
    (b k u : ℕ) (ks us : List ℕ) → Fresh k ks → item_id_of k (new_items b (k ∷ ks) (u ∷ us)) ≡ u
unfolding last_item_of new_items
item_id_of-first b k u ks us fresh = ground (arith, last_item_of-Fresh b k ks us (some u) fresh)

pub job_of : List Item → ℕ → CreateJobItem
job_of items k = record { item_id = item_id_of k items; class_section_id = k }

map-job_of-congr :
    (items items' : List Item) (ks : List ℕ)
    → All (λ j. item_id_of j items ≡ item_id_of j items') ks
    → map (job_of items) ks ≡ map (job_of items') ks
unfolding job_of
map-job_of-congr items items' [] h = refl
map-job_of-congr items items' (k ∷ ks) h = cc (h.0, map-job_of-congr items items' ks h.1)

-- With different sections, and an id for each, the message joins each section to its own item.
pub map-job_of :
    (b : ℕ) (ks us : List ℕ)
    → Different ks
    → length ks ≤ length us
    → map (job_of (new_items b ks us)) ks ≡ jobs ks us
unfolding jobs job_of
map-job_of b [] us d h = refl
map-job_of b (k ∷ ks) [] d h = absurd (omega arith)
map-job_of b (k ∷ ks) (u ∷ us) d h = cc (
  item_id_of-first b k u ks us d.0,
  map-job_of-congr (new_items b (k ∷ ks) (u ∷ us)) (new_items b ks us) ks
      (All-map _ _ (λ j ne. item_id_of-later b k j u ks us ne) ks d.0),
  map-job_of b ks us d.1 (omega arith),
)

pub job_items-map :
    (items : List Item) (rows : List Section)
    → job_items items rows ≡ map (job_of items) (map (λ s. s.id) rows)
unfolding job_of
job_items-map items [] = refl
job_items-map items (s ∷ rows) = ap (λ js. job_of items s.id ∷ js) (job_items-map items rows)

jobs-Fresh : (u : ℕ) (ks us : List ℕ) → Fresh u us → All (λ j. j.item_id ≢ u) (jobs ks us)
unfolding jobs
jobs-Fresh u [] us h = tt
jobs-Fresh u (k ∷ ks) [] h = tt
jobs-Fresh u (k ∷ ks) (v ∷ us) h = (h.0, jobs-Fresh u ks us h.1)

pub jobs-Distinct : (ks us : List ℕ) → Different us → Distinct (λ j. j.item_id) (jobs ks us)
unfolding jobs
jobs-Distinct [] us d = tt
jobs-Distinct (k ∷ ks) [] d = tt
jobs-Distinct (k ∷ ks) (u ∷ us) d = (jobs-Fresh u ks us d.0, jobs-Distinct ks us d.1)

-- The item that was written for a job.
pub record IsWritten (b : ℕ) (items : List Item) (j : CreateJobItem) : Type 0 where
  pub item : Item
  pub found : find (item_is j.item_id) items ≡ some item
  pub section : item.class_section_id ≡ some j.class_section_id
  pub batch : item.batch_id ≡ b

later-IsWritten :
    (b : ℕ) (x : Item) (items : List Item) (j : CreateJobItem)
    → j.item_id ≢ x.id
    → IsWritten b items j
    → IsWritten b (x ∷ items) j
later-IsWritten b x items j ne w = record {
  item = w.item;
  found = skipped;
  section = w.section;
  batch = w.batch;
}
  where
    skipped : find (item_is j.item_id) (x ∷ items) ≡ some w.item
    skipped = ground (arith, w.found)

first-IsWritten :
    (b : ℕ) (x : Item) (items : List Item) (j : CreateJobItem)
    → x.id ≡ j.item_id
    → x.class_section_id ≡ some j.class_section_id
    → x.batch_id ≡ b
    → IsWritten b (x ∷ items) j
first-IsWritten b x items j same section batch = record {
  item = x;
  found = here;
  section = section;
  batch = batch;
}
  where
    here : find (item_is j.item_id) (x ∷ items) ≡ some x
    here = rw ((==_iff x.id j.item_id).1 same) refl

pub jobs-IsWritten :
    (b : ℕ) (ks us : List ℕ) → Different us → All (IsWritten b (new_items b ks us)) (jobs ks us)
unfolding jobs new_items
jobs-IsWritten b [] us d = tt
jobs-IsWritten b (k ∷ ks) [] d = tt
jobs-IsWritten b (k ∷ ks) (u ∷ us) d = (
  first-IsWritten b (new_item b k u) (new_items b ks us)
      (record { item_id = u; class_section_id = k }) refl refl refl,
  All-map _ _ (λ j (ne, w). later-IsWritten b _ (new_items b ks us) j ne w) (jobs ks us)
      (All-zip _ _ (jobs ks us) (jobs-Fresh u ks us d.0) (jobs-IsWritten b ks us d.1)),
)

pub find-append-miss :
    {A : Type 0} (p : A → Bool) (xs ys : List A)
    → All (λ x. p x ≡ false) xs
    → find p (xs ++ ys) ≡ find p ys
find-append-miss p [] ys h = refl
find-append-miss p (x ∷ xs) ys h = rw h.0 (find-append-miss p xs ys h.1)

pub count-append :
    {A : Type 0} (p : A → Bool) (xs ys : List A) → count p (xs ++ ys) ≡ count p xs + count p ys
unfolding count
count-append p [] ys = omega arith
count-append p (x ∷ xs) ys = omega (arith, count-append p xs ys)

pub find-snoc-miss :
    {A : Type 0} (p : A → Bool) (xs : List A) (y : A)
    → p y ≡ false
    → find p (xs ++ y ∷ []) ≡ find p xs
find-snoc-miss p [] y h = rw h refl
find-snoc-miss p (x ∷ xs) y h = ground (arith, find-snoc-miss p xs y h)

pub count-pending :
    (batches : List Batch) (k b : ℕ) (ks us : List ℕ)
    → count (holds_seat batches k) (new_items b ks us) ≡ 0
unfolding count new_items
count-pending batches k b [] us = refl
count-pending batches k b (j ∷ ks) [] = refl
count-pending batches k b (j ∷ ks) (u ∷ us) = omega (arith, count-pending batches k b ks us)

new_items-Fresh : (b u : ℕ) (ks us : List ℕ) → Fresh u us → All (λ i. i.id ≢ u) (new_items b ks us)
unfolding new_items
new_items-Fresh b u [] us h = tt
new_items-Fresh b u (k ∷ ks) [] h = tt
new_items-Fresh b u (k ∷ ks) (v ∷ us) h = (h.0, new_items-Fresh b u ks us h.1)

All-append {κ} :
    {A : Type 0} (P : A → Type κ) (xs ys : List A) → All P xs → All P ys → All P (xs ++ ys)
All-append P [] ys h k = k
All-append P (x ∷ xs) ys h k = (h.0, All-append P xs ys h.1 k)

pub new_items-Distinct :
    (b : ℕ) (items : List Item) (ks us : List ℕ)
    → Distinct (λ i. i.id) items
    → Different us
    → All (λ i. Fresh i.id us) items
    → Distinct (λ i. i.id) (items ++ new_items b ks us)
unfolding new_items
new_items-Distinct b [] [] us d e f = tt
new_items-Distinct b [] (k ∷ ks) [] d e f = tt
new_items-Distinct b [] (k ∷ ks) (u ∷ us) d e f =
    (new_items-Fresh b u ks us e.0, new_items-Distinct b [] ks us tt e.1 tt)
new_items-Distinct b (i ∷ items) ks us d e f = (
  All-append _ items (new_items b ks us) d.0 (new_items-Fresh b i.id ks us f.0),
  new_items-Distinct b items ks us d.1 e f.1,
)

-- No job names an item that was there before.
pub jobs-new :
    (ks us : List ℕ) (items : List Item)
    → All (λ i. Fresh i.id us) items
    → All (λ j. All (λ i. item_is j.item_id i ≡ false) items) (jobs ks us)
unfolding jobs
jobs-new [] us items h = tt
jobs-new (k ∷ ks) [] items h = tt
jobs-new (k ∷ ks) (u ∷ us) items h = (
  All-map _ _ (λ i f. ground (arith, f.0)) items h,
  jobs-new ks us items (All-map _ _ (λ i f. f.1) items h),
)
