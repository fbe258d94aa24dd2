-- ===== src/Api/Registrations/Active.antt =====
-- The readings of registrations.service.ts: which registrations of a student are active, the latest
-- result for each section, the credits, a batch, and the list for the administration. `order` is the
-- order that a query asks for: the item that was processed last comes first.
use do_an_tot_nghiep.Base.{
  ℕ, ◌+◌, Bool, true, false, ◌&&◌, Option, none, some, List, [], ◌∷◌, ◌++◌, if◌then◌else◌, ◌==◌,
  any, filter, find, map,
}
use do_an_tot_nghiep.Base.Text.{Text, text_eq}
use do_an_tot_nghiep.Store.{Db, Section, Item, Batch, is_success, is_create}
use do_an_tot_nghiep.Shared.Counters.{has_id, unique}

-- A row of courses, as far as credits are asked for.
pub record Course : Type 0 where
  pub id : ℕ
  pub credits : ℕ

-- `batch: { userId, semester, type: CREATE }`
abbrev pub in_create_batch : ℕ → Text → List Batch → Item → Bool
in_create_batch user semester batches i =
    any
      (λ b.
        b.id == i.batch_id && b.user_id == user && text_eq b.semester semester && is_create b.type)
      batches

abbrev pub in_sections : Option (List ℕ) → Option ℕ → Bool
in_sections ids none = false
in_sections none (some k) = true
in_sections (some ids) (some k) = has_id k ids

abbrev pub Registration : Type 0
Registration = Item × Section

abbrev pub section_with : Option ℕ → List Section → Option Section
section_with none sections = none
section_with (some k) sections = find (λ s. s.id == k) sections

abbrev pub joined : Item → Option Section → List Registration
joined i none = []
joined i (some s) = (i, s) ∷ []

-- `include: { classSection }`, where an item without a section is passed over.
unfoldable pub with_sections : List Section → List Item → List Registration
with_sections sections [] = []
with_sections sections (i ∷ is) =
    joined i (section_with i.class_section_id sections) ++ with_sections sections is

abbrev pub of_section : ℕ → Registration → Bool
of_section k r = r.1.id == k

-- `if (!map.has(id)) map.set(id, item)`, and the values of the map.
unfoldable pub first_by_section : List Registration → List Registration → List Registration
first_by_section seen [] = seen
first_by_section seen (r ∷ rs) =
    first_by_section (if any (of_section r.1.id) seen then seen else seen ++ r ∷ []) rs

module _ (order : List Item → List Item) where
  abbrev pub successful_items : ℕ → Text → Option (List ℕ) → Db → List Item
  successful_items user semester ids db = order (
      filter
        (λ i.
          is_success i.status
          && in_sections ids i.class_section_id
          && in_create_batch user semester db.batches i)
        db.items)

  -- findActiveRegistrationItems
  unfoldable pub find_active_registration_items :
      ℕ → Text → Option (List ℕ) → Db → List Registration
  find_active_registration_items user semester ids db =
      first_by_section [] (with_sections db.sections (successful_items user semester ids db))

  -- findLatestRegistrationResultItems
  find_latest_registration_result_items : ℕ → Text → Db → List Registration
  find_latest_registration_result_items user semester db = first_by_section [] (
      with_sections db.sections (
        order (
          filter
            (λ i. in_sections none i.class_section_id && in_create_batch user semester db.batches i)
            db.items)))

-- course.aggregate: the sum of the credits of the courses.
unfoldable pub sum_credits : List ℕ → List Course → ℕ
sum_credits ids [] = 0
sum_credits ids (c ∷ cs) = (if has_id c.id ids then c.credits else 0) + sum_credits ids cs

-- computeCreditsFromDb, which getExistingCredits calls
unfoldable pub compute_credits_from_db : ℕ → Text → List Course → Db → ℕ
compute_credits_from_db user semester courses db =
    let items =
      filter (λ i. in_create_batch user semester db.batches i && is_success i.status) db.items in
    sum_credits (unique (map (λ r. r.1.course_id) (with_sections db.sections items))) courses

-- findBatchById, where none is the NotFoundException.
find_batch_by_id : ℕ → ℕ → Db → Option (Batch × List Item)
find_batch_by_id batch_id user db =
    with_items (find (λ b. b.id == batch_id && b.user_id == user) db.batches)
  where
    with_items : Option Batch → Option (Batch × List Item)
    with_items none = none
    with_items (some b) = some (b, filter (λ i. i.batch_id == b.id) db.items)
