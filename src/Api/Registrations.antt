-- ===== src/Api/Registrations.antt =====
-- apps/do-an/src/modules/registrations/registrations.service.ts: a request of a student, from the
-- lookup of its sections to the batch and the message for the worker.
pub mod Lookup
pub mod Active
pub mod Create
pub mod Cancel
pub mod Fresh
pub mod Accepted
pub mod Refused
pub mod Written
pub mod Stored
pub mod Handled
pub mod Given
pub mod Held
pub mod Cancelled
pub mod Examples
pub mod CancelExamples
use do_an_tot_nghiep.Base.{
  ℕ, Bool, true, false, Option, none, some, List, [], ◌∷◌, ◌++◌, ◌==◌, if◌then◌else◌, head?, find,
  filter, is_some, map, not,
}
use do_an_tot_nghiep.Base.Text.{Text}
use do_an_tot_nghiep.Store.{Db, Section, Item, Batch}
use do_an_tot_nghiep.Shared.Counters.{Counters}
use do_an_tot_nghiep.Worker.Action.{Outcome}
use do_an_tot_nghiep.Api.Validator.{SessionError, SessionSettings, Meeting}
use do_an_tot_nghiep.Api.Validator.Pairing.{PairingError}
use do_an_tot_nghiep.Api.Placement.{Placement}
use do_an_tot_nghiep.Api.Registrations.Lookup.{SectionCache, rows_of, is_empty}

pub record Server : Type 0 where
  pub db : Db
  pub cache : SectionCache
  pub counters : Counters

-- The user of the token, and the DTO.
pub record Request : Type 0 where
  pub user_id : ℕ
  pub semester : Text
  pub section_codes : List ℕ

pub record Settings : Type 0 where
  pub session : SessionSettings
  pub max_credits_per_semester : ℕ

-- What comes from outside in the course of a request: the time, how many commands of each pipeline
-- come to Redis (the cache of the lookup, the refill of the counters, the placement and what undoes
-- it), the ids that are drawn, and how the write of the batch ends.
pub record Circumstances : Type 0 where
  pub now : ℕ
  pub cached : ℕ
  pub refilled : ℕ
  pub reached : ℕ
  pub undone : ℕ
  pub batch_id : ℕ
  pub item_ids : List ℕ
  pub write : Outcome

pub data BatchError : Type 0 where
  session : SessionError → BatchError
  pending_batch : Batch → BatchError
  unknown_sections barred_sections full_sections taken_courses inactive_sections :
      List ℕ → BatchError
  pairing : PairingError → BatchError
  conflict : Meeting × Meeting → BatchError
  too_many_credits : ℕ → BatchError
  not_written : BatchError

-- The reply, where an accepted request has the items of the message to the worker.
pub data Reply (J : Type 0) : Type 0 where
  refused : BatchError → Reply J
  accepted : List J → Reply J

-- `throw` where a check has found something.
pub unless_found :
    {J A : Type 0} → Option A → (A → BatchError) → Server → Reply J × Server → Reply J × Server
unless_found none e sv next = next
unless_found (some a) e sv next = (refused (e a), sv)

pub unless_listed :
    {J A : Type 0} → List A → (List A → BatchError) → Server → Reply J × Server → Reply J × Server
unless_listed [] e sv next = next
unless_listed (x ∷ xs) e sv next = (refused (e (x ∷ xs)), sv)

-- `bySectionCode.has(code)`, whose rows are never none.
abbrev pub unknown_codes : List ℕ → List (ℕ × List Section) → List ℕ
unknown_codes codes resolved = filter (λ code. is_empty (rows_of code resolved)) codes

-- `sectionCodes.flatMap((code) => bySectionCode.get(code)!)`
pub rows_of_all : List ℕ → List (ℕ × List Section) → List Section
rows_of_all [] resolved = []
rows_of_all (code ∷ codes) resolved = rows_of code resolved ++ rows_of_all codes resolved

abbrev first_row : Option Section → List Section
first_row none = []
first_row (some s) = s ∷ []

-- `sectionCodes.map((code) => bySectionCode.get(code)![0])`
pub representatives : List ℕ → List (ℕ × List Section) → List Section
representatives [] resolved = []
representatives (code ∷ codes) resolved =
    first_row (head? (rows_of code resolved)) ++ representatives codes resolved

-- `map.set(item.classSectionId, item.id)`, as a reading of the key `k` sees it.
abbrev pub set_id : Option ℕ → ℕ → ℕ → Option ℕ → Option ℕ
set_id none id k found = found
set_id (some s) id k found = if s == k then some id else found

-- `new Map(items.map((item) => [item.classSectionId, item.id])).get(k)`: the last item of a section.
pub last_item_of : ℕ → List Item → Option ℕ → Option ℕ
last_item_of k [] found = found
last_item_of k (i ∷ is) found = last_item_of k is (set_id i.class_section_id i.id k found)

abbrev or_empty : Option ℕ → ℕ
or_empty none = 0
or_empty (some id) = id

-- `itemIdBySectionId.get(k) ?? \'\'`
abbrev pub item_id_of : ℕ → List Item → ℕ
item_id_of k items = or_empty (last_item_of k items none)

-- The placement of the rows of a request.
abbrev pub placement : Request → Circumstances → List Section → Placement
placement req env all_rows = record {
  batch_id = env.batch_id;
  user_id = req.user_id;
  semester = req.semester;
  section_ids = map (λ s. s.id) all_rows;
  item_ids = env.item_ids;
  reached = env.reached;
  write = env.write;
  undone = env.undone;
}
