-- ===== src/Worker/Examples.antt =====
-- Small tables, messages and worlds, and what the worker does with them.
use do_an_tot_nghiep.Base.{
  ℕ, ◌+◌, ◌≡◌, refl, sym, subst, false, none, some, List, [], ◌∷◌, update_where, find, arith, count,
}
use do_an_tot_nghiep.Base.Text.{Text, codes}
use do_an_tot_nghiep.Base.Int.{pos}
use do_an_tot_nghiep.Store.{
  Db, Section, Batch, Item, BatchType, BatchStatus, ItemStatus, SectionType, SectionStatus,
  TimeOfDay, unavailable,
}
use do_an_tot_nghiep.Worker.Action.{World, answered, refused, ok, elapse, outcome, query}
use do_an_tot_nghiep.Worker.Statements.{
  item_is, remaining, take_seat, mark_success, mark_failed, acquire_slot_and_mark_success,
  release_slot_and_mark_items, complete_batch, snapshot, load_statuses, is_still_pending,
}
use do_an_tot_nghiep.Worker.Handlers.{
  CreateJobItem, CancelJobItem, create_item, cancel_source, cancel_item, for_items, write_batch_log,
  handle, handle_create, handle_cancel,
}
use do_an_tot_nghiep.Worker.Consumer.{
  create_batch_requested, number, Message, Broker, get_retry_count, consume, deliver_all,
}
use do_an_tot_nghiep.Worker.Registrations.{IsConserved, HasKeys, is_created_in}
use do_an_tot_nghiep.Worker.Conservation.{IsRegistration}
use do_an_tot_nghiep.Worker.CreateRun.{handle_create-IsConserved}
use do_an_tot_nghiep.Worker.CancelRun.{IsCancellation, SourceHolds, handle_cancel-IsConserved}
use do_an_tot_nghiep.Worker.Redelivery.{
  SameSeats, handle_create-redelivered, handle_cancel-redelivered,
}
use do_an_tot_nghiep.Worker.Seats.{NoOverbooking, handle_create-Reach, Reach-NoOverbooking}
use do_an_tot_nghiep.Worker.Leaks.{
  OverCounts, interrupted, acquire_again-not-IsConserved, lost_answer-not-IsConserved,
}
use do_an_tot_nghiep.Worker.Retries.{Fate, total_attempts, consume-Fate, deliver_all-empties}

abbrev term : Text
term = codes "20252"

-- A section of three seats, one of which is taken.
abbrev algebra : Section
algebra = record {
  id = 1;
  section_code = 157001;
  linked_section_code = none;
  course_id = 7;
  semester = term;
  day_of_week = some 2;
  time_of_day = some TimeOfDay.morning;
  start_period = some 1;
  end_period = some 3;
  week_range = none;
  section_type = some SectionType.lt;
  section_status = some SectionStatus.open_for_registration;
  requires_lab = false;
  max_capacity = 3;
  registered_count = 1;
}

abbrev batch : ℕ → BatchType → BatchStatus → Batch
batch k type status = record {
  id = k;
  user_id = 5;
  semester = term;
  type = type;
  status = status;
  total_items = 1;
  processed_at = none;
}

abbrev item : ℕ → ℕ → ItemStatus → Item
item k b status = record {
  id = k;
  batch_id = b;
  class_section_id = some 1;
  status = status;
  failure_reason = none;
  remaining_slots = none;
  processed_at = none;
}

-- Batch 10 holds the seat by its item 100; batch 11 asks for a seat; batch 12 gives the seat of
-- item 100 back.
abbrev tables : Db
tables = record {
  sections = algebra ∷ [];
  batches =
      batch 10 BatchType.create BatchStatus.completed
      ∷ batch 11 BatchType.create BatchStatus.pending
      ∷ batch 12 BatchType.cancel BatchStatus.pending
      ∷ [];
  items =
      item 100 10 ItemStatus.success
      ∷ item 101 11 ItemStatus.pending
      ∷ item 102 12 ItemStatus.pending
      ∷ [];
}

-- The third query to come is refused.
abbrev world : World
world = record {
  db = tables;
  now = 1000;
  schedule = (answered, 5) ∷ (answered, 5) ∷ (refused, 100) ∷ [];
  logs = [];
}

abbrev calm : World
calm = record world { schedule = [] }

abbrev to_create : List CreateJobItem
to_create = record { item_id = 101; class_section_id = 1 } ∷ []

abbrev to_cancel : List CancelJobItem
to_cancel = record { item_id = 102; class_section_id = 1; source_item_id = some 100 } ∷ []

tables-HasKeys : HasKeys tables
tables-HasKeys = ground arith

tables-IsConserved : IsConserved tables
unfolding is_created_in count
tables-IsConserved = (refl, tt)

registered : IsRegistration tables 100 1 (item 100 10 ItemStatus.success)
unfolding is_created_in
registered = record { found = refl; section = refl; created = refl }

asked : IsRegistration tables 101 1 (item 101 11 ItemStatus.pending)
unfolding is_created_in
asked = record { found = refl; section = refl; created = refl }

handle_create-IsConserved_example :
    IsConserved (handle_create 11 term (some to_create) none world).1.db
handle_create-IsConserved_example =
    handle_create-IsConserved 11 term to_create none world (ground arith) tables-HasKeys (tt, tt)
      ((_, asked), tt) tables-IsConserved

withdrawn : IsCancellation tables 102 (item 102 12 ItemStatus.pending)
unfolding is_created_in
withdrawn = record { found = refl; created = refl }

registered_as :
    {a b : ℕ} → 100 ≡ a → 1 ≡ b → IsRegistration tables a b (item 100 10 ItemStatus.success)
registered_as {a} {b} p q =
    subst (λ x. IsRegistration tables x b (item 100 10 ItemStatus.success)) p
      (subst (λ y. IsRegistration tables 100 y (item 100 10 ItemStatus.success)) q registered)

source_holds :
    (j : CancelJobItem)
    → j.source_item_id ≡ some 100
    → j.class_section_id ≡ 1
    → SourceHolds tables j
source_holds j e k s h =
    (item 100 10 ItemStatus.success, registered_as (ground arith) (sym k), refl)

handle_cancel-IsConserved_example :
    IsConserved (handle_cancel 12 term (some to_cancel) none world).1.db
handle_cancel-IsConserved_example =
    handle_cancel-IsConserved 12 term to_cancel none world (ground arith) tables-HasKeys (tt, tt)
      (tt, tt)
      (
        (
          (_, withdrawn),
          source_holds (record { item_id = 102; class_section_id = 1; source_item_id = some 100 })
              refl refl,
        ),
        tt,
      )
      tables-IsConserved

created_once : (handle_create 11 term (some to_create) none calm).0 ≡ ok tt
unfolding handle_create handle query load_statuses snapshot for_items create_item is_still_pending
    acquire_slot_and_mark_success complete_batch write_batch_log elapse outcome update_where
created_once = refl

handle_create-redelivered_example :
    SameSeats
      (handle_create 11 term (some to_create) none calm).1.db
      (handle_create 11 term
        (some to_create)
        (some 900)
        (record world { db = (handle_create 11 term (some to_create) none calm).1.db })).1.db
handle_create-redelivered_example =
    handle_create-redelivered 11 term to_create none (some 900) calm
      (record world { db = (handle_create 11 term (some to_create) none calm).1.db }) created_once
      refl

cancelled_once : (handle_cancel 12 term (some to_cancel) none calm).0 ≡ ok tt
unfolding handle_cancel handle query load_statuses snapshot for_items cancel_item cancel_source
    is_still_pending release_slot_and_mark_items complete_batch write_batch_log elapse outcome
    update_where
cancelled_once = refl

handle_cancel-redelivered_example :
    SameSeats
      (handle_cancel 12 term (some to_cancel) none calm).1.db
      (handle_cancel 12 term
        (some to_cancel)
        (some 900)
        (record world { db = (handle_cancel 12 term (some to_cancel) none calm).1.db })).1.db
handle_cancel-redelivered_example =
    handle_cancel-redelivered 12 term to_cancel none (some 900) calm
      (record world { db = (handle_cancel 12 term (some to_cancel) none calm).1.db }) cancelled_once
      refl

Reach-NoOverbooking_example : NoOverbooking (handle_create 11 term (some to_create) none world).1.db
Reach-NoOverbooking_example =
    Reach-NoOverbooking (handle_create-Reach 11 term (some to_create) none world) (ground arith)

acquire_again-not-IsConserved_example :
    OverCounts (acquire_slot_and_mark_success 100 1 1000 tables).1 1 algebra
    × (find (item_is 100) (acquire_slot_and_mark_success 100 1 1000 tables).1.items
        ≡ some (
            mark_success
              (some (remaining (take_seat algebra)))
              1000
              (item 100 10 ItemStatus.success)))
acquire_again-not-IsConserved_example =
    acquire_again-not-IsConserved 100 1 1000 tables (item 100 10 ItemStatus.success) algebra
      tables-HasKeys registered refl refl tables-IsConserved

abbrev job : CreateJobItem
job = record { item_id = 101; class_section_id = 1 }

abbrev seen : List (ℕ × ItemStatus)
seen = (101, ItemStatus.pending) ∷ []

lost_answer-not-IsConserved_example :
    OverCounts
      (create_item job seen (0, 0) (interrupted job seen (0, 0) calm algebra 30 40 [])).1.db
      1
      algebra
    × (find
          (item_is 101)
          (create_item job seen
            (0, 0)
            (interrupted job seen (0, 0) calm algebra 30 40 [])).1.db.items
        ≡ some (
            mark_failed unavailable (calm.now + 30 + 40) (
              mark_success
                (some (remaining (take_seat algebra)))
                (calm.now + 30)
                (item 101 11 ItemStatus.pending))))
unfolding is_still_pending
lost_answer-not-IsConserved_example =
    lost_answer-not-IsConserved job seen (0, 0) calm (item 101 11 ItemStatus.pending) algebra 30 40
      [] tables-HasKeys asked refl refl refl refl tables-IsConserved

-- A message that was sent back twice.
abbrev message : Message
message = record {
  content = some (create_batch_requested 11 term (some to_create) none);
  headers = record {
    retry_count = some (number (pos 2));
    first_queued_at = some 0;
    last_error = some unavailable;
    failed_at = none;
  };
}

abbrev broker : Broker
broker = record { queue = message ∷ []; dead_letters = [] }

consume-Fate_example :
    Fate 3 message world broker (consume 3 message message.content (world, broker)).1
consume-Fate_example = consume-Fate 3 message world broker

deliver_all-empties_example : (deliver_all 3 2 (world, broker)).1.queue ≡ []
unfolding total_attempts get_retry_count
deliver_all-empties_example = deliver_all-empties 3 2 (world, broker) (omega arith)
