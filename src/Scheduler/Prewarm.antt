-- ===== src/Scheduler/Prewarm.antt =====
-- apps/scheduler/src/prewarm/registration-prewarm.service.ts: cacheSections, healIfNeeded and what the
-- reconciliation does before its pipeline, and the guards of
-- apps/scheduler/src/prewarm/registration-prewarm.cron.ts. `order` is the order of the query of
-- cacheSections, `by_code` that of healIfNeeded.
pub mod Warm
pub mod Examples
use do_an_tot_nghiep.Base.{
  ℕ, zero, suc, ◌-◌, Bool, true, false, Option, none, some, List, [], ◌∷◌, if◌then◌else◌, filter,
  head?, length, take, leb, is_some,
}
use do_an_tot_nghiep.Base.Text.{Text}
use do_an_tot_nghiep.Store.{Db, Section}
use do_an_tot_nghiep.Shared.Counters.{Counters, set_all, slot_writes}
use do_an_tot_nghiep.Api.Settings.{SettingRow}
use do_an_tot_nghiep.Api.Registrations.Lookup.{SectionCache, section_rows, set_cached, grouped}
use do_an_tot_nghiep.Scheduler.Reconcile.{of_semester, fixes}
use do_an_tot_nghiep.Scheduler.Notification.Run.{Cron, start_run, finish_run}

-- The keys of Redis that the prewarming writes.
pub record Redis : Type 0 where
  pub counters : Counters
  pub cache : SectionCache

-- The rows that cacheSections reads.
abbrev pub semester_rows : (List Section → List Section) → Text → Db → List Section
semester_rows order semester db = order (filter (of_semester semester) db.sections)

-- The SET commands for the groups, of which `reached` come to Redis.
pub cache_groups : ℕ → Text → List (ℕ × List Section) → SectionCache → SectionCache
cache_groups zero semester groups cache = cache
cache_groups (suc n) semester [] cache = cache
cache_groups (suc n) semester ((code, items) ∷ groups) cache =
    cache_groups n semester groups (set_cached semester code (section_rows items) cache)

-- cacheSections: the pipeline has the commands for the counters, and then those for the codes.
pub cache_sections : (List Section → List Section) → ℕ → Text → Db → Redis → Redis
cache_sections order reached semester db r =
    let sections = semester_rows order semester db in
    record {
      counters = set_all (take reached (slot_writes sections)) r.counters;
      cache = cache_groups (reached - length sections) semester (grouped sections) r.cache;
    }

-- The ways in which healIfNeeded ends; the last but one is an error of Redis.
pub data Healing : Type 0 where
  no_window no_sections hit failed healed : Healing

-- What the calls to Redis answer: whether EXISTS does, and how many commands come to it.
pub record Answers : Type 0 where
  pub exists : Bool
  pub reached : ℕ

module _ (order by_code : List Section → List Section) (now : ℕ) (answers : Answers) where
  abbrev heal_section : Text → Db → Redis → Option Section → Redis × Healing
  heal_section semester db r none = (r, no_sections)
  heal_section semester db r (some s) =
      if answers.exists
      then if is_some (r.counters s.id)
        then (r, hit)
        else (cache_sections order answers.reached semester db r, healed)
      else (r, failed)

  -- healIfNeeded, from the row of the settings.
  pub heal_if_needed : Option SettingRow → Db → Redis → Redis × Healing
  heal_if_needed none db r = (r, no_window)
  heal_if_needed (some row) db r =
      if leb row.registration_close_at now
      then (r, no_window)
      else heal_section row.current_semester db r
          (head? (by_code (filter (of_semester row.current_semester) db.sections)))

-- reconcileCurrentSemesterSlots, where mget has read the counters.
reconcile_current_semester_slots : ℕ → Option SettingRow → Db → Counters → Counters
reconcile_current_semester_slots reached none db c = c
reconcile_current_semester_slots reached (some row) db c =
    set_all (take reached (fixes c (filter (of_semester row.current_semester) db.sections))) c

-- RegistrationPrewarmCron: the two guards, each with the number of its runs that are under way.
record PrewarmCron : Type 0 where
  pub running : Cron
  pub reconciling : Cron

-- checkAndPrewarm up to the call of the service, and its `finally`.
start_prewarm : PrewarmCron → PrewarmCron
start_prewarm c = record c { running = start_run c.running }

finish_prewarm : PrewarmCron → PrewarmCron
finish_prewarm c = record c { running = finish_run c.running }

-- reconcileRedisSlots, in the same way.
start_reconcile : PrewarmCron → PrewarmCron
start_reconcile c = record c { reconciling = start_run c.reconciling }

finish_reconcile : PrewarmCron → PrewarmCron
finish_reconcile c = record c { reconciling = finish_run c.reconciling }
