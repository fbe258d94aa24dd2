-- ===== src/Scheduler/Prewarm/Examples.antt =====
-- A semester whose counters have gone is prewarmed, and the API looks its code up.
use do_an_tot_nghiep.Base.{◌≡◌, refl, true, none, some, List, [], ◌∷◌, map, All, arith}
use do_an_tot_nghiep.Base.Text.{codes, text_eq}
use do_an_tot_nghiep.Store.{Section}
use do_an_tot_nghiep.Api.Settings.{SettingRow}
use do_an_tot_nghiep.Api.Registrations.Lookup.{unreadable, resolve_section_codes}
use do_an_tot_nghiep.Api.Registrations.Fresh.{fresh_rows}
use do_an_tot_nghiep.Scheduler.Agreement.{Shows}
use do_an_tot_nghiep.Scheduler.Examples.{tables}
use do_an_tot_nghiep.Scheduler.Prewarm.{Redis, Answers, semester_rows, heal_if_needed}
use do_an_tot_nghiep.Scheduler.Prewarm.Warm.{Sorts, heal_if_needed-resolve_section_codes}

abbrev same : List Section → List Section
same ss = ss

same-Sorts : Sorts same
same-Sorts = record { same_rows = λ p xs. refl; apart = λ p xs. refl }

abbrev row : SettingRow
row = record {
  current_semester = codes "20252";
  semester_start_date = codes "2026-02-01";
  semester_end_date = codes "2026-06-30";
  registration_open_at = 10;
  registration_close_at = 90;
  max_credits_per_semester = 24;
}

abbrev answers : Answers
answers = record { exists = true; reached = 9 }

-- No counter is there, and every cached text cannot be read.
abbrev lost : Redis
lost = record { counters = λ k. none; cache = λ t k. unreadable }

abbrev warm : Redis
warm = (heal_if_needed same same 20 answers (some row) tables lost).0

heal_if_needed-resolve_section_codes_example :
    ((resolve_section_codes same 0 (157000 ∷ []) (codes "20252") tables warm.cache (λ k. none)).0
      ≡ map (λ k. (k, fresh_rows same (codes "20252") k tables)) (157000 ∷ []))
    × All (Shows warm.counters) (semester_rows same (codes "20252") tables)
heal_if_needed-resolve_section_codes_example =
    heal_if_needed-resolve_section_codes same same 20 answers row tables lost same-Sorts
      (unfold heal_if_needed text_eq in refl) (unfold text_eq in omega arith)
      (unfold text_eq in ground arith) 0 (157000 ∷ []) tables warm.cache (λ k. none) (refl, tt)
      (unfold text_eq in (refl, tt))
