-- ===== src/Scheduler/Pending.antt =====
-- The reconciliation between the placement of a batch by the API and its handling by the worker.
use do_an_tot_nghiep.Base.{
  ◌≡◌, refl, sym, ◌∙◌, subst, List, filter, All, All-map, All-zip, Distinct,
}
use do_an_tot_nghiep.Base.Text.{Text}
use do_an_tot_nghiep.Store.{Db, Section, BatchType}
use do_an_tot_nghiep.Shared.Counters.{Counters}
use do_an_tot_nghiep.Worker.Action.{Outcome, answered, refused, lost}
use do_an_tot_nghiep.Api.Placement.{Placement, place, store_batch, write_batch}
use do_an_tot_nghiep.Scheduler.Reconcile.{of_semester, reconcile}
use do_an_tot_nghiep.Scheduler.Agreement.{Shows, reconcile-Shows}

write_batch-sections :
    (type : BatchType) (p : Placement) (o : Outcome) (db : Db) (c : Counters)
    → (write_batch type p o db c).1.0.sections ≡ db.sections
unfolding store_batch
write_batch-sections type p answered db c = refl
write_batch-sections type p refused db c = refl
write_batch-sections type p lost db c = refl

-- The placement leaves the sections as they are.
place-sections :
    (type : BatchType) (p : Placement) (db : Db) (c : Counters)
    → (place type p (db, c)).1.0.sections ≡ db.sections
unfolding place
place-sections type p db c = write_batch-sections type p p.write db _

-- Where the sections have different ids, a reconciliation that runs after the placement of a batch
-- and before the worker has handled it puts every counter of the semester where it would be
-- without the batch: the seats that the batch has taken from the counters, or put back, are
-- forgotten.
pub reconcile-place :
    (semester : Text) (type : BatchType) (p : Placement) (db : Db) (c : Counters)
    → Distinct (λ s. s.id) db.sections
    → let (db', c') = (place type p (db, c)).1 in
      All
        (λ s. reconcile semester db' c' s.id ≡ reconcile semester db c s.id)
        (filter (of_semester semester) db.sections)
reconcile-place semester type p db c d =
    let same = place-sections type p db c in
    let after = place type p (db, c) in
    All-map _ _ (λ s (new, old). new ∙ sym old) (filter (of_semester semester) db.sections)
      (All-zip _ _ (filter (of_semester semester) db.sections)
        (subst
          (λ (ss : List Section).
            All (Shows (reconcile semester after.1.0 after.1.1)) (filter (of_semester semester) ss))
          same
          (reconcile-Shows semester after.1.0 after.1.1
            (subst (Distinct (λ (s : Section). s.id)) (sym same) d)))
        (reconcile-Shows semester db c d))
