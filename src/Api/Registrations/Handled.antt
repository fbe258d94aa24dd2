-- ===== src/Api/Registrations/Handled.antt =====
-- createBatch and then CreateBatchHandler: the batch that the one writes, and the message that it
-- sends, are what the other relies on.
use do_an_tot_nghiep.Base.{
  ℕ, suc, ◌≤◌, Option, some, List, [], ◌∷◌, ◌≡◌, ◌≢◌, refl, sym, ap, ◌∙◌, subst, length, map, All,
  All-map, Distinct,
}
use do_an_tot_nghiep.Store.{Db, Section, Item, BatchType}
use do_an_tot_nghiep.Worker.Handlers.{CreateJobItem, handle_create}
use do_an_tot_nghiep.Worker.Registrations.{IsConserved, HasKeys}
use do_an_tot_nghiep.Worker.CreateRun.{IsMatched, handle_create-IsConserved}
use do_an_tot_nghiep.Api.Placement.{Placement, store_batch, new_items}
use do_an_tot_nghiep.Worker.Action.{World}
use do_an_tot_nghiep.Worker.Effects.{IsReliable}
use do_an_tot_nghiep.Api.Registrations.{
  Server, Request, Settings, Circumstances, accepted, placement,
}
use do_an_tot_nghiep.Api.Registrations.Active.{Course}
use do_an_tot_nghiep.Api.Registrations.Accepted.{Accepts, requested, create_batch-Accepts}
use do_an_tot_nghiep.Api.Registrations.Stored.{
  IsDrawn, store_batch-IsConserved, store_batch-HasKeys, store_batch-items,
}
use do_an_tot_nghiep.Api.Registrations.Written.{
  jobs, Fresh, Different, map-job_of, job_items-map, jobs-Distinct,
}
use do_an_tot_nghiep.Api.Registrations.Create.{create_batch, job_items}

-- Every job of the message names its own item of the batch.
store_batch-IsMatched :
    (p : Placement) (db : Db)
    → IsDrawn db p.batch_id p.item_ids
    → All (IsMatched (store_batch BatchType.create p db)) (jobs p.section_ids p.item_ids)
store_batch-IsMatched p db drawn =
    All-map _ _
      (λ j (i, found, section, created).
        (i, record { found = found; section = section; created = created }))
      (jobs p.section_ids p.item_ids) (store_batch-items BatchType.create p db drawn)

rows-ne :
    (items : List Item) (k : ℕ) (rows : List Section)
    → All (λ (j : CreateJobItem). j.class_section_id ≢ k) (job_items items rows)
    → Fresh k (map (λ s. s.id) rows)
rows-ne items k [] h = tt
rows-ne items k (s ∷ rows) h = (h.0, rows-ne items k rows h.1)

rows-Different :
    (items : List Item) (rows : List Section)
    → Distinct (λ (j : CreateJobItem). j.class_section_id) (job_items items rows)
    → Different (map (λ s. s.id) rows)
rows-Different items [] d = tt
rows-Different items (s ∷ rows) d = (rows-ne items s.id rows d.0, rows-Different items rows d.1)

length-job_items :
    (items : List Item) (rows : List Section)
    → length (job_items items rows) ≡ length (map (λ s. s.id) rows)
length-job_items items [] = refl
length-job_items items (s ∷ rows) = ap suc (length-job_items items rows)

-- With different sections and an id for each, the message joins each row to its own item.
pub job_items-jobs :
    (b : ℕ) (rows : List Section) (us : List ℕ)
    → Distinct
        (λ (j : CreateJobItem). j.class_section_id)
        (job_items (new_items b (map (λ s. s.id) rows) us) rows)
    → length (job_items (new_items b (map (λ s. s.id) rows) us) rows) ≤ length us
    → job_items (new_items b (map (λ s. s.id) rows) us) rows ≡ jobs (map (λ s. s.id) rows) us
job_items-jobs b rows us d enough =
    let items = new_items b (map (λ s. s.id) rows) us in
    job_items-map items rows
    ∙ map-job_of b (map (λ s. s.id) rows) us (rows-Different items rows d)
        (subst (λ n. n ≤ length us) (length-job_items items rows) enough)

-- A request that createBatch accepts, with ids that are new, gives a batch and a message with which
-- the worker keeps the seats right.
module _ (section_order : List Section → List Section) (item_order : List Item → List Item)
    (courses : List Course) (settings : Settings) (req : Request) (env : Circumstances)
    (sv sv' : Server) (js : List CreateJobItem) where
  accepted-jobs :
      Accepts section_order item_order courses settings req env sv js sv'
      → Distinct (λ (j : CreateJobItem). j.class_section_id) js
      → length js ≤ length env.item_ids
      → js
        ≡ jobs
            (map (λ s. s.id) (requested section_order item_order courses settings req env sv))
            env.item_ids
  accepted-jobs a d enough =
      let rows = requested section_order item_order courses settings req env sv in
      a.message
      ∙ job_items-jobs env.batch_id rows env.item_ids
          (subst (λ l. Distinct (λ (j : CreateJobItem). j.class_section_id) l) a.message d)
          (subst (λ l. length l ≤ length env.item_ids) a.message enough)

  -- Where sections and items have different ids and the counts are right, the ids that are drawn
  -- are new, different and enough, and the message of an accepted createBatch names different
  -- sections, the worker that handles that message on the tables that createBatch left keeps every
  -- section's registered count equal to the number of registrations that hold one of its seats, as
  -- long as no query's answer is lost.
  pub create_batch-handle_create :
      create_batch section_order item_order courses settings req env sv ≡ (accepted js, sv')
      → Distinct (λ (j : CreateJobItem). j.class_section_id) js
      → length js ≤ length env.item_ids
      → IsDrawn sv.db env.batch_id env.item_ids
      → HasKeys sv.db
      → IsConserved sv.db
      → (queued_at : Option ℕ) (w : World) → w.db ≡ sv'.db
      → IsReliable w
      → IsConserved (handle_create env.batch_id req.semester (some js) queued_at w).1.db
  create_batch-handle_create reply d enough drawn keys conserved queued_at w at reliable =
      let a =
        create_batch-Accepts section_order item_order courses settings req env sv js sv' reply in
      let p = placement req env (requested section_order item_order courses settings req env sv) in
      let same = accepted-jobs a d enough in
      let here : w.db ≡ store_batch BatchType.create p sv.db = at ∙ a.stored in
      subst (λ l. IsConserved (handle_create env.batch_id req.semester (some l) queued_at w).1.db)
        (sym same)
        (handle_create-IsConserved env.batch_id req.semester (jobs p.section_ids p.item_ids)
          queued_at w reliable
          (subst HasKeys (sym here) (store_batch-HasKeys BatchType.create p sv.db drawn keys))
          (jobs-Distinct p.section_ids p.item_ids drawn.different)
          (subst (λ db. All (IsMatched db) (jobs p.section_ids p.item_ids)) (sym here)
            (store_batch-IsMatched p sv.db drawn))
          (subst IsConserved (sym here)
            (store_batch-IsConserved BatchType.create p sv.db drawn conserved)))
