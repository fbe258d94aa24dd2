-- ===== src/Api/Registrations/Cancelled.antt =====
-- cancelBatch and then CancelBatchHandler: the registrations that the message names are those that the
-- other gives up.
use do_an_tot_nghiep.Base.{
  ℕ, suc, ◌≤◌, Option, none, some, List, [], ◌∷◌, ◌≡◌, ◌≢◌, refl, sym, ap, ◌∙◌, subst, find,
  find-All, length, map, All, All-map, All-zip, Pairs, Distinct,
}
use do_an_tot_nghiep.Store.{Db, Section, Item, BatchType}
use do_an_tot_nghiep.Worker.Action.{World}
use do_an_tot_nghiep.Worker.Statements.{item_is}
use do_an_tot_nghiep.Worker.Handlers.{CreateJobItem, CancelJobItem, handle_cancel}
use do_an_tot_nghiep.Worker.Registrations.{IsConserved, HasKeys}
use do_an_tot_nghiep.Worker.Effects.{IsReliable}
use do_an_tot_nghiep.Worker.CancelRun.{
  IsCancellation, SourceHolds, OtherSource, handle_cancel-IsConserved, IsMatched,
}
use do_an_tot_nghiep.Api.Placement.{Placement, store_batch, new_items}
use do_an_tot_nghiep.Api.Registrations.{
  Server, Request, Settings, Circumstances, accepted, placement, item_id_of,
}
use do_an_tot_nghiep.Api.Registrations.Active.{Registration}
use do_an_tot_nghiep.Api.Registrations.Create.{job_items}
use do_an_tot_nghiep.Api.Registrations.Cancel.{cancel_batch, cancel_job_items}
use do_an_tot_nghiep.Api.Registrations.Held.{IsHeld, AddsNone, active-IsHeld, last_item_of-Source}
use do_an_tot_nghiep.Api.Registrations.Given.{Gives, asked, active, cancel_batch-Gives}
use do_an_tot_nghiep.Api.Registrations.Stored.{
  IsDrawn, store_batch-IsConserved, store_batch-HasKeys, store_batch-items, store_batch-found,
  store_batch-created,
}
use do_an_tot_nghiep.Api.Registrations.Written.{jobs, jobs-Distinct}
use do_an_tot_nghiep.Api.Registrations.Handled.{job_items-jobs}

-- Each job's source, if it names one, is a registration of its section.
cancel_job_items-SourceHolds :
    (db : Db) (items : List Item) (held : List Registration) (rows : List Section)
    → All (λ (r : Registration). IsHeld db r.0) held
    → All (SourceHolds db) (cancel_job_items items held rows)
cancel_job_items-SourceHolds db items held [] h = tt
cancel_job_items-SourceHolds db items held (row ∷ rows) h = (
  λ s e.
      let (i, r, id, section) = last_item_of-Source db row.id s held none h (λ n. absurd (cc)) e in
      (
        i,
        record {
          found = subst (λ n. find (item_is n) db.items ≡ some i) id r.found;
          section = section;
          created = r.created;
        },
        r.held,
      ),
  cancel_job_items-SourceHolds db items held rows h,
)

-- A job without its source.
abbrev plain : CancelJobItem → CreateJobItem
plain j = record { item_id = j.item_id; class_section_id = j.class_section_id }

map-plain :
    (items : List Item) (held : List Registration) (rows : List Section)
    → map plain (cancel_job_items items held rows) ≡ job_items items rows
map-plain items held [] = refl
map-plain items held (r ∷ rows) =
    ap (λ js. record { item_id = item_id_of r.id items; class_section_id = r.id } ∷ js)
      (map-plain items held rows)

length-plain : (js : List CancelJobItem) → length (map plain js) ≡ length js
length-plain [] = refl
length-plain (j ∷ js) = ap suc (length-plain js)

All-plain :
    (P : CreateJobItem → Type 0) (js : List CancelJobItem)
    → All P (map plain js)
    → All (λ j. P (plain j)) js
All-plain P [] h = tt
All-plain P (j ∷ js) h = (h.0, All-plain P js h.1)

All-plain_back :
    (P : CreateJobItem → Type 0) (js : List CancelJobItem)
    → All (λ j. P (plain j)) js
    → All P (map plain js)
All-plain_back P [] h = tt
All-plain_back P (j ∷ js) h = (h.0, All-plain_back P js h.1)

Distinct-plain :
    (key : CreateJobItem → ℕ) (js : List CancelJobItem)
    → Distinct key (map plain js)
    → Distinct (λ j. key (plain j)) js
Distinct-plain key [] d = tt
Distinct-plain key (j ∷ js) d = (All-plain _ js d.0, Distinct-plain key js d.1)

Distinct-plain_back :
    (key : CreateJobItem → ℕ) (js : List CancelJobItem)
    → Distinct (λ j. key (plain j)) js
    → Distinct key (map plain js)
Distinct-plain_back key [] d = tt
Distinct-plain_back key (j ∷ js) d = (All-plain_back _ js d.0, Distinct-plain_back key js d.1)

some_eq : {a b : ℕ} → some a ≡ some b → a ≡ b
some_eq e = cc

-- Jobs of different sections give up different registrations.
others :
    (db : Db) (js : List CancelJobItem)
    → Distinct (λ j. j.class_section_id) js
    → All (SourceHolds db) js
    → Pairs OtherSource js
others db [] d h = tt
others db (j ∷ js) d h = (
  All-map _ _
      (λ k (ne, holds) s e e'.
        let (i, r, _) = h.0 s e in
        let (i', r', _) = holds s e' in
        let same : i ≡ i' = cc (r.found, r'.found) in
        ne (some_eq (sym r'.section ∙ ap (λ x. x.class_section_id) (sym same) ∙ r.section)))
      js (All-zip _ _ js d.0 h.1),
  others db js d.1 h.1,
)

-- The new batch leaves the registrations as they were.
SourceHolds-stored :
    (p : Placement) (db : Db) (j : CancelJobItem)
    → IsDrawn db p.batch_id p.item_ids
    → SourceHolds db j
    → SourceHolds (store_batch BatchType.cancel p db) j
SourceHolds-stored p db j drawn h s e =
    let (i, r, held) = h s e in
    let ne =
      find-All (λ x. x.batch_id ≢ p.batch_id) (item_is s) db.items i r.found drawn.no_items in
    (
      i,
      record {
        found = store_batch-found BatchType.cancel p db drawn s i r.found;
        section = r.section;
        created = store_batch-created BatchType.cancel p db drawn i ne ∙ r.created;
      },
      held,
    )

-- Each job's own item stands in the new batch.
stored-IsCancellation :
    (p : Placement) (db : Db) (js : List CancelJobItem)
    → IsDrawn db p.batch_id p.item_ids
    → map plain js ≡ jobs p.section_ids p.item_ids
    → All (λ j. (c : Item) × IsCancellation (store_batch BatchType.cancel p db) j.item_id c) js
stored-IsCancellation p db js drawn same =
    All-map _ _ (λ j (i, found, _, created). (i, record { found = found; created = created })) js
      (All-plain _ js (subst (All _) (sym same) (store_batch-items BatchType.cancel p db drawn)))

module _ (section_order : List Section → List Section) (item_order : List Item → List Item)
    (settings : Settings) (req : Request) (env : Circumstances) (sv sv' : Server)
    (js : List CancelJobItem) where
  given-jobs :
      Gives section_order item_order settings req env sv js sv'
      → Distinct (λ (j : CancelJobItem). j.class_section_id) js
      → length js ≤ length env.item_ids
      → map plain js
        ≡ jobs (map (λ s. s.id) (asked section_order item_order settings req env sv)) env.item_ids
  given-jobs g d enough =
      let rows = asked section_order item_order settings req env sv in
      let items = new_items env.batch_id (map (λ s. s.id) rows) env.item_ids in
      let named =
        ap (map plain) g.message
        ∙ map-plain items (active section_order item_order settings req env sv) rows in
      named
      ∙ job_items-jobs env.batch_id rows env.item_ids
          (subst (λ l. Distinct (λ (j : CreateJobItem). j.class_section_id) l) named
            (Distinct-plain_back (λ j. j.class_section_id) js d))
          (subst (λ l. length l ≤ length env.item_ids) named
            (subst (λ n. n ≤ length env.item_ids) (sym (length-plain js)) enough))

  -- Where sections, batches and items have different ids and the counts are right, the order of
  -- the query adds no rows, the ids that are drawn are new, different and enough, and the message
  -- of an accepted cancelBatch names different sections, the worker that handles that message on
  -- the tables that cancelBatch left keeps every section's registered count equal to the number of
  -- registrations that hold one of its seats, as long as no query's answer is lost.
  pub cancel_batch-handle_cancel :
      cancel_batch section_order item_order settings req env sv ≡ (accepted js, sv')
      → Distinct (λ (j : CancelJobItem). j.class_section_id) js
      → length js ≤ length env.item_ids
      → AddsNone item_order
      → IsDrawn sv.db env.batch_id env.item_ids
      → HasKeys sv.db
      → Distinct (λ b. b.id) sv.db.batches
      → IsConserved sv.db
      → (queued_at : Option ℕ) (w : World) → w.db ≡ sv'.db
      → IsReliable w
      → IsConserved (handle_cancel env.batch_id req.semester (some js) queued_at w).1.db
  cancel_batch-handle_cancel reply d enough adds drawn keys batches conserved queued_at w at
        reliable =
      let g = cancel_batch-Gives section_order item_order settings req env sv js sv' reply in
      let rows = asked section_order item_order settings req env sv in
      let p = placement req env rows in
      let same = given-jobs g d enough in
      let here : w.db ≡ store_batch BatchType.cancel p sv.db = at ∙ g.stored in
      let holds : All (SourceHolds sv.db) js = subst (All (SourceHolds sv.db)) (sym g.message) (
        cancel_job_items-SourceHolds sv.db _ _ rows
          (active-IsHeld item_order req.user_id req.semester _ sv.db adds keys batches)) in
      let matched : All (IsMatched (store_batch BatchType.cancel p sv.db)) js =
        All-zip _ _ js (stored-IsCancellation p sv.db js drawn same)
          (All-map _ _ (λ j h. SourceHolds-stored p sv.db j drawn h) js holds) in
      handle_cancel-IsConserved env.batch_id req.semester js queued_at w reliable
        (subst HasKeys (sym here) (store_batch-HasKeys BatchType.cancel p sv.db drawn keys))
        (Distinct-plain (λ j. j.item_id) js
          (subst (Distinct (λ (j : CreateJobItem). j.item_id)) (sym same)
            (jobs-Distinct (map (λ s. s.id) rows) env.item_ids drawn.different)))
        (others sv.db js d holds) (subst (λ db. All (IsMatched db) js) (sym here) matched)
        (subst IsConserved (sym here)
          (store_batch-IsConserved BatchType.cancel p sv.db drawn conserved))
