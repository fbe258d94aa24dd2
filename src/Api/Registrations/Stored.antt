-- ===== src/Api/Registrations/Stored.antt =====
-- A batch that is written with ids that are new: what it leaves of the seats, and its items.
use do_an_tot_nghiep.Base.{
  ℕ, Bool, none, some, List, [], ◌∷◌, ◌++◌, ◌≡◌, ◌≢◌, refl, sym, subst, ◌∙◌, ==_iff, find, length,
  All, All-map, All-zip, count, count-congr, arith,
}
use do_an_tot_nghiep.Store.{Db, Item, Batch, BatchType, BatchStatus, is_create}
use do_an_tot_nghiep.Worker.Handlers.{CreateJobItem}
use do_an_tot_nghiep.Worker.Statements.{item_is, batch_is}
use do_an_tot_nghiep.Worker.Registrations.{IsConserved, HasKeys, is_created_in, holds_seat}
use do_an_tot_nghiep.Api.Placement.{Placement, store_batch, new_items}
use do_an_tot_nghiep.Api.Registrations.Written.{
  jobs, Fresh, Different, jobs-IsWritten, find-append-miss, find-snoc-miss, count-append,
  count-pending, new_items-Distinct, jobs-new,
}

find-append-hit :
    {A : Type 0} (q : A → Bool) (xs ys : List A) (a : A)
    → find q xs ≡ some a
    → find q (xs ++ ys) ≡ some a
find-append-hit q [] ys a h = absurd (cc)
find-append-hit q (x ∷ xs) ys a h = ground (arith, find-append-hit q xs ys a)

-- What the ids that are drawn for a batch have to be: new, and different.
pub record IsDrawn (db : Db) (batch_id : ℕ) (item_ids : List ℕ) : Type 0 where
  pub different : Different item_ids
  pub new_item_ids : All (λ i. Fresh i.id item_ids) db.items
  pub new_batch : All (λ c. c.id ≢ batch_id) db.batches
  pub no_items : All (λ i. i.batch_id ≢ batch_id) db.items

module _ (type : BatchType) (p : Placement) (db : Db)
    (drawn : IsDrawn db p.batch_id p.item_ids) where
  abbrev new_batch : Batch
  new_batch = record {
    id = p.batch_id;
    user_id = p.user_id;
    semester = p.semester;
    type = type;
    status = BatchStatus.pending;
    total_items = length p.section_ids;
    processed_at = none;
  }

  -- The new batch is the batch of its items, and of no others.
  created_in-new :
      (i : Item)
      → i.batch_id ≡ p.batch_id
      → is_created_in (db.batches ++ new_batch ∷ []) i ≡ is_create type
  unfolding is_created_in
  created_in-new i same =
      let here : find (batch_is p.batch_id) (new_batch ∷ []) ≡ some new_batch =
        rw ((==_iff p.batch_id p.batch_id).1 refl) refl in
      let last =
        find-append-miss (batch_is p.batch_id) db.batches (new_batch ∷ [])
          (All-map _ _ (λ c ne. ground arith) db.batches drawn.new_batch)
        ∙ here in
      let e =
        subst (λ k. find (batch_is k) (db.batches ++ new_batch ∷ []) ≡ some new_batch) (sym same)
          last in
      rw (is_created_in, e) refl

  created_in-old :
      (i : Item)
      → i.batch_id ≢ p.batch_id
      → is_created_in (db.batches ++ new_batch ∷ []) i ≡ is_created_in db.batches i
  unfolding is_created_in
  created_in-old i ne =
      rw (is_created_in, find-snoc-miss (batch_is i.batch_id) db.batches new_batch (ground arith))
        refl

  seat-old :
      (k : ℕ) (i : Item)
      → i.batch_id ≢ p.batch_id
      → holds_seat (db.batches ++ new_batch ∷ []) k i ≡ holds_seat db.batches k i
  seat-old k i ne = rw (created_in-old i ne) refl

  pub store_batch-IsConserved : IsConserved db → IsConserved (store_batch type p db)
  unfolding store_batch
  store_batch-IsConserved c = All-map _ _ (λ s e. e ∙ sym (counted s.id)) db.sections c
    where
      counted :
          (k : ℕ)
          → count
              (holds_seat (db.batches ++ new_batch ∷ []) k)
              (db.items ++ new_items p.batch_id p.section_ids p.item_ids)
            ≡ count (holds_seat db.batches k) db.items
      counted k = omega (
        arith,
        count-append (holds_seat (db.batches ++ new_batch ∷ []) k) db.items
            (new_items p.batch_id p.section_ids p.item_ids),
        count-pending (db.batches ++ new_batch ∷ []) k p.batch_id p.section_ids p.item_ids,
        count-congr (holds_seat (db.batches ++ new_batch ∷ []) k) (holds_seat db.batches k) db.items
            (All-map _ _ (seat-old k) db.items drawn.no_items),
      )

  pub store_batch-HasKeys : HasKeys db → HasKeys (store_batch type p db)
  unfolding store_batch
  store_batch-HasKeys keys = (
    keys.0,
    new_items-Distinct p.batch_id db.items p.section_ids p.item_ids keys.1 drawn.different
        drawn.new_item_ids,
  )

  -- Each job names its own item of the batch.
  pub store_batch-items :
      All
        (λ (j : CreateJobItem).
          (i : Item) × (find (item_is j.item_id) (store_batch type p db).items ≡ some i)
          × (i.class_section_id ≡ some j.class_section_id)
          × (is_created_in (store_batch type p db).batches i ≡ is_create type))
        (jobs p.section_ids p.item_ids)
  unfolding store_batch
  store_batch-items =
      All-map _ _
        (λ j (w, fresh). (
          w.item,
          find-append-miss (item_is j.item_id) db.items _ fresh ∙ w.found,
          w.section,
          created_in-new w.item w.batch,
        ))
        (jobs p.section_ids p.item_ids)
        (All-zip _ _ (jobs p.section_ids p.item_ids)
          (jobs-IsWritten p.batch_id p.section_ids p.item_ids drawn.different)
          (jobs-new p.section_ids p.item_ids db.items drawn.new_item_ids))

  -- A row that was there before is found as before, in a batch of the same type.
  pub store_batch-found :
      (k : ℕ) (i : Item)
      → find (item_is k) db.items ≡ some i
      → find (item_is k) (store_batch type p db).items ≡ some i
  unfolding store_batch
  store_batch-found k i e =
      find-append-hit (item_is k) db.items (new_items p.batch_id p.section_ids p.item_ids) i e

  pub store_batch-created :
      (i : Item)
      → i.batch_id ≢ p.batch_id
      → is_created_in (store_batch type p db).batches i ≡ is_created_in db.batches i
  unfolding store_batch
  store_batch-created i ne = created_in-old i ne
