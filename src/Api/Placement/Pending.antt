-- ===== src/Api/Placement/Pending.antt =====
-- A batch that was written and the check that lets no second one in.
use do_an_tot_nghiep.Base.{◌≡◌, refl, Bool, true, none, List, [], ◌∷◌, ◌++◌, find, is_some, arith}
use do_an_tot_nghiep.Base.Text.{text_eq_refl}
use do_an_tot_nghiep.Store.{Db, Batch, BatchType}
use do_an_tot_nghiep.Api.Validator.{assert_no_pending_batch}
use do_an_tot_nghiep.Api.Placement.{Placement, store_batch}

find-snoc :
    (q : Batch → Bool) (xs : List Batch) (b : Batch)
    → q b ≡ true
    → is_some (find q (xs ++ b ∷ [])) ≡ true
find-snoc q [] b h = rw h refl
find-snoc q (x ∷ xs) b h = ground (arith, find-snoc q xs b h)

-- As soon as a batch is written, no other batch of the student passes the check for the semester.
assert_no_pending_batch-store_batch :
    (type : BatchType) (p : Placement) (db : Db)
    → is_some (assert_no_pending_batch p.user_id p.semester none (store_batch type p db)) ≡ true
unfolding assert_no_pending_batch store_batch
assert_no_pending_batch-store_batch type p db =
    find-snoc _ db.batches _ (ground (arith, text_eq_refl p.semester))
