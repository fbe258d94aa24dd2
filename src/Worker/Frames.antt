-- ===== src/Worker/Frames.antt =====
-- What each statement leaves alone: the batches, the keys, and the items that it does not name.
use do_an_tot_nghiep.Base.{
  ℕ, Bool, some, List, ◌≡◌, ◌≢◌, refl, ◌∙◌, inl, inr, any, find, Distinct, update_where,
  Distinct-update_where, find-update_where_ne, Bool-cases, Option-cases,
}
use do_an_tot_nghiep.Store.{Db, Section, Item, Reason}
use do_an_tot_nghiep.Worker.Statements.{
  has_seat, section_is, item_is, take_seat, free_seat, mark_success, mark_cancelled, mark_failed,
  mark_item_failed, acquire_slot_and_mark_success, release_slot_and_mark_items, remaining, released,
}
use do_an_tot_nghiep.Worker.Registrations.{HasKeys}
use do_an_tot_nghiep.Worker.Conservation.{IsRegistration}

pub record Frame (Untouched : ℕ → Type 0) (db db' : Db) : Type 0 where
  pub batches : db'.batches ≡ db.batches
  pub keys : HasKeys db → HasKeys db'
  pub items : (j : ℕ) → Untouched j → find (item_is j) db'.items ≡ find (item_is j) db.items

Frame-refl : (U : ℕ → Type 0) (db : Db) → Frame U db db
Frame-refl U db = record { batches = refl; keys = λ h. h; items = λ j u. refl }

section_keys :
    (p : Section → Bool) (f : Section → Section) (xs : List Section)
    → ((s : Section) → (f s).id ≡ s.id)
    → Distinct (λ s. s.id) xs
    → Distinct (λ s. s.id) (update_where p f xs)
section_keys p f xs same = Distinct-update_where (λ s. s.id) p f (λ a _. same a) xs

pub fail-Frame :
    (k : ℕ) (e : Reason) (at : ℕ) (db : Db) → Frame (λ j. j ≢ k) db (mark_item_failed k e at db).1
unfolding mark_item_failed
fail-Frame k e at db = elim (Bool-cases (any (item_is k) db.items)) [
  | inr miss ↦ rw miss (Frame-refl _ db)
  | inl hit ↦ rw hit (record {
    batches = refl;
    keys = λ h. (
      h.0,
      Distinct-update_where (λ i. i.id) (item_is k) (mark_failed e at) (λ _ _. refl) db.items h.1,
    );
    items = λ j ne. find-update_where_ne (λ i. i.id) j k (mark_failed e at) db.items (λ _. refl) ne;
  })
]

pub acquire-Frame :
    (k s at : ℕ) (db : Db) → Frame (λ j. j ≢ k) db (acquire_slot_and_mark_success k s at db).1
unfolding acquire_slot_and_mark_success
acquire-Frame k s at db = elim (Option-cases (find (has_seat s) db.sections)) [
  | inl none_left ↦ rw (none_left, acquire_slot_and_mark_success) (Frame-refl _ db)
  | inr (r, room) ↦
      let mark = mark_success (some (remaining (take_seat r))) at in
      rw (room, acquire_slot_and_mark_success)
        (record {
          batches = refl;
          keys = λ h. (
            section_keys (has_seat s) take_seat db.sections (λ _. refl) h.0,
            Distinct-update_where (λ i. i.id) (item_is k) mark (λ _ _. refl) db.items h.1,
          );
          items = λ j ne. find-update_where_ne (λ i. i.id) j k mark db.items (λ _. refl) ne;
        })
]

pub release-Frame :
    (k s source at : ℕ) (db : Db)
    → Frame (λ j. (j ≢ k) × (j ≢ source)) db (release_slot_and_mark_items k s source at db).1
unfolding release_slot_and_mark_items
release-Frame k s source at db =
    let cancel = mark_cancelled (released s db) at in
    let mark = mark_success (released s db) at in
    record {
      batches = refl;
      keys = λ h. (
        section_keys (section_is s) free_seat db.sections (λ _. refl) h.0,
        Distinct-update_where (λ i. i.id) (item_is k) mark (λ _ _. refl) _
            (Distinct-update_where (λ i. i.id) (item_is source) cancel (λ _ _. refl) db.items h.1),
      );
      items = λ j ne.
          find-update_where_ne (λ i. i.id) j k mark _ (λ _. refl) ne.0
          ∙ find-update_where_ne (λ i. i.id) j source cancel db.items (λ _. refl) ne.1;
    }

-- An item that a statement does not name is the same registration after it.
pub Frame-IsRegistration :
    {U : ℕ → Type 0} {db db' : Db} (k s : ℕ) (i : Item)
    → Frame U db db'
    → U k
    → IsRegistration db k s i
    → IsRegistration db' k s i
Frame-IsRegistration k s i f u r = record {
  found = f.items k u ∙ r.found;
  section = r.section;
  created = rw f.batches r.created;
}
