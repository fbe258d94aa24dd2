-- ===== src/Api/Slots/Table/Moves.antt =====
-- Requests about the slots one after the other, and what a read gives after them.
use do_an_tot_nghiep.Base.{
  ℕ, true, Option, none, some, List, ◌≡◌, ◌≢◌, refl, sym, subst, ==_iff, find, find-All, find-holds,
  All, arith, Bool-cases, Option-cases, inl, inr,
}
use do_an_tot_nghiep.Base.Text.{Text, text_eq, eq_of-text_eq}
use do_an_tot_nghiep.Shared.SlotWindow.{Engine}
use do_an_tot_nghiep.Api.Validator.{SessionSettings}
use do_an_tot_nghiep.Api.ReadThrough.{Reply, failed, nothing, found, Replies}
use do_an_tot_nghiep.Api.ReadThrough.Fresh.{IsFresh, IsCoherent, AreFresh, read_slots-fresh}
use do_an_tot_nghiep.Api.Slots.{
  Slot, CreateSlot, UpdateSlot, Answer, ok, err, checked_slot, updated_slot,
}
use do_an_tot_nghiep.Api.Slots.Accepted.{IsSlot, checked_slot-Written, updated_slot-Written}
use do_an_tot_nghiep.Api.Slots.Table.{
  Store, put, has_id, load, find_one, create, update, remove, get_slots, answered, rewritten,
}
use do_an_tot_nghiep.Api.Slots.Table.Coherence.{
  IsGood, created-IsGood, removed-IsGood, updated-IsGood,
}

-- What Redis may answer to the first GET.
abbrev IsServed : Option (List Slot) → Reply (List Slot) → Type 0
IsServed cache failed = Unit
IsServed cache nothing = Unit
IsServed cache (found slots) = cache ≡ some slots

IsServed-IsFresh :
    (db : List Slot) (cache : Option (List Slot)) (reply : Reply (List Slot))
    → IsCoherent db cache
    → IsServed cache reply
    → IsFresh db reply
IsServed-IsFresh db cache failed c v = tt
IsServed-IsFresh db cache nothing c v = tt
IsServed-IsFresh db none (found slots) c v = absurd (cc)
IsServed-IsFresh db (some a) (found slots) c v = cc

find_one-find :
    (id : ℕ) (st : Store) (s : Slot) → find_one id st ≡ ok s → find (has_id id) st.rows ≡ some s
unfolding find_one
find_one-find id st s h = elim (Option-cases (find (has_id id) st.rows)) [
  | inl e ↦ absurd (ground arith)
  | inr (a, e) ↦ ground arith
]

module _ (engine : Engine) (order : List Slot → List Slot) where
  -- The answers of Redis where no other client writes meanwhile: the first is an error, null or the
  -- cached value, and a value that is seen in the wait is one that the holder of the lock has stored.
  pub record Serves (t : Text) (st : Store) (replies : Replies (List Slot)) : Type 0 where
    pub first : IsServed (st.caches t) replies.first
    pub polls : All (IsFresh (load order t st.rows)) replies.polls

  -- One request after the other, each DEL with success.
  pub data Move : Store → Store → Type 0 where
    created :
        (settings : SessionSettings) (dto : CreateSlot) (id : ℕ) (st : Store)
        → All (λ r. r.id ≢ id) st.rows
        → Move st (create engine settings true dto id st).1
    updated :
        (settings : SessionSettings) (id : ℕ) (dto : UpdateSlot) (st : Store)
        → Move st (update engine settings true id dto st).1
    removed : (id : ℕ) (st : Store) → Move st (remove true id st).1
    read :
        (replies : Replies (List Slot)) (t : Text) (st : Store)
        → Serves t st replies
        → Move st (get_slots order replies t st).1

  pub data Moves : Store → Store → Type 0 where
    none_left : {st : Store} → Moves st st
    then_move : {st st' st'' : Store} → Moves st st' → Move st' st'' → Moves st st''

  Serves-AreFresh :
      (replies : Replies (List Slot)) (t : Text) (st : Store)
      → IsGood engine order st
      → Serves t st replies
      → AreFresh (load order t st.rows) replies
  Serves-AreFresh replies t st g v = record {
    first =
        IsServed-IsFresh (load order t st.rows) (st.caches t) replies.first (g.coherent t) v.first;
    polls = v.polls;
  }

  put-IsCoherent :
      (st : Store) (t : Text) (v : Option (List Slot)) (u : Text)
      → IsCoherent (load order t st.rows) v
      → IsCoherent (load order u st.rows) (st.caches u)
      → IsCoherent (load order u st.rows) (put t v st.caches u)
  put-IsCoherent st t v u h k = elim (Bool-cases (text_eq u t)) [
    | inl e ↦ rw e (subst (λ x. IsCoherent (load order x st.rows) v) (sym (eq_of-text_eq u t e)) h)
    | inr e ↦ rw e k
  ]

  read-IsGood :
      (replies : Replies (List Slot)) (t : Text) (st : Store)
      → IsGood engine order st
      → Serves t st replies
      → ((get_slots order replies t st).0 ≡ load order t st.rows)
        × IsGood engine order (get_slots order replies t st).1
  unfolding get_slots
  read-IsGood replies t st g v =
      let r =
        read_slots-fresh replies (load order t st.rows) (st.caches t)
          (Serves-AreFresh replies t st g v) (g.coherent t) in
      (
        r.0,
        record {
          valid = g.valid;
          distinct = g.distinct;
          coherent = λ u. put-IsCoherent st t _ u r.1 (g.coherent u);
        },
      )

  answered-IsGood :
      (m : Answer Slot) (write : Slot → Store) (st : Store)
      → ((s : Slot) → m ≡ ok s → IsGood engine order (write s))
      → IsGood engine order st
      → IsGood engine order (answered m write st).1
  answered-IsGood (ok s) write st h g = h s refl
  answered-IsGood (err e) write st h g = g

  create-IsGood :
      (settings : SessionSettings) (dto : CreateSlot) (id : ℕ) (st : Store)
      → All (λ r. r.id ≢ id) st.rows
      → IsGood engine order st
      → IsGood engine order (create engine settings true dto id st).1
  unfolding create
  create-IsGood settings dto id st fresh g =
      answered-IsGood (checked_slot engine settings dto id) _ st
        (λ s e.
          let w = checked_slot-Written engine settings dto id s e in
          created-IsGood engine order s st w.0
            (subst (λ k. All (λ r. r.id ≢ k) st.rows) (sym w.2) fresh) g)
        g

  remove-IsGood :
      (id : ℕ) (st : Store) → IsGood engine order st → IsGood engine order (remove true id st).1
  unfolding remove
  remove-IsGood id st g =
      answered-IsGood (find_one id st) _ st
        (λ s e. removed-IsGood engine order s id st (find_one-find id st s e) g) g

  rewritten-IsGood :
      (settings : SessionSettings) (dto : UpdateSlot) (st : Store) (m : Answer Slot)
      → ((c : Slot) → m ≡ ok c → find (has_id c.id) st.rows ≡ some c)
      → IsGood engine order st
      → IsGood engine order (rewritten engine settings true dto st m).1
  rewritten-IsGood settings dto st (err e) h g = g
  rewritten-IsGood settings dto st (ok c) h g =
      answered-IsGood (updated_slot engine settings dto c) _ st
        (λ s e.
          let w =
            updated_slot-Written engine settings dto c s
              (find-All (IsSlot engine) (has_id c.id) st.rows c (h c refl) g.valid) e in
          updated-IsGood engine order c s st (h c refl) w.0 w.2 g)
        g

  update-IsGood :
      (settings : SessionSettings) (id : ℕ) (dto : UpdateSlot) (st : Store)
      → IsGood engine order st
      → IsGood engine order (update engine settings true id dto st).1
  unfolding update
  update-IsGood settings id dto st g =
      rewritten-IsGood settings dto st (find_one id st)
        (λ c e.
          let hit = find_one-find id st c e in
          subst (λ k. find (has_id k) st.rows ≡ some c)
            (sym ((==_iff _ _).0 (find-holds (has_id id) st.rows c hit))) hit)
        g

  Move-IsGood : {st st' : Store} → Move st st' → IsGood engine order st → IsGood engine order st'
  Move-IsGood (created settings dto id st fresh) g = create-IsGood settings dto id st fresh g
  Move-IsGood (updated settings id dto st) g = update-IsGood settings id dto st g
  Move-IsGood (removed id st) g = remove-IsGood id st g
  Move-IsGood (read replies t st v) g = (read-IsGood replies t st g v).1

  Moves-IsGood : {st st' : Store} → Moves st st' → IsGood engine order st → IsGood engine order st'
  Moves-IsGood none_left g = g
  Moves-IsGood (then_move ms m) g = Move-IsGood m (Moves-IsGood ms g)

  -- After any sequence of create, update and remove, whose DEL succeed and whose new ids are new,
  -- and of reads in which Redis serves what is cached, the table that had only valid rows with
  -- different ids and the caches that were empty or right are so again, and a read of a semester
  -- gives the rows of the database in the order of the query.
  pub get_slots-load :
      (st st' : Store) (replies : Replies (List Slot)) (t : Text)
      → IsGood engine order st
      → Moves st st'
      → Serves t st' replies
      → IsGood engine order st' × ((get_slots order replies t st').0 ≡ load order t st'.rows)
  get_slots-load st st' replies t g ms v =
      let g' = Moves-IsGood ms g in (g', (read-IsGood replies t st' g' v).0)
