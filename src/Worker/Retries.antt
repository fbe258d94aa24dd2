-- ===== src/Worker/Retries.antt =====
-- Retries of the consumer: nothing is lost, and nothing comes for ever.
use do_an_tot_nghiep.Base.{
  ℕ, zero, suc, ◌+◌, ◌-◌, ◌≤◌, ◌<◌, ◌≡◌, ◌⊎◌, inl, inr, refl, Option, none, some, List, [], ◌∷◌,
  ◌++◌, ltb, arith, Bool-cases,
}
use do_an_tot_nghiep.Store.{Reason, invalid_json}
use do_an_tot_nghiep.Worker.Action.{World, Result, ok, err}
use do_an_tot_nghiep.Worker.Consumer.{
  Payload, Message, Broker, get_retry_count, retry_message, dead_message, handle_processing_failure,
  process, consume, deliver, deliver_from, deliver_all, after_processing,
}

-- A message as it was put back once more.
pub record IsRetry (max_retries : ℕ) (msg m : Message) : Type 0 where
  pub content : m.content ≡ msg.content
  pub allowed : get_retry_count msg < max_retries
  pub counted : get_retry_count m ≡ get_retry_count msg + 1

-- A message as it was buried: it is no JSON, or its retries are used up.
pub record IsBuried (max_retries : ℕ) (msg m : Message) : Type 0 where
  pub content : m.content ≡ msg.content
  pub given_up : (msg.content ≡ none) ⊎ (max_retries ≤ get_retry_count msg)
  pub counted : get_retry_count m ≡ get_retry_count msg

-- What became of a message: it was processed, put back, or buried.
abbrev pub Fate : ℕ → Message → World → Broker → Broker → Type 0
Fate max_retries msg w b b' =
    ((p : Payload) × (msg.content ≡ some p) × ((process p w).0 ≡ ok tt) × (b' ≡ b))
    ⊎ ((m : Message) × IsRetry max_retries msg m
        × (b'.queue ≡ b.queue ++ m ∷ [])
        × (b'.dead_letters ≡ b.dead_letters))
    ⊎ ((m : Message) × IsBuried max_retries msg m
        × (b'.queue ≡ b.queue)
        × (b'.dead_letters ≡ b.dead_letters ++ m ∷ []))

retry_counted :
    (msg : Message) (e : Reason) (n now : ℕ) → get_retry_count (retry_message msg e n now) ≡ n
unfolding get_retry_count retry_message
retry_counted msg e n now = refl

dead_counted :
    (msg : Message) (e : Reason) (now : ℕ)
    → get_retry_count (dead_message msg e now) ≡ get_retry_count msg
unfolding get_retry_count dead_message
dead_counted msg e now = refl

same_content :
    (msg : Message) (e : Reason) (n now : ℕ)
    → ((retry_message msg e n now).content ≡ msg.content)
      × ((dead_message msg e now).content ≡ msg.content)
unfolding retry_message dead_message
same_content msg e n now = (refl, refl)

failure-Fate :
    (max_retries : ℕ) (msg : Message) (e : Reason) (now : ℕ) (w : World) (b : Broker)
    → Fate max_retries msg w b (handle_processing_failure max_retries msg e now b)
unfolding handle_processing_failure
failure-Fate max_retries msg e now w b = elim (Bool-cases (ltb (get_retry_count msg) max_retries)) [
  | inl more ↦ rw more (
      inr (
        inl (
          retry_message msg e (get_retry_count msg + 1) now,
          record {
            content = (same_content msg e (get_retry_count msg + 1) now).0;
            allowed = ground arith;
            counted = retry_counted msg e (get_retry_count msg + 1) now;
          },
          refl,
          refl,
        )))
  | inr over ↦ rw over (
      inr (
        inr (
          dead_message msg e now,
          record {
            content = (same_content msg e 0 now).1;
            given_up = inr (ground arith);
            counted = dead_counted msg e now;
          },
          refl,
          refl,
        )))
]

-- A message that is taken from the queue is processed to the end, put back with its content and a
-- count one higher (only below the limit), or moved with its content to the dead-letter queue
-- (only at the limit or where it is no JSON).
pub consume-Fate :
    (max_retries : ℕ) (msg : Message) (w : World) (b : Broker)
    → Fate max_retries msg w b (consume max_retries msg msg.content (w, b)).1
unfolding consume
consume-Fate max_retries msg w b = go msg.content refl
  where
    processed :
        (p : Payload) (r : Result (Unit {0}))
        → msg.content ≡ some p
        → (process p w).0 ≡ r
        → Fate max_retries msg w b (after_processing max_retries msg r (process p w).1.now b)
    processed p (ok u) c e = inl (p, c, e, refl)
    processed p (err e) c q = failure-Fate max_retries msg e (process p w).1.now w b

    go :
        (c : Option Payload)
        → msg.content ≡ c
        → Fate max_retries msg w b (consume max_retries msg c (w, b)).1
    go none e = inr (
        inr (
          dead_message msg invalid_json w.now,
          record {
            content = (same_content msg invalid_json 0 w.now).1;
            given_up = inl e;
            counted = dead_counted msg invalid_json w.now;
          },
          refl,
          refl,
        ))
    go (some p) e = processed p (process p w).0 e refl

-- The deliveries that a message can still have.
abbrev attempts_left : ℕ → Message → ℕ
attempts_left max_retries msg = suc (max_retries - get_retry_count msg)

unfoldable pub total_attempts : ℕ → List Message → ℕ
total_attempts max_retries [] = 0
total_attempts max_retries (m ∷ ms) = attempts_left max_retries m + total_attempts max_retries ms

total-append :
    (max_retries : ℕ) (xs : List Message) (m : Message)
    → total_attempts max_retries (xs ++ m ∷ [])
      ≡ total_attempts max_retries xs + attempts_left max_retries m
unfolding total_attempts
total-append max_retries [] m = omega arith
total-append max_retries (x ∷ xs) m = omega (arith, total-append max_retries xs m)

Fate-attempts :
    (max_retries : ℕ) (msg : Message) (w : World) (b b' : Broker)
    → Fate max_retries msg w b b'
    → total_attempts max_retries b'.queue + 1
      ≤ attempts_left max_retries msg + total_attempts max_retries b.queue
Fate-attempts k msg w b b' (inl (p, c, r, same)) = rw same (omega arith)
Fate-attempts k msg w b b' (inr (inl (m, again, q, d))) =
    let a = again.allowed in let n = again.counted in rw q (omega (arith, total-append k b.queue m))
Fate-attempts k msg w b b' (inr (inr (m, dead, q, d))) = rw q (omega arith)

deliver_from-attempts :
    (max_retries : ℕ) (ms : List Message) (w : World) (b : Broker)
    → b.queue ≡ ms
    → total_attempts max_retries (deliver_from max_retries ms (w, b)).1.queue
      ≤ total_attempts max_retries ms - 1
unfolding deliver_from total_attempts
deliver_from-attempts k [] w b e = rw e (omega arith)
deliver_from-attempts k (m ∷ ms) w b e =
    let rest = record b { queue = ms } in
    let h =
      Fate-attempts k m w rest (consume k m m.content (w, rest)).1 (consume-Fate k m w rest) in
    omega arith

no_attempts : (max_retries : ℕ) (ms : List Message) → total_attempts max_retries ms ≤ 0 → ms ≡ []
unfolding total_attempts
no_attempts k [] h = refl
no_attempts k (m ∷ ms) h = absurd (omega arith)

-- Whatever each delivery does, the queue is empty after as many deliveries as its messages have
-- attempts left.
pub deliver_all-empties :
    (max_retries n : ℕ) (s : World × Broker)
    → total_attempts max_retries s.1.queue ≤ n
    → (deliver_all max_retries n s).1.queue ≡ []
unfolding deliver_all deliver
deliver_all-empties k zero (w, b) h = no_attempts k b.queue h
deliver_all-empties k (suc n) (w, b) h =
    deliver_all-empties k n (deliver_from k b.queue (w, b))
      (omega (arith, deliver_from-attempts k b.queue w b refl))
