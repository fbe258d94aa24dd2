-- ===== src/Worker/Action.antt =====
-- The worker's actions: exceptions over the database, with an outcome for each query that reaches
-- it. PrismaClient and PostgreSQL are not under src/; what the worker relies on is that one
-- statement is atomic, so each query has happened wholly or not at all.
use do_an_tot_nghiep.Base.{ℕ, ◌+◌, List, [], ◌∷◌}
use do_an_tot_nghiep.Base.Text.{Text}
use do_an_tot_nghiep.Store.{Db, Reason, unavailable, BatchType}

-- How one query ends: it is done and answered, it is refused and not done, or it is done and the
-- answer is lost with the connection.
pub data Outcome : Type 0 where
  answered refused lost : Outcome

-- writeBatchLog: the fields of the Redis hash.
pub record BatchLog : Type 0 where
  pub semester : Text
  pub batch_id : ℕ
  pub batch_type : BatchType
  pub queue_wait_ms : ℕ
  pub processing_duration_ms : ℕ
  pub total_items : ℕ
  pub success_items : ℕ
  pub failed_items : ℕ
  pub created_at_ms : ℕ

-- `schedule` gives the outcome of each query to come and the time that it takes; past its end
-- every query is answered at once.
pub record World : Type 0 where
  pub db : Db
  pub now : ℕ
  pub schedule : List (Outcome × ℕ)
  pub logs : List BatchLog

pub data Result {ℓ} (A : Type ℓ) : Type ℓ where
  ok : A → Result A
  err : Reason → Result A

abbrev pub Action : Type 0 → Type 0
Action A = World → Result A × World

module _ {A : Type 0} where
  abbrev pub pure : A → Action A
  pure a w = (ok a, w)

  abbrev throw : Reason → Action A
  throw e w = (err e, w)

  -- try { m } catch (e) { h e }
  abbrev pub catch_result : Result A → (Reason → Action A) → Action A
  catch_result (ok a) h w = (ok a, w)
  catch_result (err e) h w = h e w

  abbrev pub catch : Action A → (Reason → Action A) → Action A
  catch m h w = catch_result (m w).0 h (m w).1

abbrev pub bind_result : {A B : Type 0} → Result A → (A → Action B) → Action B
bind_result (ok a) f w = f a w
bind_result (err e) f w = (err e, w)

infixl 5 ◌>>=◌ ◌>>◌
abbrev pub ◌>>=◌ : {A B : Type 0} → Action A → (A → Action B) → Action B
◌>>=◌ m f w = bind_result (m w).0 f (m w).1

abbrev pub ◌>>◌ : {A B : Type 0} → Action A → Action B → Action B
m >> k = m >>= λ _. k

abbrev pub clock : Action ℕ
clock w = (ok w.now, w)

-- A statement: what it answers, and the tables after it.
abbrev pub Statement : Type 0 → Type 0
Statement A = ℕ → Db → Result A × Db

abbrev pub elapse_by : List (Outcome × ℕ) → World → World
elapse_by [] w = w
elapse_by ((o, ms) ∷ rest) w = record w { now = w.now + ms; schedule = rest }

abbrev pub first_outcome : List (Outcome × ℕ) → Outcome
first_outcome [] = answered
first_outcome ((o, ms) ∷ rest) = o

-- The state after a query has taken its time, and how that query ends.
unfoldable pub elapse : World → World
elapse w = elapse_by w.schedule w

unfoldable pub outcome : World → Outcome
outcome w = first_outcome w.schedule

-- What is left of a query's answer and effect, by how it ends.
abbrev pub settle : {A : Type 0} → Outcome → Result A × Db → World → Result A × World
settle answered (r, db) w = (r, record w { db = db })
settle refused (r, db) w = (err unavailable, w)
settle lost (r, db) w = (err unavailable, record w { db = db })

unfoldable pub query : {A : Type 0} → Statement A → Action A
query st w = settle (outcome w) (st (elapse w).now (elapse w).db) (elapse w)
