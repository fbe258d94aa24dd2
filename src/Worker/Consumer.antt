-- ===== src/Worker/Consumer.antt =====
-- apps/worker/src/registration/registration-consumer.service.ts: what becomes of a message. The
-- broker is outside; what the consumer relies on is that a message that is sent to a queue is
-- appended to it, and that one that is acknowledged does not come again.
use do_an_tot_nghiep.Base.{
  ℕ, zero, suc, ◌+◌, Option, none, some, List, [], ◌∷◌, ◌++◌, if◌then◌else◌, ltb,
}
use do_an_tot_nghiep.Base.Text.{Text}
use do_an_tot_nghiep.Base.Int.{ℤ, pos, negsuc}
use do_an_tot_nghiep.Base.Chars.{parse_int}
use do_an_tot_nghiep.Store.{Reason, invalid_json}
use do_an_tot_nghiep.Worker.Action.{Action, World, Result, ok, err, pure}
use do_an_tot_nghiep.Worker.Handlers.{CreateJobItem, CancelJobItem, handle_create, handle_cancel}

-- RegistrationBatchJobPayload, and a payload of any other type.
pub data Payload : Type 0 where
  create_batch_requested : ℕ → Text → Option (List CreateJobItem) → Option ℕ → Payload
  cancel_batch_requested : ℕ → Text → Option (List CancelJobItem) → Option ℕ → Payload
  unknown_event : Payload

-- A value of the retry header: a number, or anything else by its `String(value)`.
pub data HeaderValue : Type 0 where
  number : ℤ → HeaderValue
  text : Text → HeaderValue

pub record Headers : Type 0 where
  pub retry_count : Option HeaderValue
  pub first_queued_at : Option ℕ
  pub last_error : Option Reason
  pub failed_at : Option ℕ

-- `content` is none where the message is no JSON.
pub record Message : Type 0 where
  pub content : Option Payload
  pub headers : Headers

pub record Broker : Type 0 where
  pub queue : List Message
  pub dead_letters : List Message

abbrev positive : Option ℤ → ℕ
positive none = 0
positive (some (pos n)) = n
positive (some (negsuc n)) = 0

abbrev header_number : Option HeaderValue → Option ℤ
header_number none = some (pos 0)
header_number (some (number z)) = some z
header_number (some (text t)) = parse_int t

-- getRetryCount
unfoldable pub get_retry_count : Message → ℕ
get_retry_count msg = positive (header_number msg.headers.retry_count)

abbrev or_now : Option ℕ → ℕ → Option ℕ
or_now none now = some now
or_now (some t) now = some t

-- publishRetry: what is sent to the queue.
unfoldable pub retry_message : Message → Reason → ℕ → ℕ → Message
retry_message msg error retry_count now = record msg {
  headers = record (msg.headers) {
    retry_count = some (number (pos retry_count));
    first_queued_at = or_now msg.headers.first_queued_at now;
    last_error = some error;
  };
}

-- publishDeadLetter: what is sent to the dead-letter queue.
unfoldable pub dead_message : Message → Reason → ℕ → Message
dead_message msg error now = record msg {
  headers = record (msg.headers) {
    retry_count = some (number (pos (get_retry_count msg)));
    failed_at = some now;
    last_error = some error;
  };
}

abbrev to_queue : Message → Broker → Broker
to_queue msg b = record b { queue = b.queue ++ msg ∷ [] }

abbrev to_dead_letters : Message → Broker → Broker
to_dead_letters msg b = record b { dead_letters = b.dead_letters ++ msg ∷ [] }

-- handleProcessingFailure
unfoldable pub handle_processing_failure : ℕ → Message → Reason → ℕ → Broker → Broker
handle_processing_failure max_retries msg error now b =
    let retry_count = get_retry_count msg in
    if ltb retry_count max_retries
    then to_queue (retry_message msg error (retry_count + 1) now) b
    else to_dead_letters (dead_message msg error now) b

-- The switch over the payload's type.
pub process : Payload → Action (Unit {0})
process (create_batch_requested batch_id semester items queued_at) =
    handle_create batch_id semester items queued_at
process (cancel_batch_requested batch_id semester items queued_at) =
    handle_cancel batch_id semester items queued_at
process unknown_event = pure tt

abbrev pub after_processing : ℕ → Message → Result (Unit {0}) → ℕ → Broker → Broker
after_processing max_retries msg (ok _) now b = b
after_processing max_retries msg (err e) now b = handle_processing_failure max_retries msg e now b

-- The callback of `channel.consume` for a message that has left the queue; it is acknowledged on
-- every path.
unfoldable pub consume : ℕ → Message → Option Payload → World × Broker → World × Broker
consume max_retries msg none (w, b) = (w, to_dead_letters (dead_message msg invalid_json w.now) b)
consume max_retries msg (some payload) (w, b) = (
  (process payload w).1,
  after_processing max_retries msg (process payload w).0 (process payload w).1.now b,
)

unfoldable pub deliver_from : ℕ → List Message → World × Broker → World × Broker
deliver_from max_retries [] s = s
deliver_from max_retries (msg ∷ rest) (w, b) =
    consume max_retries msg msg.content (w, record b { queue = rest })

-- One delivery: the oldest message of the queue.
unfoldable pub deliver : ℕ → World × Broker → World × Broker
deliver max_retries s = deliver_from max_retries s.1.queue s

unfoldable pub deliver_all : ℕ → ℕ → World × Broker → World × Broker
deliver_all max_retries zero s = s
deliver_all max_retries (suc n) s = deliver_all max_retries n (deliver max_retries s)
