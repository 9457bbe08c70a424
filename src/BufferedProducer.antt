-- ===== src/BufferedProducer.antt =====
-- The state of `BufferedProducer` and its operations that call nothing of librdkafka:
-- include/cppkafka/utils/buffered_producer.h. The trackers of messages are shared objects: they lie
-- in `trackers`, and a message or a builder points to its tracker by `internal`.
pub mod Monad
pub mod Report
pub mod Produce
pub mod Flush
pub mod Settings
pub mod Conservation
pub mod Retries
pub mod Buffering
pub mod Sent
pub mod Handover
pub mod Order
pub mod Waiting
pub mod Signals
pub mod Ended
pub mod Ordered
pub mod Deadlock
pub mod Interleaving
mod Tests
mod WaitingTests
mod InterleavingTests
use cppkafka.Prelude.{
  ℕ, zero, suc, ◌+◌, ◌-◌, ◌%◌, ◌^◌, Bool, true, false, not, ◌&&◌, Option, none, some, List, [], ◌∷◌,
  ◌++◌, ltb, leb, ◌==◌, if◌then◌else◌, length, get_elem?, set,
}
use cppkafka.Prelude.Int.{ℤ, pos, negsuc, ltb_ℤ}
use cppkafka.Prelude.Bytes.{Bytes, codes}
use cppkafka.Errors.{RespErr, Result, ok, throw, exception}
use cppkafka.CallbackInvoker.{Callback}
use cppkafka.Message.{Message}
use cppkafka.MessageBuilder.{MessageBuilder}
use cppkafka.AckMonitor.{AckMonitor}

pub data SenderType : Type 0 where
  sync async : SenderType

pub data QueueKind : Type 0 where
  retry produce : QueueKind

pub data FlushAction : Type 0 where
  dont_flush do_flush : FlushAction

pub data Threads : Type 0 where
  all_threads current_thread : Threads

pub data FlushMethod : Type 0 where
  sync_flush async_flush : FlushMethod

pub data QueueFullNotification : Type 0 where
  no_notification once_per_message each_occurence : QueueFullNotification

-- `Tracker`; the promise is `none` until its value is set.
pub record Tracker : Type 0 where
  pub sender : SenderType
  pub retry_promise : Option Bool
  pub num_retries : ℕ

-- `Tracker::prepare_to_retry`.
unfoldable pub prepare_to_retry : Tracker → Tracker
prepare_to_retry t = elim t.sender [ sync ↦ record t { retry_promise = none } | async ↦ t ]

-- `Tracker::should_retry`: a promise keeps its first value.
unfoldable pub should_retry : Bool → Tracker → Tracker
should_retry value t = elim t.sender [
  | sync ↦ elim t.retry_promise [ none ↦ record t { retry_promise = some value } | some _ ↦ t ]
  | async ↦ t
]

-- `Tracker::retry_again`: `none` where it blocks, for nothing has set the promise.
unfoldable pub retry_again : Tracker → Option Bool
retry_again t = elim t.sender [ sync ↦ t.retry_promise | async ↦ some false ]

unfoldable pub has_retries_left : Tracker → Bool
has_retries_left t = ltb 0 t.num_retries

unfoldable pub decrement_retries : Tracker → Tracker
decrement_retries t =
    if ltb 0 t.num_retries then record t { num_retries = t.num_retries - 1 } else t

unfoldable pub set_sender_type : SenderType → Tracker → Tracker
set_sender_type sender t = record t { sender = sender }

-- The callbacks of the application that return nothing, in the order in which they were invoked.
pub data Event : Type 0 where
  produce_success : Message → Event
  produce_termination : Message → Event
  flush_termination : MessageBuilder → RespErr → Event
  queue_full : MessageBuilder → Event

-- The members of `BufferedProducer`; `env` is the state of librdkafka behind `producer_`, `thread`
-- the calling thread, `produced` the builders that `producer_` has accepted.
pub record BufferedProducer (E : Type 0) : Type 0 where
  pub env : E
  pub thread : ℕ
  pub messages : List MessageBuilder
  pub retry_messages : List MessageBuilder
  pub produce_failure_callback : Callback Message Bool
  pub flush_failure_callback : Callback (MessageBuilder × RespErr) Bool
  pub max_buffer_size : ℤ
  pub flush_method : FlushMethod
  pub ack_monitor : AckMonitor
  pub flushes_in_progress : ℕ
  pub total_messages_produced : ℕ
  pub total_messages_dropped : ℕ
  pub max_number_retries : ℤ
  pub enable_message_retries : Bool
  pub queue_full_notification : QueueFullNotification
  pub trackers : List Tracker
  pub events : List Event
  pub produced : List MessageBuilder

-- A `size_t` stored in the `int` member.
unfoldable pub int_of_size : ℕ → ℤ
int_of_size n =
    if ltb (n % 2 ^ 32) (2 ^ 31) then pos (n % 2 ^ 32) else negsuc (2 ^ 32 - 1 - n % 2 ^ 32)

-- The `int` member as the `size_t` that a tracker takes.
unfoldable pub size_of_int : ℤ → ℕ
size_of_int (pos n) = n
size_of_int (negsuc n) = 2 ^ 64 - 1 - n

module _ {E : Type 0} where
  -- `clear`.
  pub clear : BufferedProducer E → BufferedProducer E
  clear s = record s { messages = []; retry_messages = [] }

  -- `get_buffer_size`.
  unfoldable pub get_buffer_size : BufferedProducer E → ℕ
  get_buffer_size s = length s.messages + length s.retry_messages

  -- `set_max_buffer_size`.
  unfoldable pub set_max_buffer_size : ℤ → BufferedProducer E → Result (BufferedProducer E)
  set_max_buffer_size n s =
      if ltb_ℤ n (negsuc 0)
      then throw (exception (codes "Invalid buffer size."))
      else ok (record s { max_buffer_size = n })

  -- `set_max_number_retries`: retries are enabled once.
  unfoldable pub set_max_number_retries : ℕ → BufferedProducer E → BufferedProducer E
  unfolding int_of_size
  set_max_number_retries n s =
      if not s.enable_message_retries && ltb 0 n
      then record s { enable_message_retries = true; max_number_retries = int_of_size n }
      else record s { max_number_retries = int_of_size n }

  -- A call of a method of a tracker through its pointer.
  unfoldable pub update_tracker : ℕ → (Tracker → Tracker) → BufferedProducer E → BufferedProducer E
  update_tracker p f s = elim (get_elem? s.trackers p) [
    | none ↦ s
    | some t ↦ record s { trackers = set s.trackers p (f t) }
  ]

  unfoldable pub new_tracker :
      SenderType → MessageBuilder → BufferedProducer E → MessageBuilder × BufferedProducer E
  unfolding size_of_int
  new_tracker sender b s = (
    record b { internal = some (length s.trackers) },
    record s {
      trackers =
          s.trackers
          ++ record {
            sender = sender;
            retry_promise = none;
            num_retries = size_of_int s.max_number_retries;
          }
            ∷ [];
    },
  )

  unfoldable pub old_tracker :
      SenderType → ℕ → MessageBuilder → BufferedProducer E → MessageBuilder × BufferedProducer E
  unfolding update_tracker set_sender_type
  old_tracker sender p b s = (b, update_tracker p (set_sender_type sender) s)

  -- `add_tracker`: a first tracker, or the builder's own with the sender's type brought up to date.
  unfoldable pub add_tracker :
      SenderType → MessageBuilder → BufferedProducer E → MessageBuilder × BufferedProducer E
  unfolding new_tracker old_tracker
  add_tracker sender b s =
      if s.enable_message_retries
      then elim b.internal [ none ↦ new_tracker sender b s | some p ↦ old_tracker sender p b s ]
      else (b, s)

  -- The first half of `do_add_message`: to the end of one of the two queues.
  unfoldable pub enqueue : QueueKind → MessageBuilder → BufferedProducer E → BufferedProducer E
  enqueue retry b s = record s { retry_messages = s.retry_messages ++ b ∷ [] }
  enqueue produce b s = record s { messages = s.messages ++ b ∷ [] }

  -- The test of the second half of `do_add_message`.
  unfoldable pub must_flush : QueueKind → FlushAction → BufferedProducer E → Bool
  unfolding get_buffer_size
  must_flush produce do_flush s =
      not (ltb_ℤ s.max_buffer_size (pos 0))
      && not (ltb_ℤ (pos (get_buffer_size s)) s.max_buffer_size)
  must_flush _ _ s = false

  -- Whether the message of a tracker may be sent once more: `tracker && tracker->has_retries_left()`.
  unfoldable pub may_retry : Option ℕ → BufferedProducer E → Bool
  unfolding has_retries_left
  may_retry none s = false
  may_retry (some p) s = elim (get_elem? s.trackers p) [
    | none ↦ false
    | some t ↦ has_retries_left t
  ]
