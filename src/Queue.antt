-- ===== src/Queue.antt =====
-- Queues of librdkafka: include/cppkafka/queue.h and src/queue.cpp, with the queues of a consumer,
-- src/consumer.cpp. librdkafka is a parameter.
pub mod Life
mod Tests
use cppkafka.Prelude.{
  ℕ, Bool, true, false, Option, none, some, List, [], ◌∷◌, ltb, if◌then◌else◌, is_some,
}
use cppkafka.Prelude.Int.{ℤ, pos}
use cppkafka.Prelude.Bytes.{Bytes}
use cppkafka.Errors.{RespErr, Result, ok, throw, queue_exception, is_error}
use cppkafka.HandleBase.{as_int}
use cppkafka.TopicPartition.{TopicPartition}

-- The calls of librdkafka. Queues and events are numbers and a null pointer is `none`; a batch is the
-- messages stored in the array, or `none` where the call returns -1.
pub record Queues : Type 1 where
  pub Env : Type 0
  pub RawMessage : Type 0
  pub version : ℕ
  pub queue_destroy : ℕ → Env → Env
  pub queue_length : ℕ → Env → ℕ
  pub queue_forward : ℕ → Option ℕ → Env → Env
  pub consume_queue : ℕ → ℤ → Env → Option RawMessage × Env
  pub consume_batch_queue : ℕ → ℤ → ℕ → Env → Option (List RawMessage) × Env
  pub queue_poll : ℕ → ℤ → Env → Option ℕ × Env
  pub last_error : Env → RespErr
  pub queue_get_main : Env → ℕ × Env
  pub queue_get_consumer : Env → ℕ × Env
  pub queue_get_partition : Bytes → ℤ → Env → Option ℕ × Env

-- `Queue`: the handle and whether its deleter destroys it. The constructor that takes no ownership
-- does not initialise the timeout, which is then `none`.
pub record Queue : Type 0 where
  pub handle : Option ℕ
  pub owning : Bool
  pub timeout_ms : Option ℤ

-- `DEFAULT_TIMEOUT`.
abbrev pub default_timeout : ℤ
default_timeout = pos 1000

-- `RD_KAFKA_QUEUE_REFCOUNT_BUG_VERSION`, 0x000b0500.
abbrev pub refcount_bug_version : ℕ
refcount_bug_version = 722176

-- `Queue()`.
pub empty_queue : Queue
empty_queue = record { handle = none; owning = false; timeout_ms = some default_timeout }

-- `Queue(handle)`.
unfoldable pub of_handle : Option ℕ → Queue
of_handle h = record { handle = h; owning = true; timeout_ms = some default_timeout }

-- `make_non_owning`, and the constructor that it calls.
unfoldable pub make_non_owning : Option ℕ → Queue
make_non_owning h = record { handle = h; owning = false; timeout_ms = none }

-- `set_timeout`.
unfoldable pub set_timeout : ℤ → Queue → Queue
set_timeout t q = record q { timeout_ms = some t }

-- `operator bool`.
pub is_valid : Queue → Bool
is_valid q = is_some q.handle

-- A method of an empty queue, or one that reads a timeout that was not set, is undefined: `none`.
abbrev needs {ℓ κ} : {A : Type ℓ} {B : Type κ} → Option A → (A → Option B) → Option B
needs none f = none
needs (some a) f = f a

module _ (lib : Queues) where
  -- Whether queues count their references, from the version after the bug on.
  abbrev pub counts_references : Bool
  counts_references = ltb refcount_bug_version lib.version

  -- `make_queue`.
  unfoldable pub make_queue : Option ℕ → Queue
  unfolding of_handle make_non_owning
  make_queue h = if counts_references then of_handle h else make_non_owning h

  -- The destructor, and that of a queue that was moved from, whose handle is null.
  unfoldable pub destroy : Queue → lib.Env → lib.Env
  destroy q env = elim q.handle [
    | none ↦ env
    | some h ↦ if q.owning then lib.queue_destroy h env else env
  ]

  -- `get_length`.
  unfoldable pub get_length : Queue → lib.Env → Option ℕ
  get_length q env = needs q.handle (λ h. some (lib.queue_length h env))

  -- `forward_to_queue`.
  unfoldable pub forward_to_queue : Queue → Queue → lib.Env → Option lib.Env
  forward_to_queue forward q env =
      needs q.handle (λ h. some (lib.queue_forward h forward.handle env))

  -- `disable_queue_forwarding`.
  unfoldable pub disable_queue_forwarding : Queue → lib.Env → Option lib.Env
  disable_queue_forwarding q env = needs q.handle (λ h. some (lib.queue_forward h none env))

  -- `consume(timeout)`.
  unfoldable pub consume_within : ℤ → Queue → lib.Env → Option (Option lib.RawMessage × lib.Env)
  consume_within t q env = needs q.handle (λ h. some (lib.consume_queue h (as_int t) env))

  -- `consume()`.
  unfoldable pub consume : Queue → lib.Env → Option (Option lib.RawMessage × lib.Env)
  unfolding consume_within
  consume q env = needs q.timeout_ms (λ t. consume_within t q env)

  -- What `consume_batch` makes of the answer of librdkafka.
  unfoldable pub batch_of :
      Option (List lib.RawMessage) × lib.Env → Result (List lib.RawMessage) × lib.Env
  batch_of (some messages, env) = (ok messages, env)
  batch_of (none, env) =
      let e = lib.last_error env in
      if is_error e then (throw (queue_exception e), env) else (ok [], env)

  -- `consume_batch(max_batch_size, timeout)`.
  unfoldable pub consume_batch_within :
      ℕ → ℤ → Queue → lib.Env → Option (Result (List lib.RawMessage) × lib.Env)
  unfolding batch_of
  consume_batch_within n t q env =
      needs q.handle (λ h. some (batch_of (lib.consume_batch_queue h (as_int t) n env)))

  -- `consume_batch(max_batch_size)`.
  unfoldable pub consume_batch :
      ℕ → Queue → lib.Env → Option (Result (List lib.RawMessage) × lib.Env)
  unfolding consume_batch_within
  consume_batch n q env = needs q.timeout_ms (λ t. consume_batch_within n t q env)

  -- `next_event(timeout)`.
  unfoldable pub next_event_within : ℤ → Queue → lib.Env → Option (Option ℕ × lib.Env)
  next_event_within t q env = needs q.handle (λ h. some (lib.queue_poll h (as_int t) env))

  -- `next_event()`.
  unfoldable pub next_event : Queue → lib.Env → Option (Option ℕ × lib.Env)
  unfolding next_event_within
  next_event q env = needs q.timeout_ms (λ t. next_event_within t q env)

  -- A queue with the forwarding of it switched off.
  unfoldable unforwarded : Queue → lib.Env → Option (Queue × lib.Env)
  unfolding disable_queue_forwarding
  unforwarded q env = needs (disable_queue_forwarding q env) (λ env'. some (q, env'))

  -- `get_main_queue`, `get_consumer_queue` and `get_partition_queue` of a consumer.
  unfoldable pub get_main_queue : lib.Env → Option (Queue × lib.Env)
  unfolding unforwarded make_queue
  get_main_queue env =
      let (h, env₁) = lib.queue_get_main env in unforwarded (make_queue (some h)) env₁

  unfoldable pub get_consumer_queue : lib.Env → Queue × lib.Env
  unfolding make_queue
  get_consumer_queue env = let (h, env₁) = lib.queue_get_consumer env in (make_queue (some h), env₁)

  unfoldable pub get_partition_queue : TopicPartition → lib.Env → Option (Queue × lib.Env)
  unfolding unforwarded make_queue
  get_partition_queue p env =
      let (h, env₁) = lib.queue_get_partition p.topic p.partition env in
      unforwarded (make_queue h) env₁
