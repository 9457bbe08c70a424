-- ===== src/RoundRobin.antt =====
-- Polling the partition queues of a consumer in turn: src/utils/poll_strategy_base.cpp,
-- src/utils/roundrobin_poll_strategy.cpp and include/cppkafka/utils/roundrobin_poll_strategy.h.
pub mod Turns
pub mod Batch
pub mod Queues
pub mod Callbacks
mod Tests
use cppkafka.Prelude.{
  ℕ, zero, suc, ◌+◌, ◌-◌, Bool, true, false, not, ◌&&◌, Option, none, some, List, [], ◌∷◌, ◌++◌,
  ltb, ◌==◌, if◌then◌else◌, length, get_elem?,
}
use cppkafka.Prelude.Int.{ℤ, pos, ltb_ℤ}
use cppkafka.Prelude.OrderedMap.{OrderedMap, emplace, erase}
use cppkafka.Errors.{RespErr}
use cppkafka.Message.{Message}
use cppkafka.TopicPartition.{TopicPartition, tp_lt}

-- The consumer and its queues, as the strategy calls them: handles of queues, and what consuming
-- from one returns within a timeout.
pub record QueueSystem : Type 1 where
  pub Handle : Type 0
  pub Env : Type 0
  pub partition_queue : TopicPartition → Handle
  pub consume : Handle → ℤ → Env → Option Message × Env
  pub consume_batch : Handle → ℕ → ℤ → Env → List Message × Env

-- `++queue_iter_`, and back to the beginning at the end.
unfoldable pub next_iter : ℕ → ℕ → ℕ
next_iter n i = if suc i == n then 0 else suc i

module _ (queues : QueueSystem) where
  -- The members of `PollStrategyBase` and `RoundRobinPollStrategy`; `queue_iter` is the position of
  -- the iterator, and `asked` the partition queues consumed from, in order.
  pub record Strategy : Type 0 where
    pub consumer_queue : queues.Handle
    pub partition_queues : OrderedMap TopicPartition queues.Handle
    pub queue_iter : ℕ
    pub env : queues.Env
    pub asked : List queues.Handle

  -- `reset_state`: the iterator to the beginning.
  unfoldable pub reset_state : Strategy → Strategy
  reset_state s = record s { queue_iter = 0 }

  unfoldable pub emplace_all :
      List TopicPartition
      → OrderedMap TopicPartition queues.Handle
      → OrderedMap TopicPartition queues.Handle
  emplace_all [] m = m
  emplace_all (p ∷ ps) m = emplace_all ps (emplace tp_lt p (queues.partition_queue p) m)

  unfoldable pub erase_all :
      List TopicPartition
      → OrderedMap TopicPartition queues.Handle
      → OrderedMap TopicPartition queues.Handle
  erase_all [] m = m
  erase_all (p ∷ ps) m = erase_all ps (erase tp_lt p m)

  -- `assign`.
  unfoldable pub assign : List TopicPartition → Strategy → Strategy
  unfolding emplace_all reset_state
  assign ps s = reset_state (record s { partition_queues = emplace_all ps s.partition_queues })

  -- `revoke(partitions)`.
  unfoldable pub revoke : List TopicPartition → Strategy → Strategy
  unfolding erase_all reset_state
  revoke ps s = reset_state (record s { partition_queues = erase_all ps s.partition_queues })

  -- `revoke()`.
  unfoldable pub revoke_all : Strategy → Strategy
  unfolding reset_state
  revoke_all s = reset_state (record s { partition_queues = [] })

  -- `get_next_queue` of a map that is not empty: the iterator moves, and the queue is there.
  unfoldable pub get_next_queue : Strategy → Option queues.Handle × Strategy
  get_next_queue s =
      let i = next_iter (length s.partition_queues) s.queue_iter in
      (
        elim (get_elem? s.partition_queues i) [ none ↦ none | some (p, q) ↦ some q ],
        record s { queue_iter = i },
      )

  -- `if (message) return message`, else the rest.
  unfoldable pub first_message :
      Option Message → Strategy → Option Message × Strategy → Option Message × Strategy
  first_message (some x) s rest = (some x, s)
  first_message none s rest = rest

  -- The loop of `poll`, over `num_queues`.
  unfoldable pub poll_loop : ℕ → Strategy → Option Message × Strategy
  poll_loop zero s = (none, s)
  poll_loop (suc n) s =
      let (q, s₁) = get_next_queue s in
      elim q [
        | none ↦ (none, s₁)
        | some h ↦
            let (m, env) = queues.consume h (pos 0) s₁.env in
            let s₂ = record s₁ { env = env; asked = s₁.asked ++ h ∷ [] } in
            first_message m s₂ (poll_loop n s₂)
      ]

  unfoldable pub consume_events : ℤ → Strategy → Option Message × Strategy
  consume_events timeout s =
      let (m, env) = queues.consume s.consumer_queue timeout s.env in (m, record s { env = env })

  -- The next attempt of `poll` where there is no message yet.
  unfoldable pub or_else :
      Option Message × Strategy → (Strategy → Option Message × Strategy) → Option Message × Strategy
  or_else (some m, s) f = (some m, s)
  or_else (none, s) f = f s

  -- `poll(timeout)`.
  unfoldable pub poll : ℤ → Strategy → Option Message × Strategy
  unfolding or_else
  poll timeout s =
      or_else (consume_events (pos 0) s)
        (λ s. or_else (poll_loop (length s.partition_queues) s) (consume_events timeout))

  -- `consume_batch`: the messages are appended, the count reduced.
  unfoldable pub consume_batch :
      queues.Handle → ℤ → List Message × (ℕ × Strategy) → List Message × (ℕ × Strategy)
  consume_batch h timeout (messages, (count, s)) =
      let (ms, env) = queues.consume_batch h count timeout s.env in
      (messages ++ ms, (count - length ms, record s { env = env }))

  unfoldable pub batch_from :
      Option queues.Handle → List Message × (ℕ × Strategy) → List Message × (ℕ × Strategy)
  batch_from none b = b
  batch_from (some h) b = consume_batch h (pos 0) b

  -- A batch from the next partition.
  unfoldable pub batch_next : List Message × (ℕ × Strategy) → List Message × (ℕ × Strategy)
  unfolding batch_from
  batch_next (messages, (count, s)) =
      let (q, s₁) = get_next_queue s in batch_from q (messages, (count, s₁))

  -- The loop of `poll_batch`.
  unfoldable pub batch_loop : ℕ → List Message × (ℕ × Strategy) → List Message × (ℕ × Strategy)
  batch_loop zero b = b
  batch_loop (suc n) b = let rest = batch_loop n (batch_next b) in if ltb 0 b.1.0 then rest else b

  -- `poll_batch(max_batch_size, timeout)`.
  unfoldable pub poll_batch : ℕ → ℤ → Strategy → List Message × Strategy
  poll_batch max_batch_size timeout s =
      let b₁ = consume_batch s.consumer_queue (pos 0) ([], (max_batch_size, s)) in
      let b₂ = batch_loop (length s.partition_queues) b₁ in
      let b₃ = if ltb 0 b₂.1.0 then consume_batch s.consumer_queue timeout b₂ else b₂ in
      (b₃.0, b₃.1.1)
