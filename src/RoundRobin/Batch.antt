-- ===== src/RoundRobin/Batch.antt =====
-- The size of the batches of `RoundRobinPollStrategy::poll_batch`
-- (include/cppkafka/utils/roundrobin_poll_strategy.h).
use cppkafka.Prelude.{
  ℕ, zero, suc, ◌+◌, ◌≤◌, ◌≡◌, Option, none, some, List, [], arith, ltb, if◌then◌else◌, length,
  length-append, Bool-cases, inl, inr,
}
use cppkafka.Prelude.Int.{ℤ, pos}
use cppkafka.Message.{Message}
use cppkafka.RoundRobin.{
  QueueSystem, Strategy, consume_batch, batch_from, batch_next, batch_loop, poll_batch,
}

module _ (queues : QueueSystem)
    (at_most : (h : queues.Handle) (count : ℕ) (timeout : ℤ) (env : queues.Env)
      → length (queues.consume_batch h count timeout env).0 ≤ count) where
  -- The messages and the room left add up to the size asked for.
  abbrev Fills : ℕ → List Message × (ℕ × Strategy queues) → Type 0
  Fills max b = length b.0 + b.1.0 ≡ max

  consume-Fills :
      (max : ℕ) (h : queues.Handle) (timeout : ℤ) (b : List Message × (ℕ × Strategy queues))
      → Fills max b
      → Fills max (consume_batch queues h timeout b)
  unfolding consume_batch
  consume-Fills max h timeout (messages, (count, s)) e = omega (
    arith,
    at_most h count timeout s.env,
    length-append messages (queues.consume_batch h count timeout s.env).0,
  )

  from-Fills :
      (max : ℕ) (q : Option queues.Handle) (b : List Message × (ℕ × Strategy queues))
      → Fills max b
      → Fills max (batch_from queues q b)
  unfolding batch_from
  from-Fills max none b e = e
  from-Fills max (some h) b e = consume-Fills max h (pos 0) b e

  next-Fills :
      (max : ℕ) (messages : List Message) (count : ℕ) (s : Strategy queues)
      → Fills max (messages, (count, s))
      → Fills max (batch_next queues (messages, (count, s)))
  unfolding batch_next
  next-Fills max messages count s e = from-Fills max _ _ e

  loop-Fills :
      (max n : ℕ) (b : List Message × (ℕ × Strategy queues))
      → Fills max b
      → Fills max (batch_loop queues n b)
  unfolding batch_loop
  loop-Fills max zero b e = e
  loop-Fills max (suc n) (messages, (count, s)) e =
      let next =
        loop-Fills max n (batch_next queues (messages, (count, s)))
          (next-Fills max messages count s e) in
      elim (Bool-cases (ltb 0 count)) [ inl h ↦ rw h next | inr h ↦ rw h e ]

  last-bounded :
      (max : ℕ) (h : queues.Handle) (timeout : ℤ) (b : List Message × (ℕ × Strategy queues))
      → Fills max b
      → length (if ltb 0 b.1.0 then consume_batch queues h timeout b else b).0 ≤ max
  last-bounded max h timeout b e = elim (Bool-cases (ltb 0 b.1.0)) [
    | inl room ↦ let f = consume-Fills max h timeout b e in rw room (omega (arith, f))
    | inr full ↦ rw full (omega (arith, e))
  ]

  -- A batch never has more messages than asked for, if no single queue returns more than it is asked.
  pub poll_batch-bounded :
      (max : ℕ) (timeout : ℤ) (s : Strategy queues)
      → length (poll_batch queues max timeout s).0 ≤ max
  unfolding poll_batch
  poll_batch-bounded max timeout s =
      let start = consume-Fills max s.consumer_queue (pos 0) ([], (max, s)) (omega arith) in
      let all = loop-Fills max (length s.partition_queues) _ start in
      last-bounded max s.consumer_queue timeout _ all
