-- ===== src/RoundRobin/Callbacks.antt =====
-- The callbacks of the consumer that a poll strategy takes over, src/utils/poll_strategy_base.cpp,
-- and the queues that it gives back at its end, src/utils/roundrobin_poll_strategy.cpp.
use cppkafka.Prelude.{◌≡◌, refl, ap, Option, none, some, List, [], ◌∷◌, ◌++◌}
use cppkafka.Prelude.OrderedMap.{OrderedMap}
use cppkafka.Errors.{RespErr}
use cppkafka.TopicPartition.{TopicPartition}
use cppkafka.RoundRobin.{QueueSystem, Strategy, reset_state, assign, revoke}

-- The callbacks of an application; a revocation and an error are only told to it.
pub record Callbacks : Type 0 where
  pub assignment : Option (List TopicPartition → List TopicPartition)
  pub has_revocation : Option (Unit {0})
  pub has_rebalance_error : Option (Unit {0})

-- What the application is told.
pub data Told : Type 0 where
  assigned revoked : List TopicPartition → Told
  failed : RespErr → Told

module _ (queues : QueueSystem) where
  -- What stands in the callback members of a consumer: the application's, or a strategy's that has
  -- taken them over and kept them.
  pub data Slot : Type 0 where
    own : Callbacks → Slot
    taken : Strategy queues → Callbacks → Slot

  -- PollStrategyBase(consumer), with the state that the strategy starts from and the assignment
  -- that the consumer has: the first assignment is not told to the application.
  unfoldable pub take_over : Strategy queues → List TopicPartition → Callbacks → Slot
  take_over s ps callbacks = taken (assign queues ps s) callbacks

  -- ~PollStrategyBase().
  unfoldable pub give_back : Slot → Slot
  give_back (own callbacks) = own callbacks
  give_back (taken s callbacks) = own callbacks

  unfoldable pub tell_assignment :
      Option (List TopicPartition → List TopicPartition)
      → List TopicPartition
      → List TopicPartition × List Told
  tell_assignment none ps = (ps, [])
  tell_assignment (some f) ps = (f ps, assigned (f ps) ∷ [])

  unfoldable pub tell_if : Option (Unit {0}) → Told → List Told
  tell_if none t = []
  tell_if (some _) t = t ∷ []

  -- The assignment callback of the consumer: the partitions as it leaves them, what the application
  -- is told, and the strategy's queues.
  unfoldable pub on_assignment :
      List TopicPartition → Slot → (List TopicPartition × List Told) × Slot
  on_assignment ps (own callbacks) = (tell_assignment callbacks.assignment ps, own callbacks)
  on_assignment ps (taken s callbacks) =
      (tell_assignment callbacks.assignment ps, taken (assign queues ps s) callbacks)

  unfoldable pub on_revocation : List TopicPartition → Slot → List Told × Slot
  on_revocation ps (own callbacks) = (tell_if callbacks.has_revocation (revoked ps), own callbacks)
  on_revocation ps (taken s callbacks) =
      (tell_if callbacks.has_revocation (revoked ps), taken (revoke queues ps s) callbacks)

  unfoldable pub on_rebalance_error : RespErr → Slot → List Told × Slot
  on_rebalance_error e (own callbacks) =
      (tell_if callbacks.has_rebalance_error (failed e), own callbacks)
  on_rebalance_error e (taken s callbacks) =
      (tell_if callbacks.has_rebalance_error (failed e), taken (reset_state queues s) callbacks)

  -- `restore_forwarding`: each partition queue, with the queue that it is forwarded to.
  unfoldable pub restore_forwarding : Strategy queues → List (queues.Handle × queues.Handle)
  restore_forwarding s = forward_all s.partition_queues
    where
      forward_all : OrderedMap TopicPartition queues.Handle → List (queues.Handle × queues.Handle)
      forward_all [] = []
      forward_all ((p, q) ∷ m) = (q, s.consumer_queue) ∷ forward_all m

  -- A rebalance of the consumer.
  pub data Rebalance : Type 0 where
    assigns revokes : List TopicPartition → Rebalance
    fails : RespErr → Rebalance

  unfoldable pub handle : Rebalance → Slot → List Told × Slot
  unfolding on_assignment on_revocation on_rebalance_error
  handle (assigns ps) slot = let ((qs, told), slot') = on_assignment ps slot in (told, slot')
  handle (revokes ps) slot = on_revocation ps slot
  handle (fails e) slot = on_rebalance_error e slot

  unfoldable pub handle_all : List Rebalance → Slot → List Told × Slot
  handle_all [] slot = ([], slot)
  handle_all (r ∷ rs) slot =
      let (told, slot₁) = handle r slot in
      let (more, slot₂) = handle_all rs slot₁ in (told ++ more, slot₂)

  -- One rebalance tells the application the same, and keeps its callbacks.
  handle-taken :
      (r : Rebalance) (s : Strategy queues) (callbacks : Callbacks)
      → (t : Strategy queues) × (handle r (taken s callbacks)
          ≡ ((handle r (own callbacks)).0, taken t callbacks))
        × ((handle r (own callbacks)).1 ≡ own callbacks)
  unfolding handle on_assignment on_revocation on_rebalance_error
  handle-taken (assigns ps) s callbacks = (assign queues ps s, refl, refl)
  handle-taken (revokes ps) s callbacks = (revoke queues ps s, refl, refl)
  handle-taken (fails e) s callbacks = (reset_state queues s, refl, refl)

  -- Whatever rebalances happen while a strategy has taken over the callbacks of a consumer, the
  -- application is told exactly what it would have been told without the strategy, and its own
  -- callbacks are there again when the strategy ends.
  pub handle_all-transparent :
      (rs : List Rebalance) (s : Strategy queues) (ps : List TopicPartition) (callbacks : Callbacks)
      → let (told, slot) = handle_all rs (take_over s ps callbacks) in
        (told ≡ (handle_all rs (own callbacks)).0)
        × (give_back slot ≡ own callbacks)
        × ((handle_all rs (own callbacks)).1 ≡ own callbacks)
  unfolding take_over handle_all give_back
  handle_all-transparent rs s ps callbacks = taken-transparent rs (assign queues ps s) callbacks
    where
      taken-transparent :
          (rs : List Rebalance) (s : Strategy queues) (callbacks : Callbacks)
          → let (told, slot) = handle_all rs (taken s callbacks) in
            (told ≡ (handle_all rs (own callbacks)).0)
            × (give_back slot ≡ own callbacks)
            × ((handle_all rs (own callbacks)).1 ≡ own callbacks)
      taken-transparent [] s callbacks = (refl, refl, refl)
      taken-transparent (r ∷ rs) s callbacks =
          let (t, same, kept) = handle-taken r s callbacks in
          let (told, back, own_kept) = taken-transparent rs t callbacks in
          rw (same, kept) (ap (◌++◌ (handle r (own callbacks)).0) told, back, own_kept)
