-- ===== src/RoundRobin/Queues.antt =====
-- Which partitions have a queue after an assignment or a revocation: src/utils/poll_strategy_base.cpp.
use cppkafka.Prelude.{
  ◌≡◌, refl, Bool, ◌||◌, none, List, [], ◌∷◌, arith, if◌then◌else◌, is_some, any,
}
use cppkafka.Prelude.Order.{equiv, StrictWeakOrder}
use cppkafka.Prelude.OrderedMap.{OrderedMap, find, emplace, erase, find-erase}
use cppkafka.TopicPartition.{TopicPartition, tp_lt}
use cppkafka.TopicPartition.Order.{tp_lt-StrictWeakOrder}
use cppkafka.RoundRobin.{QueueSystem, Strategy, emplace_all, erase_all, assign, revoke, revoke_all}

-- Whether the list has the partition.
abbrev pub listed : List TopicPartition → TopicPartition → Bool
listed ps x = any (λ p. equiv tp_lt p x) ps

is_some-emplace :
    {H : Type 0} (k x : TopicPartition) (v : H) (m : OrderedMap TopicPartition H)
    → is_some (find tp_lt x (emplace tp_lt k v m)) ≡ (is_some (find tp_lt x m) || equiv tp_lt k x)
unfolding find emplace
is_some-emplace k x v [] = ground arith
is_some-emplace k x v ((j, w) ∷ m) =
    let o : StrictWeakOrder tp_lt = tp_lt-StrictWeakOrder in
    ground (arith, is_some-emplace k x v m, o.equiv_trans j k x, o.equiv_trans k j x)

module _ (queues : QueueSystem) where
  is_some-emplace_all :
      (ps : List TopicPartition) (x : TopicPartition) (m : OrderedMap TopicPartition queues.Handle)
      → is_some (find tp_lt x (emplace_all queues ps m)) ≡ (is_some (find tp_lt x m) || listed ps x)
  unfolding emplace_all
  is_some-emplace_all [] x m = ground arith
  is_some-emplace_all (p ∷ ps) x m = ground (
    arith,
    is_some-emplace_all ps x (emplace tp_lt p (queues.partition_queue p) m),
    is_some-emplace p x (queues.partition_queue p) m,
  )

  find-erase_all :
      (ps : List TopicPartition) (x : TopicPartition) (m : OrderedMap TopicPartition queues.Handle)
      → find tp_lt x (erase_all queues ps m) ≡ (if listed ps x then none else find tp_lt x m)
  unfolding erase_all
  find-erase_all [] x m = refl
  find-erase_all (p ∷ ps) x m =
      ground (arith, find-erase_all ps x (erase tp_lt p m), find-erase tp_lt-StrictWeakOrder p x m)

  -- After an assignment exactly the partitions that had a queue and those assigned have one; after a
  -- revocation those revoked have none and all others the queue they had; a revocation of everything
  -- leaves none; and each of them takes the iterator back to the beginning.
  pub assign-queues :
      (ps : List TopicPartition) (x : TopicPartition) (s : Strategy queues)
      → (is_some (find tp_lt x (assign queues ps s).partition_queues)
          ≡ (is_some (find tp_lt x s.partition_queues) || listed ps x))
        × (find tp_lt x (revoke queues ps s).partition_queues
            ≡ (if listed ps x then none else find tp_lt x s.partition_queues))
        × (find tp_lt x (revoke_all queues s).partition_queues ≡ none)
        × ((assign queues ps s).queue_iter ≡ 0)
        × ((revoke queues ps s).queue_iter ≡ 0)
        × ((revoke_all queues s).queue_iter ≡ 0)
  unfolding assign revoke revoke_all find
  assign-queues ps x s = (
    is_some-emplace_all ps x s.partition_queues,
    find-erase_all ps x s.partition_queues,
    refl,
    refl,
    refl,
    refl,
  )
