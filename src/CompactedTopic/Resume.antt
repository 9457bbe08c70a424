-- ===== src/CompactedTopic/Resume.antt =====
-- Where an assignment makes the consumer of a compacted topic resume
-- (include/cppkafka/utils/compacted_topic_processor.h).
use cppkafka.Prelude.{
  ◌≡◌, ◌∙◌, refl, not, ◌&&◌, Option, none, some, List, [], ◌∷◌, arith, map, any, if◌then◌else◌,
  Option-cases, inl, inr,
}
use cppkafka.Prelude.Int.{ℤ, pos}
use cppkafka.Prelude.OrderedMap.{OrderedMap, find}
use cppkafka.Errors.{is_error}
use cppkafka.TopicPartition.{TopicPartition, Constants, at_partition, tp_lt, tp_eq, set_offset}
use cppkafka.TopicPartition.Order.{equiv-tp_lt}
use cppkafka.CompactedTopic.{
  Processor, restore_offset, restore, found, on_assignment, process_event, or_unchanged,
}
use cppkafka.CompactedTopic.Offsets.{process_event-offsets}
use cppkafka.CompactedTopic.Assignment.{on_assignment-cache, process_event-callback}
use cppkafka.CompactedTopic.View.{found-restore}
use cppkafka.CompactedTopic.Log.{Delivery, polled, assigned, deliver, run}

module _ (callback : Option (List TopicPartition → List TopicPartition)) (k : Constants) where
  -- The offset of the last message without an error of a partition, unless an assignment since then
  -- did not have the partition.
  abbrev pub last_read : TopicPartition → List Delivery → Option ℤ → Option ℤ
  last_read x [] o = o
  last_read x (polled none ∷ ds) o = last_read x ds o
  last_read x (polled (some m) ∷ ds) o = last_read x ds (
      if not (is_error m.error) && tp_eq (at_partition k m.topic m.partition) x
      then some m.offset
      else o)
  last_read x (assigned ps ∷ ds) o =
      last_read x ds (if any (λ q. tp_eq q x) (or_unchanged callback ps) then o else none)

  -- A partition as it is assigned: from an offset, or as the application wants it.
  abbrev pub resume : Option ℤ → TopicPartition → TopicPartition
  resume none x = x
  resume (some offset) x = set_offset offset x

  found-any : (ps : List TopicPartition) (x : TopicPartition) → found ps x ≡ any (λ q. tp_eq q x) ps
  unfolding found
  found-any [] x = refl
  found-any (q ∷ ps) x = rw (equiv-tp_lt q x, found-any ps x) (ground arith)

  restore_offset-resume :
      (offsets : OrderedMap TopicPartition ℤ) (x : TopicPartition)
      → restore_offset offsets x ≡ resume (find tp_lt x offsets) x
  unfolding restore_offset
  restore_offset-resume offsets x = elim (Option-cases (find tp_lt x offsets)) [
    | inl h ↦ rw (h, restore_offset) refl
    | inr (o, h) ↦ rw (h, restore_offset) refl
  ]

  module _ {Key Value : Type 0} where
    run-timeout :
        (ds : List Delivery) (p : Processor Key Value) → run k (polled none ∷ ds) p ≡ run k ds p
    unfolding run deliver process_event
    run-timeout ds p = refl

    assigned-callback :
        (ps : List TopicPartition) (p : Processor Key Value)
        → (on_assignment ps p).1.original_assignment_callback ≡ p.original_assignment_callback
    unfolding on_assignment
    assigned-callback ps p = refl

    assigned-offset :
        (ps : List TopicPartition) (p : Processor Key Value) (x : TopicPartition)
        → p.original_assignment_callback ≡ callback
        → find tp_lt x (on_assignment ps p).1.partition_offsets ≡ (
            if any (λ q. tp_eq q x) (or_unchanged callback ps)
            then find tp_lt x p.partition_offsets
            else none)
    unfolding on_assignment
    assigned-offset ps p x h =
        (on_assignment-cache ps p x).0
        ∙ rw
            (
              found-restore p.partition_offsets (or_unchanged p.original_assignment_callback ps) x,
              h,
              found-any (or_unchanged callback ps) x,
            )
            refl

    run-offsets :
        (ds : List Delivery) (p : Processor Key Value) (x : TopicPartition)
        → p.original_assignment_callback ≡ callback
        → (find tp_lt x (run k ds p).partition_offsets
            ≡ last_read x ds (find tp_lt x p.partition_offsets))
          × ((run k ds p).original_assignment_callback ≡ callback)
    unfolding run deliver
    run-offsets [] p x h = (refl, h)
    run-offsets (polled none ∷ ds) p x h = rw (run-timeout ds p) (run-offsets ds p x h)
    run-offsets (polled (some m) ∷ ds) p x h =
        rw (← (process_event-offsets k m p x).0)
          (run-offsets ds (process_event k (some m) p) x (process_event-callback k m p ∙ h))
    run-offsets (assigned ps ∷ ds) p x h =
        rw (← assigned-offset ps p x h)
          (run-offsets ds (on_assignment ps p).1 x (assigned-callback ps p ∙ h))

    run-callback :
        (ds : List Delivery) (p : Processor Key Value)
        → p.original_assignment_callback ≡ callback
        → (run k ds p).original_assignment_callback ≡ callback
    run-callback ds p h = (run-offsets ds p (at_partition k [] (pos 0)) h).1

    restore-resumes :
        (ps : List TopicPartition) (p : Processor Key Value) (ds : List Delivery)
        → p.original_assignment_callback ≡ callback
        → restore (run k ds p).partition_offsets ps
          ≡ map (λ x. resume (last_read x ds (find tp_lt x p.partition_offsets)) x) ps
    unfolding restore
    restore-resumes [] p ds h = refl
    restore-resumes (x ∷ ps) p ds h =
        rw
          (
            restore_offset-resume (run k ds p).partition_offsets x,
            (run-offsets ds p x h).0,
            restore-resumes ps p ds h,
          )
          refl

    -- An assignment after any polls and assignments: each of its partitions, as the application's own
    -- callback leaves them, is resumed at the offset of the last message that was read there without
    -- an error, or at the offset that the processor had for it before; but where it had none, or an
    -- assignment since then did not have the partition, it stays as it is.
    pub on_assignment-resumes :
        (ds : List Delivery) (p : Processor Key Value) (ps : List TopicPartition)
        → p.original_assignment_callback ≡ callback
        → (on_assignment ps (run k ds p)).0
          ≡ map
              (λ x. resume (last_read x ds (find tp_lt x p.partition_offsets)) x)
              (or_unchanged callback ps)
    unfolding on_assignment
    on_assignment-resumes ds p ps h =
        rw (run-callback ds p h) (restore-resumes (or_unchanged callback ps) p ds h)
