-- ===== src/Queue/Tests.antt =====
-- Runs on queues, and the theorem on their lives at concrete calls.
use cppkafka.Prelude.{ℕ, ◌+◌, ◌≡◌, refl, none, some, [], ◌∷◌, ◌||◌}
use cppkafka.Prelude.Int.{pos, negsuc}
use cppkafka.Prelude.Bytes.{Bytes, codes}
use cppkafka.Errors.{RespErr, timed_out, no_error, is_error, ok, throw, queue_exception}
use cppkafka.Queue.{
  Queues, make_queue, counts_references, consume, consume_batch_within, get_partition_queue,
}
use cppkafka.Queue.Life.{
  QueuesLaws, set_time, take_one, take_batch_in, sets_first, live, times, ends, life-destroys,
}

-- librdkafka with one queue of empty messages, which counts its calls of `queue_destroy`.
abbrev rdkafka : ℕ → RespErr → Queues
rdkafka version error = record {
  Env = ℕ;
  RawMessage = Bytes;
  version = version;
  queue_destroy = λ h env. env + 1;
  queue_length = λ h env. 0;
  queue_forward = λ h d env. env;
  consume_queue = λ h t env. (none, env);
  consume_batch_queue = λ h t n env. (none, env);
  queue_poll = λ h t env. (none, env);
  last_error = λ env. error;
  queue_get_main = λ env. (1, env);
  queue_get_consumer = λ env. (1, env);
  queue_get_partition = λ topic partition env. (some 1, env);
}

-- The last version with the bug, and the one after it.
abbrev old : Queues
old = rdkafka 722176 no_error

abbrev new : Queues
new = rdkafka 722177 no_error

abbrev old-QueuesLaws : QueuesLaws old
old-QueuesLaws = record {
  destroyed = λ h env. env;
  destroys = λ h env. refl;
  forwards = λ h p d env. refl;
  consumes = λ h p t env. refl;
  batches = λ h p n t env. refl;
  polls = λ h p t env. refl;
}

-- A queue of an old version is consumed from with a timeout that nothing set.
unset : consume old (make_queue old (some 1)) 0 ≡ none
unfolding consume make_queue
unset = refl

defaulted : consume new (make_queue new (some 1)) 0 ≡ some (none, 0)
unfolding consume make_queue
defaulted = refl

nothing_left : consume_batch_within new 5 (pos 10) (make_queue new (some 1)) 0 ≡ some (ok [], 0)
unfolding consume_batch_within make_queue is_error
nothing_left = refl

failed_batch :
    consume_batch_within (rdkafka 0 timed_out) 5 (pos 10) (make_queue new (some 1)) 0
    ≡ some (throw (queue_exception timed_out), 0)
unfolding consume_batch_within make_queue is_error
failed_batch = refl

of_partition :
    get_partition_queue new (record { topic = codes "t"; partition = pos 2; offset = negsuc 0 }) 0
    ≡ some (make_queue new (some 1), 0)
unfolding get_partition_queue
of_partition = refl

life-destroys_example :
    times old old-QueuesLaws 1 (
      live old
        (take_batch_in 2 (pos 5) ∷ set_time (pos 5) ∷ take_one ∷ [])
        (some (make_queue old (some 1), 0)))
    ≡ ends old old-QueuesLaws
        (counts_references old
          || sets_first (take_batch_in 2 (pos 5) ∷ set_time (pos 5) ∷ take_one ∷ []))
        (counts_references old)
        0
life-destroys_example =
    life-destroys old old-QueuesLaws (take_batch_in 2 (pos 5) ∷ set_time (pos 5) ∷ take_one ∷ []) 1
      0
