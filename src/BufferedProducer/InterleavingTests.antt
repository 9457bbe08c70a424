-- ===== src/BufferedProducer/InterleavingTests.antt =====
-- Two threads at a buffered producer: one adds messages, the other flushes while a third is added.
use cppkafka.Prelude.{refl, [], ◌∷◌, ℕ, List}
use cppkafka.Prelude.Int.{pos}
use cppkafka.BufferedProducer.{BufferedProducer}
use cppkafka.BufferedProducer.Interleaving.Calls.{Call, adds, produces, clears, flushes}
use cppkafka.BufferedProducer.Tests.{builder, waiting}
use cppkafka.BufferedProducer.Interleaving.{
  World, outside, fine, again, add, begin_flush, next_queue, flush_message, move, report, begin,
  swap_queues, push, sent, Reach, here, next,
}

abbrev start : Reach (begin (outside ∷ outside ∷ []))
start = here (outside ∷ outside ∷ []) (refl, (refl, tt))

record Run : Type 0 where
  last : World
  reach : Reach last

-- The first thread adds two messages, the second takes them and sends one, which is reported as
-- failed and goes to the retry queue, while the first adds a third.
abbrev run : Run
unfolding begin swap_queues push sent
run = record {
  last = _;
  reach =
      next
        (next
          (next
            (next
              (next (next (next start (move 0 refl (add builder))) (move 0 refl (add builder)))
                (move 1 refl begin_flush))
              (move 1 refl next_queue))
            (move 1 refl (flush_message fine builder (builder ∷ []))))
          (move 0 refl (add builder)))
        (report again builder [] [] refl);
}

-- What the first thread sees after that: one message in each queue.
abbrev seen : BufferedProducer ℕ
seen = record waiting { retry_messages = builder ∷ [] }

-- The first thread sends, clears, adds and flushes.
abbrev calls : List Call
calls = produces builder ∷ clears ∷ adds builder ∷ flushes (pos 0) ∷ []
