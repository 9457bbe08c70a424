-- ===== src/BufferedProducer/Interleaving/Calls.antt =====
-- Calls of one thread as the steps of the relation between threads: `add_message`, `produce`, `clear`
-- and `flush` without preserving the order, of include/cppkafka/utils/buffered_producer.h.
use cppkafka.Prelude.{ℕ, suc, false, List, [], ◌∷◌}
use cppkafka.Prelude.Int.{ℤ}
use cppkafka.MessageBuilder.{MessageBuilder}
use cppkafka.BufferedProducer
use cppkafka.BufferedProducer.{clear}
use cppkafka.BufferedProducer.Produce
use cppkafka.BufferedProducer.Produce.{Kafka, State}
use cppkafka.BufferedProducer.Flush.{flush, add_message}
use cppkafka.BufferedProducer.Interleaving.{Shared, outside}
use cppkafka.BufferedProducer.Interleaving.Sequential.{Moves, Mirrors}

-- What a thread asks of the producer.
pub data Call : Type 0 where
  adds produces : MessageBuilder → Call
  clears : Call
  flushes : ℤ → Call

module _ (kafka : Kafka) (fuel : ℕ) where
  -- The state after a call, whether it throws or not.
  unfoldable pub call : Call → State kafka → State kafka
  call (adds b) s = (add_message kafka (suc fuel) b s).1
  call (produces b) s = (Produce.produce kafka (suc fuel) b s).1
  call clears s = clear s
  call (flushes timeout) s = (flush kafka (suc fuel) timeout false s).1

  unfoldable pub call_all : List Call → State kafka → State kafka
  call_all [] s = s
  call_all (c ∷ cs) s = call_all cs (call c s)

  -- What a call does to the shared state.
  Does : Shared → State kafka → Type 0
  Does w t = (w' : Shared) × Moves w outside w' outside × Mirrors kafka w' t
