-- ===== src/BufferedProducer/Interleaving.antt =====
-- Several threads at one buffered producer (include/cppkafka/utils/buffered_producer.h): the calls of
-- `add_message`, `produce`, flushes that do not preserve the order and `clear`, and delivery reports,
-- in steps that each hold one of the two mutexes or none. No thread calls `sync_produce` or a flush
-- that preserves the order, so every tracker belongs to an asynchronous send.
pub mod Conservation
pub mod Sequential
pub mod Calls
use cppkafka.Prelude.{
  ℕ, ◌≡◌, Option, none, some, List, [], ◌∷◌, ◌++◌, get_elem?, set, Bool, true, false,
}
use cppkafka.MessageBuilder.{MessageBuilder}
use cppkafka.BufferedProducer.{QueueKind, retry, produce}

-- What the threads share: the two queues, what librdkafka has taken and not reported, and, to tell
-- what became of the messages, all that the application handed in and those that are done with.
pub record Shared : Type 0 where
  pub messages : List MessageBuilder
  pub retry_messages : List MessageBuilder
  pub in_flight : List MessageBuilder
  pub handed_in : List MessageBuilder
  pub delivered : List MessageBuilder
  pub dropped : List MessageBuilder
  pub cleared : List MessageBuilder

-- Where a thread stands: outside of the producer; in `produce` with its message; in one of the two
-- `queue_flusher` calls of a flush, with its temporary queue; or between the two swaps of `clear`.
pub data Place : Type 0 where
  outside : Place
  sending : MessageBuilder → Place
  flushing_retries : List MessageBuilder → Place
  flushing_messages : List MessageBuilder → Place
  clearing : Place

-- The first half of `do_add_message`, under the mutex of the queue.
unfoldable pub push : QueueKind → MessageBuilder → Shared → Shared
push retry b s = record s { retry_messages = s.retry_messages ++ b ∷ [] }
push produce b s = record s { messages = s.messages ++ b ∷ [] }

-- `swap_queues` with a new queue: the messages that are taken, and what is left.
unfoldable pub swap_queues : QueueKind → Shared → List MessageBuilder × Shared
swap_queues retry s = (s.retry_messages, record s { retry_messages = [] })
swap_queues produce s = (s.messages, record s { messages = [] })

-- What the attempt to send a message comes to, or its delivery report: librdkafka and the callbacks
-- choose.
pub data Fate : Type 0 where
  fine again lost : Fate

-- `async_produce`: the message is with librdkafka, in the retry queue, or dropped.
unfoldable pub sent : Fate → MessageBuilder → Shared → Shared
unfolding push
sent fine b s = record s { in_flight = s.in_flight ++ b ∷ [] }
sent again b s = push retry b s
sent lost b s = record s { dropped = s.dropped ++ b ∷ [] }

-- `on_delivery_report` of a message that was sent asynchronously: it is delivered, in the retry
-- queue, or dropped.
unfoldable pub reported : Fate → MessageBuilder → Shared → Shared
unfolding push
reported fine b s = record s { delivered = s.delivered ++ b ∷ [] }
reported again b s = push retry b s
reported lost b s = record s { dropped = s.dropped ++ b ∷ [] }

abbrev pub hand_in : MessageBuilder → Shared → Shared
hand_in b s = record s { handed_in = s.handed_in ++ b ∷ [] }

abbrev pub discard : List MessageBuilder → Shared → Shared
discard queue s = record s { cleared = s.cleared ++ queue }

pub record World : Type 0 where
  pub shared : Shared
  pub threads : List Place

-- One step of the thread that stands at `p`, to `q`.
pub data Move (s : Shared) : Place → Shared → Place → Type 0 where
  -- `add_message`: the message is pushed; whether a flush follows is the next step.
  add : (b : MessageBuilder) → Move s outside (push produce b (hand_in b s)) outside
  -- `produce`, which does not buffer: the call, and what its attempts to send come to. Reports may be
  -- served in between, by this thread too.
  begin_send : (b : MessageBuilder) → Move s outside (hand_in b s) (sending b)
  end_send : (f : Fate) (b : MessageBuilder) → Move s (sending b) (sent f b s) outside
  -- `flush(timeout, false)` begins: the retry queue is taken.
  begin_flush : Move s outside (swap_queues retry s).1 (flushing_retries (swap_queues retry s).0)
  -- A turn of the loop of `queue_flusher`.
  flush_retry :
      (f : Fate) (b : MessageBuilder) (queue : List MessageBuilder)
      → Move s (flushing_retries (b ∷ queue)) (sent f b s) (flushing_retries queue)
  -- The temporary queue is empty: the queue of new messages is taken.
  next_queue :
      Move s
        (flushing_retries [])
        (swap_queues produce s).1
        (flushing_messages (swap_queues produce s).0)
  flush_message :
      (f : Fate) (b : MessageBuilder) (queue : List MessageBuilder)
      → Move s (flushing_messages (b ∷ queue)) (sent f b s) (flushing_messages queue)
  -- The flush only waits after this.
  end_flush : Move s (flushing_messages []) s outside
  -- `clear`: the two queues, one after the other.
  clear_messages :
      Move s outside (discard (swap_queues produce s).0 (swap_queues produce s).1) clearing
  clear_retries : Move s clearing (discard (swap_queues retry s).0 (swap_queues retry s).1) outside

-- A step of the system: a move of one thread, or a report of one of the messages that librdkafka has
-- while some thread polls.
pub data Step (w : World) : World → Type 0 where
  move :
      (i : ℕ) {p q : Place} {s : Shared}
      → get_elem? w.threads i ≡ some p
      → Move w.shared p s q
      → Step w (record { shared = s; threads = set w.threads i q })
  report :
      (f : Fate) (b : MessageBuilder) (before after : List MessageBuilder)
      → w.shared.in_flight ≡ before ++ b ∷ after
      → Step w
          (record w { shared = reported f b (record w.shared { in_flight = before ++ after }) })

-- A new producer, and threads that have not called it.
unfoldable pub begin : List Place → World
begin threads = record {
  shared = record {
    messages = [];
    retry_messages = [];
    in_flight = [];
    handed_in = [];
    delivered = [];
    dropped = [];
    cleared = [];
  };
  threads = threads;
}

abbrev pub AllOutside : List Place → Type 0
AllOutside [] = Unit
AllOutside (p ∷ ps) = (p ≡ outside) × AllOutside ps

pub data Reach : World → Type 0 where
  here : (threads : List Place) → AllOutside threads → Reach (begin threads)
  next : {v w : World} → Reach v → Step v w → Reach w
