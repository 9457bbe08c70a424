-- ===== src/AckMonitor.antt =====
-- `BufferedProducer::AckMonitor` of include/cppkafka/utils/buffered_producer.h: the counters of sent
-- and acknowledged messages. The counters are numbers that do not wrap; threads are numbers.
pub mod Counts
pub mod Race
mod Tests
use cppkafka.Prelude.{
  ℕ, suc, ◌+◌, ◌-◌, Bool, true, false, Option, none, some, List, [], ◌∷◌, ltb, ◌==◌, if◌then◌else◌,
}
use cppkafka.Prelude.Int.{ℤ, pos, sub_ℕ, ltb_ℤ}

pub record AckMonitor : Type 0 where
  pub flag : Bool
  pub sent_acks : ℕ
  pub received_acks : ℕ
  pub last_ack : List (ℕ × ℕ)

unfoldable pub init : AckMonitor
init = record { flag = false; sent_acks = 0; received_acks = 0; last_ack = [] }

-- `last_ack_[thread] = n`.
unfoldable pub put : ℕ → ℕ → List (ℕ × ℕ) → List (ℕ × ℕ)
put t n [] = (t, n) ∷ []
put t n ((u, m) ∷ rest) = if u == t then (u, n) ∷ rest else (u, m) ∷ put t n rest

-- `last_ack_.find(thread)`.
unfoldable pub last : ℕ → List (ℕ × ℕ) → Option ℕ
last t [] = none
last t ((u, m) ∷ rest) = if u == t then some m else last t rest

-- The bodies that run while the flag is held.
unfoldable pub count_sent : ℕ → AckMonitor → AckMonitor
count_sent t m = record m {
  sent_acks = m.sent_acks + 1;
  last_ack = put t (m.sent_acks + 1) m.last_ack;
}

unfoldable pub count_received : AckMonitor → AckMonitor
count_received m = record m { received_acks = m.received_acks + 1 }

-- `while (!flag_.test_and_set()) { …; flag_.clear(); break; }`: a flag that is held already ends the
-- loop at its test.
unfoldable pub increment_pending_acks : ℕ → AckMonitor → AckMonitor
unfolding count_sent
increment_pending_acks t m = if m.flag then m else record (count_sent t m) { flag = false }

unfoldable pub decrement_pending_acks : AckMonitor → AckMonitor
unfolding count_received
decrement_pending_acks m = if m.flag then m else record (count_received m) { flag = false }

-- The difference of two signed counters.
unfoldable pub get_pending_acks : AckMonitor → ℤ
get_pending_acks m = if m.flag then pos 0 else sub_ℕ m.sent_acks m.received_acks

pending_of : Option ℕ → ℕ → ℕ
pending_of none received = 0
pending_of (some n) received = if ltb received n then n - received else 0

unfoldable pub get_current_thread_pending_acks : ℕ → AckMonitor → ℕ
unfolding pending_of
get_current_thread_pending_acks t m =
    if m.flag then 0 else pending_of (last t m.last_ack) m.received_acks

unfoldable pub has_pending_acks : AckMonitor → Bool
unfolding get_pending_acks
has_pending_acks m = ltb_ℤ (pos 0) (get_pending_acks m)

unfoldable pub has_current_thread_pending_acks : ℕ → AckMonitor → Bool
unfolding get_current_thread_pending_acks
has_current_thread_pending_acks t m = ltb 0 (get_current_thread_pending_acks t m)
