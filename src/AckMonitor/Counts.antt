-- ===== src/AckMonitor/Counts.antt =====
-- The counters of `AckMonitor` while no two threads are in it at once.
use cppkafka.Prelude.{
  ℕ, suc, ◌+◌, ◌-◌, ◌≤◌, ◌<◌, ◌≡◌, ◌≢◌, refl, true, false, Option, none, some, List, [], ◌∷◌, arith,
  if◌then◌else◌, ◌==◌,
}
use cppkafka.AckMonitor.{
  AckMonitor, pending_of, put, last, increment_pending_acks, decrement_pending_acks,
  get_current_thread_pending_acks, has_pending_acks, has_current_thread_pending_acks,
}

pub last-put :
    (t u n : ℕ) (l : List (ℕ × ℕ)) → last u (put t n l) ≡ (if t == u then some n else last u l)
unfolding last put
last-put t u n [] = ground arith
last-put t u n ((v, m) ∷ l) = ground (arith, last-put t u n l)

-- No thread waits for an acknowledgement that was not asked for.
pub record IsCounted (m : AckMonitor) : Type 0 where
  pub free : m.flag ≡ false
  pub known : (t n : ℕ) → last t m.last_ack ≡ some n → n ≤ m.sent_acks

pub increment-IsCounted :
    (t : ℕ) (m : AckMonitor) → IsCounted m → IsCounted (increment_pending_acks t m)
unfolding increment_pending_acks
increment-IsCounted t m v = record {
  free = ground (arith, v.free);
  known = λ u n. ground (arith, v.free, v.known u n, last-put t u (m.sent_acks + 1) m.last_ack);
}

pub decrement-IsCounted : (m : AckMonitor) → IsCounted m → IsCounted (decrement_pending_acks m)
unfolding decrement_pending_acks
decrement-IsCounted m v = record {
  free = ground (arith, v.free);
  known = λ u n. ground (arith, v.free, v.known u n);
}

pub increment-counts :
    (t : ℕ) (m : AckMonitor)
    → IsCounted m
    → ((increment_pending_acks t m).sent_acks ≡ m.sent_acks + 1)
      × ((increment_pending_acks t m).received_acks ≡ m.received_acks)
unfolding increment_pending_acks
increment-counts t m v = ground (arith, v.free)

pub decrement-counts :
    (m : AckMonitor)
    → IsCounted m
    → ((decrement_pending_acks m).sent_acks ≡ m.sent_acks)
      × ((decrement_pending_acks m).received_acks ≡ m.received_acks + 1)
unfolding decrement_pending_acks
decrement-counts m v = ground (arith, v.free)

-- A call of the monitor, by a thread.
pub data Call : Type 0 where
  sent : ℕ → Call
  received : Call

pub run : List Call → AckMonitor → AckMonitor
run [] m = m
run (sent t ∷ cs) m = run cs (increment_pending_acks t m)
run (received ∷ cs) m = run cs (decrement_pending_acks m)

abbrev pub count_sends : List Call → ℕ
count_sends [] = 0
count_sends (sent t ∷ cs) = suc (count_sends cs)
count_sends (received ∷ cs) = count_sends cs

abbrev pub count_receipts : List Call → ℕ
count_receipts [] = 0
count_receipts (sent t ∷ cs) = count_receipts cs
count_receipts (received ∷ cs) = suc (count_receipts cs)

-- From a monitor that no thread is inside of, and in which no thread waits for more than was sent,
-- any sequence of calls, one after the other, leads to such a monitor, and it has counted each of
-- them.
pub run-counts :
    (cs : List Call) (m : AckMonitor)
    → IsCounted m
    → IsCounted (run cs m)
      × ((run cs m).sent_acks ≡ m.sent_acks + count_sends cs)
      × ((run cs m).received_acks ≡ m.received_acks + count_receipts cs)
unfolding run
run-counts [] m v = (v, omega arith, omega arith)
run-counts (sent t ∷ cs) m v =
    let (w, p, q) = run-counts cs (increment_pending_acks t m) (increment-IsCounted t m v) in
    (w, omega (arith, increment-counts t m v), omega (arith, increment-counts t m v))
run-counts (received ∷ cs) m v =
    let (w, p, q) = run-counts cs (decrement_pending_acks m) (decrement-IsCounted m v) in
    (w, omega (arith, decrement-counts m v), omega (arith, decrement-counts m v))

pending_within :
    (o : Option ℕ) (got all : ℕ)
    → ((n : ℕ) → o ≡ some n → n ≤ all)
    → 0 < pending_of o got
    → pending_of o got + got ≤ all
unfolding pending_of
pending_within none got all h p = absurd (omega arith)
pending_within (some n) got all h p = ground (arith, h n refl)

-- In a monitor that no thread is inside of, and in which no thread waits for more than was sent, a
-- thread that has pending acknowledgements waits for messages that were sent: the acknowledgements
-- received and its pending ones are no more than the messages sent by all threads, so the monitor
-- as a whole has pending acknowledgements too.
pub thread_pending-total :
    (t : ℕ) (m : AckMonitor)
    → IsCounted m
    → has_current_thread_pending_acks t m ≡ true
    → (has_pending_acks m ≡ true)
      × (get_current_thread_pending_acks t m + m.received_acks ≤ m.sent_acks)
unfolding has_current_thread_pending_acks has_pending_acks
thread_pending-total t m v h =
    ground
      (arith, pending_within (last t m.last_ack) m.received_acks m.sent_acks (v.known t), v.free)

-- After a thread has sent a message, on a monitor that no thread is inside of, in which no thread
-- waits for more than was sent and that has received no more than was sent, it waits for exactly the acknowledgements that are outstanding
-- in total, and every other thread waits for what it waited for before.
pub increment-pending :
    (t u : ℕ) (m : AckMonitor)
    → IsCounted m
    → t ≢ u
    → m.received_acks ≤ m.sent_acks
    → (get_current_thread_pending_acks t (increment_pending_acks t m)
        ≡ m.sent_acks + 1 - m.received_acks)
      × (get_current_thread_pending_acks u (increment_pending_acks t m)
          ≡ get_current_thread_pending_acks u m)
unfolding get_current_thread_pending_acks increment_pending_acks
increment-pending t u m v ne le = ground (
  arith,
  v.free,
  last-put t t (m.sent_acks + 1) m.last_ack,
  last-put t u (m.sent_acks + 1) m.last_ack,
)

none_pending :
    (o : Option ℕ) (got all : ℕ)
    → ((n : ℕ) → o ≡ some n → n ≤ all)
    → all ≤ got
    → pending_of o got ≡ 0
unfolding pending_of
none_pending none got all h le = refl
none_pending (some n) got all h le = ground (arith, h n refl)

-- A thread whose messages are all acknowledged waits for none.
pub acked-quiet :
    (t : ℕ) (m : AckMonitor)
    → IsCounted m
    → m.sent_acks ≤ m.received_acks
    → has_current_thread_pending_acks t m ≡ false
unfolding has_current_thread_pending_acks get_current_thread_pending_acks
acked-quiet t m v le =
    ground
      (arith, v.free, none_pending (last t m.last_ack) m.received_acks m.sent_acks (v.known t) le)
