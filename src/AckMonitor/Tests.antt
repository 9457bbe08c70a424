-- ===== src/AckMonitor/Tests.antt =====
-- The theorems on the acknowledgement counters at concrete states.
use cppkafka.Prelude.{◌+◌, ◌<◌, ◌≤◌, ◌≡◌, refl, true, some, [], ◌∷◌, arith}
use cppkafka.AckMonitor.{init, put, last, increment_pending_acks, has_current_thread_pending_acks}
use cppkafka.AckMonitor.Counts.{IsCounted, sent, received, run, run-counts}
use cppkafka.AckMonitor.Race.{
  World, begin, Reach, here, next, acquire, Reach-IsConsistent, Reach-skips, IsConsistent,
}

init-IsCounted : IsCounted init
unfolding init last
init-IsCounted = record { free = refl; known = λ t n h. cc }

run-counts_example :
    IsCounted (run (sent 1 ∷ sent 2 ∷ received ∷ []) init)
    × ((run (sent 1 ∷ sent 2 ∷ received ∷ []) init).sent_acks ≡ init.sent_acks + 2)
    × ((run (sent 1 ∷ sent 2 ∷ received ∷ []) init).received_acks ≡ init.received_acks + 1)
run-counts_example = run-counts (sent 1 ∷ sent 2 ∷ received ∷ []) init init-IsCounted

waiting : has_current_thread_pending_acks 1 (increment_pending_acks 1 init) ≡ true
unfolding init has_current_thread_pending_acks increment_pending_acks last put
waiting = refl

counters_start : init.received_acks ≤ init.sent_acks
unfolding init
counters_start = omega arith

-- Thread 7 is inside.
abbrev one_inside : World
one_inside = record begin { monitor = record begin.monitor { flag = true }; inside = some 7 }

one_inside-Reach : Reach one_inside
unfolding begin init
one_inside-Reach = next here (acquire 7 refl)

Reach-IsConsistent_example : IsConsistent one_inside
Reach-IsConsistent_example = Reach-IsConsistent one_inside-Reach

Reach-skips_example :
    (w' : World) × Reach w'
    × (w'.monitor ≡ one_inside.monitor)
    × (w'.returned ≡ one_inside.returned + 1)
    × (w'.monitor.sent_acks < w'.returned)
Reach-skips_example = Reach-skips one_inside 7 one_inside-Reach refl
