-- ===== src/AckMonitor/Race.antt =====
-- Two threads in `AckMonitor` at once. A call of `increment_pending_acks` or
-- `decrement_pending_acks` begins by `test_and_set`; while another thread holds the flag, the loop
-- `while (!flag_.test_and_set())` ends at its test, and the call returns and has counted nothing.
use cppkafka.Prelude.{ℕ, ◌+◌, ◌≡◌, ◌<◌, refl, true, false, Option, none, some, arith}
use cppkafka.AckMonitor.{AckMonitor, init, count_sent}

-- The monitor; the thread that is inside `increment_pending_acks` and holds the flag; the calls of
-- `increment_pending_acks` that have returned, and those of them that found the flag held.
pub record World : Type 0 where
  pub monitor : AckMonitor
  pub inside : Option ℕ
  pub returned : ℕ
  pub skipped : ℕ

unfoldable pub begin : World
begin = record { monitor = init; inside = none; returned = 0; skipped = 0 }

-- The atomic steps of a call of `increment_pending_acks` by some thread.
pub data Step (w : World) : World → Type 0 where
  -- `test_and_set` finds the flag clear and sets it.
  acquire :
      (t : ℕ)
      → w.monitor.flag ≡ false
      → Step w (record w { monitor = record w.monitor { flag = true }; inside = some t })
  -- `test_and_set` finds the flag set: the call returns.
  skip :
      w.monitor.flag ≡ true
      → Step w (record w { returned = w.returned + 1; skipped = w.skipped + 1 })
  -- The body and `flag_.clear()`.
  finish :
      (t : ℕ)
      → w.inside ≡ some t
      → Step w (record w {
        monitor = record (count_sent t w.monitor) { flag = false };
        inside = none;
        returned = w.returned + 1;
      })

pub data Reach : World → Type 0 where
  here : Reach begin
  next : {v w : World} → Reach v → Step v w → Reach w

-- The flag is held exactly while a thread is inside, and the sent counter falls short of the calls
-- that have returned by exactly those that found the flag held.
pub record IsConsistent (w : World) : Type 0 where
  pub held : w.inside ≡ none → w.monitor.flag ≡ false
  pub busy : (t : ℕ) → w.inside ≡ some t → w.monitor.flag ≡ true
  pub counted : w.monitor.sent_acks + w.skipped ≡ w.returned

Step-IsConsistent : {v w : World} → Step v w → IsConsistent v → IsConsistent w
unfolding count_sent
Step-IsConsistent (acquire t e) c = record {
  held = λ h. cc;
  busy = λ u h. refl;
  counted = c.counted;
}
Step-IsConsistent (skip e) c = record {
  held = c.held;
  busy = c.busy;
  counted = omega (arith, c.counted);
}
Step-IsConsistent (finish t e) c = record {
  held = λ h. refl;
  busy = λ u h. cc;
  counted = omega (arith, c.counted);
}

-- In every interleaving of increments the sent counter is the number of calls that have returned
-- less those that found the flag held by another thread.
pub Reach-IsConsistent : {w : World} → Reach w → IsConsistent w
unfolding begin init
Reach-IsConsistent here = record { held = λ h. refl; busy = λ t h. cc; counted = omega arith }
Reach-IsConsistent (next r s) = Step-IsConsistent s (Reach-IsConsistent r)

-- From every reachable state in which a thread holds the flag, a call by another thread can return
-- without having been counted, so that the sent counter stays below the number of calls returned.
pub Reach-skips :
    (w : World) (t : ℕ)
    → Reach w
    → w.inside ≡ some t
    → (w' : World) × Reach w'
      × (w'.monitor ≡ w.monitor)
      × (w'.returned ≡ w.returned + 1)
      × (w'.monitor.sent_acks < w'.returned)
Reach-skips w t r e =
    let c = Reach-IsConsistent r in
    (
      record w { returned = w.returned + 1; skipped = w.skipped + 1 },
      next r (skip (c.busy t e)),
      refl,
      refl,
      omega (arith, c.counted),
    )
