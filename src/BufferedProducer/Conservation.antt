-- ===== src/BufferedProducer/Conservation.antt =====
-- What a delivery report does to the books of `BufferedProducer`: it is a delivery, a drop, or one
-- of the retries that the trackers still grant.
use cppkafka.Prelude.{
  ℕ, zero, suc, ◌+◌, ◌≤◌, ◌≡◌, refl, Bool, true, Option, none, some, List, [], ◌∷◌, arith, length,
  get_elem?, set, Option-cases, Bool-cases, inl, inr,
}
use cppkafka.Errors.{is_error}
use cppkafka.CallbackInvoker.{unset_or_true}
use cppkafka.Message.{Message}
use cppkafka.BufferedProducer.{
  BufferedProducer, Tracker, should_retry, decrement_retries, has_retries_left, update_tracker,
  enqueue, may_retry,
}
use cppkafka.BufferedProducer.Report.{
  retry_message, drop_message, deliver_message, tracker_of, wants_retry, signal, settle,
  on_delivery_report, serve,
}

-- The retries that all trackers together still grant.
abbrev pub remaining : List Tracker → ℕ
remaining [] = 0
remaining (t ∷ ts) = t.num_retries + remaining ts

-- Messages that are done with, one way or the other.
abbrev pub settled : {E : Type 0} → BufferedProducer E → ℕ
settled s = s.total_messages_produced + s.total_messages_dropped

remaining-set :
    (ts : List Tracker) (p : ℕ) (t u : Tracker)
    → get_elem? ts p ≡ some t
    → remaining (set ts p u) + t.num_retries ≡ remaining ts + u.num_retries
remaining-set [] p t u e = cc
remaining-set (x ∷ ts) zero t u e = ground arith
remaining-set (x ∷ ts) (suc p) t u e = omega (arith, remaining-set ts p t u e)

num_retries-should_retry : (v : Bool) (t : Tracker) → (should_retry v t).num_retries ≡ t.num_retries
unfolding should_retry
num_retries-should_retry v t = ground arith

num_retries-decrement :
    (t : Tracker)
    → has_retries_left t ≡ true
    → (decrement_retries t).num_retries + 1 ≡ t.num_retries
unfolding decrement_retries has_retries_left
num_retries-decrement t h = ground arith

module _ {E : Type 0} where
  remaining-update :
      (p : ℕ) (f : Tracker → Tracker) (s : BufferedProducer E) (t : Tracker)
      → get_elem? s.trackers p ≡ some t
      → remaining (update_tracker p f s).trackers + t.num_retries
        ≡ remaining s.trackers + (f t).num_retries
  unfolding update_tracker
  remaining-update p f s t e = rw (e, update_tracker) (remaining-set s.trackers p t (f t) e)

  -- A call through a pointer to no tracker does nothing.
  update-none :
      (p : ℕ) (f : Tracker → Tracker) (s : BufferedProducer E)
      → get_elem? s.trackers p ≡ none
      → update_tracker p f s ≡ s
  unfolding update_tracker
  update-none p f s e = rw (e, update_tracker)

  settled-update :
      (p : ℕ) (f : Tracker → Tracker) (s : BufferedProducer E)
      → settled (update_tracker p f s) ≡ settled s
  unfolding update_tracker
  settled-update p f s = ground arith

  remaining-signal :
      (o : Option ℕ) (v : Bool) (s : BufferedProducer E)
      → remaining (signal o v s).trackers ≡ remaining s.trackers
  unfolding signal
  remaining-signal none v s = refl
  remaining-signal (some p) v s = elim (Option-cases (get_elem? s.trackers p)) [
    | inl e ↦ rw (update-none p (should_retry v) s e)
    | inr (t, e) ↦
        omega (arith, remaining-update p (should_retry v) s t e, num_retries-should_retry v t)
  ]

  settled-signal :
      (o : Option ℕ) (v : Bool) (s : BufferedProducer E) → settled (signal o v s) ≡ settled s
  unfolding signal
  settled-signal none v s = refl
  settled-signal (some p) v s = settled-update p (should_retry v) s

  remaining-decrement :
      (p : ℕ) (s : BufferedProducer E)
      → may_retry (some p) s ≡ true
      → remaining (update_tracker p decrement_retries s).trackers + 1 ≡ remaining s.trackers
  unfolding may_retry
  remaining-decrement p s h = elim (Option-cases (get_elem? s.trackers p)) [
    | inl e ↦ ground (arith, e)
    | inr (t, e) ↦
        let left : has_retries_left t ≡ true = ground (arith, e) in
        omega (arith, remaining-update p decrement_retries s t e, num_retries-decrement t left)
  ]

  nothing_to_retry : (s : BufferedProducer E) → may_retry none s ≡ true → ⊥
  unfolding may_retry
  nothing_to_retry s h = cc

  remaining-retry :
      (o : Option ℕ) (m : Message) (s : BufferedProducer E)
      → may_retry o s ≡ true
      → (remaining (retry_message o m s).trackers + 1 ≡ remaining s.trackers)
        × (settled (retry_message o m s) ≡ settled s)
  unfolding retry_message enqueue
  remaining-retry none m s h = absurd (nothing_to_retry s h)
  remaining-retry (some p) m s h =
      ground (arith, remaining-decrement p s h, settled-update p decrement_retries s)

  retry_allowed :
      (m : Message) (s : BufferedProducer E)
      → wants_retry m s ≡ true
      → (is_error m.error ≡ true)
        × (unset_or_true s.produce_failure_callback m ≡ true)
        × (may_retry (tracker_of m s) s ≡ true)
  unfolding wants_retry
  retry_allowed m s h = ground arith

  settle-books :
      (m : Message) (s : BufferedProducer E)
      → settled (settle m s) + remaining s.trackers
        ≡ settled s + remaining (settle m s).trackers + 1
  unfolding settle drop_message deliver_message
  settle-books m s = elim (Bool-cases (wants_retry m s)) [
    | inl h ↦
        let (failed, _, may) = retry_allowed m s h in
        rw (failed, h) (omega (arith, remaining-retry (tracker_of m s) m s may))
    | inr h ↦ rw h (ground arith)
  ]

  -- A delivery report, whatever the callbacks answer, is exactly one of three things: one more
  -- message delivered, one more message dropped, or one retry fewer left to the trackers.
  pub report-acknowledges :
      (m : Message) (s : BufferedProducer E)
      → settled (on_delivery_report m s) + remaining s.trackers
        ≡ settled s + remaining (on_delivery_report m s).trackers + 1
  unfolding on_delivery_report
  report-acknowledges m s = omega (
    arith,
    settle-books m s,
    remaining-signal (tracker_of m s) (wants_retry m s) (settle m s),
    settled-signal (tracker_of m s) (wants_retry m s) (settle m s),
  )

  -- Of any series of delivery reports, all but those that use up the retries which the trackers
  -- granted at its start settle a message, delivered or dropped.
  pub serve-books :
      (ms : List Message) (s : BufferedProducer E)
      → (settled (serve ms s) + remaining s.trackers
          ≡ settled s + remaining (serve ms s).trackers + length ms)
        × (length ms ≤ settled (serve ms s) + remaining s.trackers)
  unfolding serve
  serve-books [] s = (omega arith, omega arith)
  serve-books (m ∷ ms) s =
      let (e, h) = serve-books ms (on_delivery_report m s) in
      (omega (arith, report-acknowledges m s), omega (arith, report-acknowledges m s))
