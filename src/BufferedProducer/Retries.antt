-- ===== src/BufferedProducer/Retries.antt =====
-- What a delivery report does to the queues, the trackers and the counters, on every branch.
use cppkafka.Prelude.{
  ℕ, ◌+◌, ◌≡◌, ◌∙◌, refl, ap, Bool, true, false, not, ◌&&◌, Option, none, some, List, [], ◌∷◌, ◌++◌,
  arith, if◌then◌else◌, get_elem?, get_elem?-set_self, Option-cases, Bool-cases, inl, inr,
}
use cppkafka.Errors.{is_error}
use cppkafka.CallbackInvoker.{unset_or_true}
use cppkafka.Message.{Message}
use cppkafka.MessageBuilder.{of_message}
use cppkafka.AckMonitor.{AckMonitor, decrement_pending_acks}
use cppkafka.BufferedProducer.{
  BufferedProducer, Tracker, should_retry, decrement_retries, update_tracker, enqueue, may_retry,
}
use cppkafka.BufferedProducer.Report.{
  is_async, retry_message, drop_message, deliver_message, tracker_of, wants_retry, signal, settle,
  on_delivery_report, serve,
}

-- The parts of the state that a delivery report may not touch.
pub record Frame {E : Type 0} (s t : BufferedProducer E) : Type 0 where
  pub messages : t.messages ≡ s.messages
  pub produced : t.produced ≡ s.produced
  pub thread : t.thread ≡ s.thread

module _ {E : Type 0} where
  pub Frame-refl : (s : BufferedProducer E) → Frame s s
  Frame-refl s = record { messages = refl; produced = refl; thread = refl }

  pub Frame-trans : {s t u : BufferedProducer E} → Frame s t → Frame t u → Frame s u
  Frame-trans f g = record {
    messages = g.messages ∙ f.messages;
    produced = g.produced ∙ f.produced;
    thread = g.thread ∙ f.thread;
  }

  pub update-Frame :
      (p : ℕ) (f : Tracker → Tracker) (s : BufferedProducer E) → Frame s (update_tracker p f s)
  unfolding update_tracker
  update-Frame p f s = ground arith

  signal-Frame : (o : Option ℕ) (v : Bool) (s : BufferedProducer E) → Frame s (signal o v s)
  unfolding signal
  signal-Frame none v s = Frame-refl s
  signal-Frame (some p) v s = update-Frame p (should_retry v) s

  retry-Frame :
      (o : Option ℕ) (m : Message) (s : BufferedProducer E) → Frame s (retry_message o m s)
  unfolding retry_message enqueue
  retry-Frame none m s = Frame-refl s
  retry-Frame (some p) m s = ground (arith, update-Frame p decrement_retries s)

  settle-Frame : (m : Message) (s : BufferedProducer E) → Frame s (settle m s)
  unfolding settle drop_message deliver_message
  settle-Frame m s = ground (arith, retry-Frame (tracker_of m s) m s)

  report-Frame : (m : Message) (s : BufferedProducer E) → Frame s (on_delivery_report m s)
  unfolding on_delivery_report
  report-Frame m s =
      let f = settle-Frame m s in
      let g = signal-Frame (tracker_of m s) (wants_retry m s) (settle m s) in
      let h = Frame-trans f g in
      record { messages = h.messages; produced = h.produced; thread = h.thread }

  pub serve-Frame : (ms : List Message) (s : BufferedProducer E) → Frame s (serve ms s)
  unfolding serve
  serve-Frame [] s = Frame-refl s
  serve-Frame (m ∷ ms) s = Frame-trans (report-Frame m s) (serve-Frame ms (on_delivery_report m s))

  is_async-decrement :
      (p : ℕ) (s : BufferedProducer E)
      → is_async p (update_tracker p decrement_retries s) ≡ is_async p s
  unfolding update_tracker is_async decrement_retries
  is_async-decrement p s = elim (Option-cases (get_elem? s.trackers p)) [
    | inl e ↦ ground (arith, e)
    | inr (t, e) ↦ ground (arith, e, get_elem?-set_self s.trackers p (decrement_retries t) t e)
  ]

  -- The fields that `update_tracker` leaves alone.
  abbrev SameBooks : BufferedProducer E → BufferedProducer E → Type 0
  SameBooks s t =
      (t.retry_messages ≡ s.retry_messages)
      × (t.total_messages_produced ≡ s.total_messages_produced)
      × (t.total_messages_dropped ≡ s.total_messages_dropped)
      × (t.ack_monitor ≡ s.ack_monitor)

  update-SameBooks :
      (p : ℕ) (f : Tracker → Tracker) (s : BufferedProducer E) → SameBooks s (update_tracker p f s)
  unfolding update_tracker
  update-SameBooks p f s = ground arith

  signal-SameBooks : (o : Option ℕ) (v : Bool) (s : BufferedProducer E) → SameBooks s (signal o v s)
  unfolding signal
  signal-SameBooks none v s = (refl, refl, refl, refl)
  signal-SameBooks (some p) v s = update-SameBooks p (should_retry v) s

  retry-outcome :
      (o : Option ℕ) (m : Message) (s : BufferedProducer E)
      → ((retry_message o m s).retry_messages ≡ (
          if elim o [ none ↦ false | some p ↦ is_async p s ]
          then s.retry_messages ++ of_message m ∷ []
          else s.retry_messages))
        × ((retry_message o m s).total_messages_produced ≡ s.total_messages_produced)
        × ((retry_message o m s).total_messages_dropped ≡ s.total_messages_dropped)
        × ((retry_message o m s).ack_monitor ≡ s.ack_monitor)
  unfolding retry_message enqueue
  retry-outcome none m s = (refl, refl, refl, refl)
  retry-outcome (some p) m s =
      ground (arith, is_async-decrement p s, update-SameBooks p decrement_retries s)

  wants_retry-error :
      (m : Message) (s : BufferedProducer E) → wants_retry m s ≡ true → is_error m.error ≡ true
  unfolding wants_retry
  wants_retry-error m s h = ground arith

  -- The application lets the error of the message pass, and retries are left to it.
  abbrev pub retryable : Message → BufferedProducer E → Bool
  retryable m s =
      is_error m.error
      && (unset_or_true s.produce_failure_callback m && may_retry (tracker_of m s) s)

  wants_retry-retryable : (m : Message) (s : BufferedProducer E) → wants_retry m s ≡ retryable m s
  unfolding wants_retry
  wants_retry-retryable m s = ground arith

  -- The books after a report, where `again` tells whether its message is sent once more.
  abbrev pub Books : Bool → Message → BufferedProducer E → BufferedProducer E → Type 0
  Books again m s t =
      (t.retry_messages ≡ (
        if again && elim (tracker_of m s) [ none ↦ false | some p ↦ is_async p s ]
        then s.retry_messages ++ of_message m ∷ []
        else s.retry_messages))
      × (t.total_messages_produced
          ≡ s.total_messages_produced + (if is_error m.error then 0 else 1))
      × (t.total_messages_dropped
          ≡ s.total_messages_dropped + (if is_error m.error && not again then 1 else 0))

  Books-same :
      (m : Message) (s t : BufferedProducer E) (again other : Bool)
      → again ≡ other
      → Books again m s t
      → Books other m s t
  Books-same m s t again other e books = rw⁻¹ e books

  settle-outcome :
      (m : Message) (s : BufferedProducer E)
      → Books (wants_retry m s) m s (settle m s) × ((settle m s).ack_monitor ≡ s.ack_monitor)
  unfolding settle drop_message deliver_message
  settle-outcome m s = elim (Bool-cases (wants_retry m s)) [
    | inl h ↦
        let failed = wants_retry-error m s h in
        let (q, a, b, c) = retry-outcome (tracker_of m s) m s in
        rw (failed, h) ((q, omega arith, omega arith), c)
    | inr h ↦ rw h (ground arith)
  ]

  pub report-acknowledges :
      (m : Message) (s : BufferedProducer E)
      → Books (retryable m s) m s (on_delivery_report m s)
        × ((on_delivery_report m s).messages ≡ s.messages)
        × ((on_delivery_report m s).ack_monitor ≡ decrement_pending_acks s.ack_monitor)
  unfolding on_delivery_report
  report-acknowledges m s =
      let (books, acks) = settle-outcome m s in
      let (q, a, b, c) = signal-SameBooks (tracker_of m s) (wants_retry m s) (settle m s) in
      (
        Books-same m s (on_delivery_report m s) _ _ (wants_retry-retryable m s)
            (q ∙ books.0, a ∙ books.1, b ∙ books.2),
        (report-Frame m s).messages,
        ap decrement_pending_acks (c ∙ acks),
      )
