-- ===== src/BufferedProducer/Waiting.antt =====
-- Waiting for acknowledgements, `wait_for_acks_impl` of include/cppkafka/utils/buffered_producer.h,
-- where librdkafka does what it documents of a flush without a timeout.
use cppkafka.Prelude.{
  ℕ, suc, ◌+◌, ◌≤◌, ◌≡◌, ◌∙◌, refl, ap, Bool, true, false, Option, none, some, List, [], ◌∷◌, arith,
  length,
}
use cppkafka.Errors.{no_error, resp_eq, is_error}
use cppkafka.Message.{Message}
use cppkafka.MessageBuilder.{MessageBuilder}
use cppkafka.AckMonitor.{has_current_thread_pending_acks}
use cppkafka.AckMonitor.Counts.{IsCounted, decrement-IsCounted, decrement-counts, acked-quiet}
use cppkafka.BufferedProducer.{
  BufferedProducer, should_retry, decrement_retries, update_tracker, enqueue,
}
use cppkafka.BufferedProducer.Monad.{done}
use cppkafka.BufferedProducer.Report.{
  retry_message, drop_message, deliver_message, tracker_of, wants_retry, signal, settle,
  on_delivery_report, serve,
}
use cppkafka.BufferedProducer.Retries.{Frame, serve-Frame, report-acknowledges}
use cppkafka.BufferedProducer.Produce.{
  Kafka, State, infinite_timeout, wait_loop, has_pending, wait_for_acks_impl,
  wait_for_current_thread_acks,
}

-- What a delivery report leaves of librdkafka and of the settings.
pub record Kept {E : Type 0} (s t : BufferedProducer E) : Type 0 where
  pub env : t.env ≡ s.env
  pub retries : t.enable_message_retries ≡ s.enable_message_retries

module _ {E : Type 0} where
  pub update-Kept : (p : ℕ) (f : _) (s : BufferedProducer E) → Kept s (update_tracker p f s)
  unfolding update_tracker
  update-Kept p f s = ground arith

  signal-Kept : (o : Option ℕ) (v : Bool) (s : BufferedProducer E) → Kept s (signal o v s)
  unfolding signal
  signal-Kept none v s = record { env = refl; retries = refl }
  signal-Kept (some p) v s = update-Kept p (should_retry v) s

  retry-Kept : (o : Option ℕ) (m : Message) (s : BufferedProducer E) → Kept s (retry_message o m s)
  unfolding retry_message enqueue
  retry-Kept none m s = record { env = refl; retries = refl }
  retry-Kept (some p) m s = ground (arith, update-Kept p decrement_retries s)

  settle-Kept : (m : Message) (s : BufferedProducer E) → Kept s (settle m s)
  unfolding settle drop_message deliver_message
  settle-Kept m s = ground (arith, retry-Kept (tracker_of m s) m s)

  pub report-Kept : (m : Message) (s : BufferedProducer E) → Kept s (on_delivery_report m s)
  unfolding on_delivery_report
  report-Kept m s =
      let f = settle-Kept m s in
      let g = signal-Kept (tracker_of m s) (wants_retry m s) (settle m s) in
      record { env = g.env ∙ f.env; retries = g.retries ∙ f.retries }

  serve-Kept : (ms : List Message) (s : BufferedProducer E) → Kept s (serve ms s)
  unfolding serve
  serve-Kept [] s = record { env = refl; retries = refl }
  serve-Kept (m ∷ ms) s =
      let f = report-Kept m s in
      let g = serve-Kept ms (on_delivery_report m s) in
      record { env = g.env ∙ f.env; retries = g.retries ∙ f.retries }

  -- Each report is one acknowledgement.
  serve-counts :
      (ms : List Message) (s : BufferedProducer E)
      → IsCounted s.ack_monitor
      → let m = (serve ms s).ack_monitor in
        IsCounted m
        × (m.sent_acks ≡ s.ack_monitor.sent_acks)
        × (m.received_acks ≡ s.ack_monitor.received_acks + length ms)
  unfolding serve
  serve-counts [] s v = (v, refl, omega arith)
  serve-counts (m ∷ ms) s v =
      let (_, _, one) = report-acknowledges m s in
      let (p, q) = decrement-counts s.ack_monitor v in
      let w : IsCounted (on_delivery_report m s).ack_monitor =
        rw one (decrement-IsCounted s.ack_monitor v) in
      let (w', p', q') = serve-counts ms (on_delivery_report m s) w in
      (w', p' ∙ ap (λ m. m.sent_acks) one ∙ p, omega (arith, q, q', ap (λ m. m.received_acks) one))

-- What librdkafka documents for messages that it accepts: it has a number of messages outstanding,
-- and a flush without a timeout serves the reports of all of them.
pub record Delivers (kafka : Kafka) : Type 0 where
  pub outstanding : kafka.Env → ℕ
  pub accepts : (b : MessageBuilder) (env : kafka.Env) → (kafka.produce b env).0 ≡ no_error
  pub sent :
      (b : MessageBuilder) (env : kafka.Env)
      → outstanding (kafka.produce b env).1 ≡ outstanding env + 1
  pub flushed : (env : kafka.Env) → (kafka.flush infinite_timeout env).1.0 ≡ no_error
  pub served : (env : kafka.Env) → length (kafka.flush infinite_timeout env).0 ≡ outstanding env
  pub drained : (env : kafka.Env) → outstanding (kafka.flush infinite_timeout env).1.1 ≡ 0

module _ (kafka : Kafka) (laws : Delivers kafka) where
  -- Retries are on or off, and what the monitor waits for is outstanding at librdkafka.
  pub record IsTracked (retries : Bool) (s : State kafka) : Type 0 where
    pub setting : s.enable_message_retries ≡ retries
    pub counted : IsCounted s.ack_monitor
    pub covered : s.ack_monitor.sent_acks ≤ s.ack_monitor.received_acks + laws.outstanding s.env

  -- A thread waits for nothing.
  abbrev pub IsQuiet : State kafka → Type 0
  IsQuiet s = has_current_thread_pending_acks s.thread s.ack_monitor ≡ false

  -- The state after librdkafka has served the reports of all that is outstanding.
  abbrev pub served_state : State kafka → State kafka
  served_state s =
      let (reports, (e, env)) = kafka.flush infinite_timeout s.env in
      serve reports (record s { env = env })

  pub served-IsTracked :
      {retries : Bool} (s : State kafka)
      → IsTracked retries s
      → IsTracked retries (served_state s) × IsQuiet (served_state s)
  served-IsTracked s v =
      let (reports, (e, env)) = kafka.flush infinite_timeout s.env in
      let s₁ : State kafka = record s { env = env } in
      let kept = serve-Kept reports s₁ in
      let (w, p, q) = serve-counts reports s₁ v.counted in
      let acked : (serve reports s₁).ack_monitor.sent_acks
          ≤ (serve reports s₁).ack_monitor.received_acks =
        omega (arith, p, q, v.covered, laws.served s.env) in
      (
        record { setting = kept.retries ∙ v.setting; counted = w; covered = omega (arith, acked) },
        acked-quiet _ _ w acked,
      )

  -- One round of the loop is enough.
  pub wait-served :
      {retries : Bool} (fuel : ℕ) (s : State kafka)
      → IsTracked retries s
      → wait_for_current_thread_acks kafka (suc fuel) infinite_timeout s
        ≡ (done true, served_state s)
  unfolding wait_for_current_thread_acks wait_for_acks_impl wait_loop resp_eq is_error has_pending
  wait-served fuel s v = rw (laws.flushed s.env, (served-IsTracked s v).1) refl

  pub wait-done :
      {retries : Bool} (fuel : ℕ) (s : State kafka)
      → IsTracked retries s
      → let (r, t) = wait_for_current_thread_acks kafka (suc fuel) infinite_timeout s in
        (r ≡ done true) × IsTracked retries t × IsQuiet t × Frame s t
  wait-done fuel s v =
      let (tracked, quiet) = served-IsTracked s v in
      let g = serve-Frame (kafka.flush infinite_timeout s.env).0 _ in
      rw (wait-served fuel s v) (
        refl,
        tracked,
        quiet,
        record { messages = g.messages; produced = g.produced; thread = g.thread },
      )
