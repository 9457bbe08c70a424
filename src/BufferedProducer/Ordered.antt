-- ===== src/BufferedProducer/Ordered.antt =====
-- A flush that preserves the order, `flush` and `sync_produce` of
-- include/cppkafka/utils/buffered_producer.h, where librdkafka accepts every message.
use cppkafka.Prelude.{
  ℕ, suc, ◌+◌, ◌≡◌, ◌∙◌, refl, sym, ap, Bool, true, false, not, List, [], ◌∷◌, ◌++◌, arith,
  append_nil, append_assoc, if◌then◌else◌,
}
use cppkafka.Errors.{resp_eq}
use cppkafka.MessageBuilder.{MessageBuilder}
use cppkafka.AckMonitor.Counts.{increment-IsCounted, increment-counts}
use cppkafka.BufferedProducer.Monad.{done}
use cppkafka.BufferedProducer.Produce.{
  Kafka, State, infinite_timeout, accept, produce_loop, produce_message,
}
use cppkafka.BufferedProducer.Flush.{
  once_settle, produce_once, sync_produce, flush_queue, flush_retries, flush_messages, flush_body,
  flush, leave_flush,
}
use cppkafka.BufferedProducer.Waiting.{Delivers, IsTracked, IsQuiet, wait-done}

if-off : {A : Type 0} (c : Bool) (x y : A) → c ≡ false → (if c then x else y) ≡ y
if-off c x y h = rw h refl

module _ (kafka : Kafka) (laws : Delivers kafka) where
  -- Some messages are sent, and their acknowledgements are there.
  record Delivered (bs : List MessageBuilder) (s t : State kafka) : Type 0 where
    pub tracked : IsTracked kafka laws false t
    pub quiet : IsQuiet kafka laws t
    pub log : t.produced ≡ s.produced ++ bs
    pub queue : t.messages ≡ s.messages

  unfoldable pub accepted : State kafka → MessageBuilder → State kafka
  unfolding accept
  accepted s b = accept kafka b (record s { env = (kafka.produce b s.env).1 })

  pub produce-accepted :
      (fuel : ℕ) (b : MessageBuilder) (s : State kafka)
      → produce_message kafka (suc fuel) b s ≡ (done tt, accepted s b)
  unfolding produce_message produce_loop accepted resp_eq
  produce-accepted fuel b s = rw (laws.accepts b s.env) refl

  pub accepted-IsTracked :
      {retries : Bool} (b : MessageBuilder) (s : State kafka)
      → IsTracked kafka laws retries s
      → IsTracked kafka laws retries (accepted s b)
  unfolding accepted accept
  accepted-IsTracked b s v =
      let (p, q) = increment-counts s.thread s.ack_monitor v.counted in
      record {
        setting = v.setting;
        counted = increment-IsCounted s.thread s.ack_monitor v.counted;
        covered = omega (arith, p, q, v.covered, laws.sent b s.env);
      }

  Delivered-append :
      (b : MessageBuilder) (bs : List MessageBuilder) (s t u : State kafka)
      → Delivered (b ∷ []) s t
      → Delivered bs t u
      → Delivered (b ∷ bs) s u
  Delivered-append b bs s t u d d' = record {
    tracked = d'.tracked;
    quiet = d'.quiet;
    log = d'.log ∙ ap (λ l. l ++ bs) d.log ∙ append_assoc s.produced (b ∷ []) bs;
    queue = d'.queue ∙ d.queue;
  }

  produce_once-Delivered :
      (fuel : ℕ) (b : MessageBuilder) (throw_on_error : Bool) (s : State kafka)
      → IsTracked kafka laws false s
      → let (r, t) = produce_once kafka (suc fuel) b infinite_timeout throw_on_error s in
        (r ≡ done true) × Delivered (b ∷ []) s t
  unfolding produce_once once_settle accepted accept
  produce_once-Delivered fuel b throw_on_error s v =
      let (r, tracked, quiet, frame) =
        wait-done kafka laws fuel (accepted s b) (accepted-IsTracked b s v) in
      rw (produce-accepted fuel b s, r)
        (
          ap (λ p. done (not p)) quiet,
          record { tracked = tracked; quiet = quiet; log = frame.produced; queue = frame.messages },
        )

  sync_produce-once :
      (fuel : ℕ) (b : MessageBuilder) (throw_on_error : Bool) (s : State kafka)
      → s.enable_message_retries ≡ false
      → sync_produce kafka fuel b infinite_timeout throw_on_error s
        ≡ produce_once kafka fuel b infinite_timeout throw_on_error s
  unfolding sync_produce
  sync_produce-once fuel b throw_on_error s off = if-off _ _ _ off

  -- A synchronous send returns `true`, and its message is acknowledged.
  sync_produce-Delivered :
      (fuel : ℕ) (b : MessageBuilder) (throw_on_error : Bool) (s : State kafka)
      → IsTracked kafka laws false s
      → let (r, t) = sync_produce kafka (suc fuel) b infinite_timeout throw_on_error s in
        (r ≡ done true) × Delivered (b ∷ []) s t
  sync_produce-Delivered fuel b throw_on_error s v =
      rw (sync_produce-once (suc fuel) b throw_on_error s v.setting)
        (produce_once-Delivered fuel b throw_on_error s v)

  flush_queue-Delivered :
      (fuel : ℕ) (bs : List MessageBuilder) (s : State kafka)
      → IsTracked kafka laws false s
      → IsQuiet kafka laws s
      → let (r, t) = flush_queue kafka (suc fuel) infinite_timeout true bs s in
        (r ≡ done tt) × Delivered bs s t
  unfolding flush_queue
  flush_queue-Delivered fuel [] s v q =
      (refl, record { tracked = v; quiet = q; log = sym (append_nil s.produced); queue = refl })
  flush_queue-Delivered fuel (b ∷ bs) s v q =
      let (r, d) = sync_produce-Delivered fuel b false s v in
      let (r', d') = flush_queue-Delivered fuel bs _ d.tracked d.quiet in
      rw (r, r') (refl, Delivered-append b bs s _ _ d d')

  -- Where librdkafka accepts every message and a flush of it without a timeout serves the reports of
  -- all that is outstanding, retries are off, and the thread waits for no acknowledgement: a flush
  -- that preserves the order, without a timeout and with one unit of fuel or more, returns true, has
  -- sent all the messages of the retry queue and then those of the queue, each once, and leaves
  -- the queue empty and no acknowledgement to wait for.
  pub flush-delivers :
      (fuel : ℕ) (s : State kafka)
      → IsTracked kafka laws false s
      → IsQuiet kafka laws s
      → let (r, t) = flush kafka (suc fuel) infinite_timeout true s in
        (r ≡ done true)
        × (t.produced ≡ s.produced ++ (s.retry_messages ++ s.messages))
        × (t.messages ≡ [])
        × IsQuiet kafka laws t
  unfolding flush flush_body flush_retries flush_messages leave_flush
  flush-delivers fuel s v q =
      let s₀ : State kafka = record s {
        flushes_in_progress = s.flushes_in_progress + 1;
        retry_messages = [];
      } in
      let (r, d) =
        flush_queue-Delivered fuel s.retry_messages s₀
          (record { setting = v.setting; counted = v.counted; covered = v.covered }) q in
      let s₁ = (flush_queue kafka (suc fuel) infinite_timeout true s.retry_messages s₀).1 in
      let w = d.tracked in
      let (r', d') =
        flush_queue-Delivered fuel s₁.messages (record s₁ { messages = [] })
          (record { setting = w.setting; counted = w.counted; covered = w.covered }) d.quiet in
      let all : s₁.produced ++ s₁.messages ≡ s.produced ++ (s.retry_messages ++ s.messages) =
        rw (d.log, d.queue) (append_assoc s.produced s.retry_messages s.messages) in
      rw (r, r', d'.quiet) (refl, d'.log ∙ all, d'.queue, refl)
