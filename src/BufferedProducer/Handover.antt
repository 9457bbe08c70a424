-- ===== src/BufferedProducer/Handover.antt =====
-- What sending and waiting add to the messages that librdkafka has accepted: `produce_message`,
-- `async_produce`, `wait_for_acks_impl` and `queue_flusher` of
-- include/cppkafka/utils/buffered_producer.h.
use cppkafka.Prelude.{
  ℕ, zero, suc, ◌≡◌, ◌∙◌, refl, ap, Bool, true, false, List, [], ◌∷◌, ◌++◌, arith, if◌then◌else◌,
  Bool-cases, inl, inr, ◌⊎◌, Option, none, some,
}
use cppkafka.Prelude.Int.{ℤ}
use cppkafka.Errors.{RespErr, no_error, queue_full, timed_out, is_error, resp_eq}
use cppkafka.MessageBuilder.{MessageBuilder}
use cppkafka.BufferedProducer.{Threads, enqueue, decrement_retries}
use cppkafka.BufferedProducer.Monad.{Outcome, done, raise, blocked, no_fuel}
use cppkafka.BufferedProducer.Retries.{Frame, Frame-refl, Frame-trans, update-Frame, serve-Frame}
use cppkafka.BufferedProducer.Produce.{
  Kafka, State, poll_producer, notify_queue_full, produce_loop, produce_message, wait_loop,
  drop_builder, decrement_at, async_failed, async_settle, async_produce,
}
use cppkafka.BufferedProducer.Flush.{flush_queue}
use cppkafka.BufferedProducer.Sent.{
  Subseq-more, none_left, kept, Sent, Sent-Frame, Sent-append, Sent-skip,
}

module _ (kafka : Kafka) where
  notify-Frame :
      (n : Bool) (b : MessageBuilder) (s : State kafka) → Frame s (notify_queue_full kafka n b s)
  unfolding notify_queue_full
  notify-Frame n b s = ground arith

  pub poll-Frame : (s : State kafka) → Frame s (poll_producer kafka s)
  unfolding poll_producer
  poll-Frame s =
      let (reports, env) = kafka.poll s.env in
      let f = serve-Frame reports (record s { env = env }) in
      record { messages = f.messages; produced = f.produced; thread = f.thread }

  pub env-Frame : (env : kafka.Env) (s : State kafka) → Frame s (record s { env = env })
  env-Frame env s = record { messages = refl; produced = refl; thread = refl }

  full-Frame :
      (n : Bool) (b : MessageBuilder) (env : kafka.Env) (s : State kafka)
      → Frame s (notify_queue_full kafka n b (poll_producer kafka (record s { env = env })))
  full-Frame n b env s =
      Frame-trans (env-Frame env s)
        (Frame-trans (poll-Frame (record s { env = env })) (notify-Frame n b _))

  -- What `produce_message` leads to: the builder is accepted, last of all, or nothing is.
  abbrev Loop : MessageBuilder → State kafka → Outcome (Unit {0}) → State kafka → Type 0
  Loop b s (done _) t = (t.produced ≡ s.produced ++ b ∷ []) × (t.messages ≡ s.messages)
  Loop b s (raise e) t = Frame s t
  Loop b s blocked t = ⊥
  Loop b s no_fuel t = Frame s t

  Loop-Frame :
      (b : MessageBuilder) (s t u : State kafka) (r : Outcome (Unit {0}))
      → Frame s t
      → Loop b t r u
      → Loop b s r u
  Loop-Frame b s t u (done _) f l = (l.0 ∙ ap (λ xs. xs ++ b ∷ []) f.produced, l.1 ∙ f.messages)
  Loop-Frame b s t u (raise e) f l = Frame-trans f l
  Loop-Frame b s t u blocked f l = l
  Loop-Frame b s t u no_fuel f l = Frame-trans f l

  pub produce_loop-Loop :
      (fuel : ℕ) (n : Bool) (b : MessageBuilder) (s : State kafka)
      → Loop b s (produce_loop kafka fuel n b s).0 (produce_loop kafka fuel n b s).1
  unfolding produce_loop
  produce_loop-Loop zero n b s = Frame-refl s
  produce_loop-Loop (suc fuel) n b s =
      elim (Bool-cases (resp_eq (kafka.produce b s.env).0 no_error)) [
        | inl ok ↦ rw ok (refl, refl)
        | inr bad ↦ elim (Bool-cases (resp_eq (kafka.produce b s.env).0 queue_full)) [
          | inl full ↦
              rw (bad, full)
                (Loop-Frame b s _ _ _ (full-Frame n b _ s) (produce_loop-Loop fuel _ b _))
          | inr other ↦ rw (bad, other) (record { messages = refl; produced = refl; thread = refl })
        ]
      ]

  decrement-Frame : (o : Option ℕ) (s : State kafka) → Frame s (decrement_at kafka o s)
  unfolding decrement_at
  decrement-Frame none s = Frame-refl s
  decrement-Frame (some p) s = update-Frame p decrement_retries s

  failed-Frame :
      (b : MessageBuilder) (e : RespErr) (throw_on_error : Bool) (s : State kafka)
      → Frame s (async_failed kafka b e throw_on_error s).1
  unfolding async_failed enqueue drop_builder
  failed-Frame b e throw_on_error s = ground (arith, decrement-Frame b.internal s)

  settle-Sent :
      (b : MessageBuilder) (throw_on_error : Bool) (r : Outcome (Unit {0})) (s t : State kafka)
      → Loop b s r t
      → Sent (b ∷ []) s (async_settle kafka b throw_on_error r t).1
  unfolding async_settle
  settle-Sent b throw_on_error (done _) s t l = record {
    accepted = b ∷ [];
    in_order = kept none_left;
    log = l.0;
    queue = l.1;
  }
  settle-Sent b throw_on_error (raise e) s t l =
      Sent-skip (Sent-Frame (Frame-trans l (failed-Frame b e throw_on_error t)))
  settle-Sent b throw_on_error blocked s t l = absurd l
  settle-Sent b throw_on_error no_fuel s t l = Sent-skip (Sent-Frame l)

  pub async_produce-Sent :
      (fuel : ℕ) (b : MessageBuilder) (throw_on_error : Bool) (s : State kafka)
      → Sent (b ∷ []) s (async_produce kafka fuel b throw_on_error s).1
  unfolding async_produce produce_message
  async_produce-Sent fuel b throw_on_error s =
      settle-Sent b throw_on_error _ s _ (produce_loop-Loop fuel _ b s)

  -- An asynchronous send that is told not to throw does not.
  settle-quiet :
      (b : MessageBuilder) (r : Outcome (Unit {0})) (s t : State kafka)
      → Loop b s r t
      → ((async_settle kafka b false r t).0 ≡ done tt)
        ⊎ ((async_settle kafka b false r t).0 ≡ no_fuel)
  unfolding async_settle async_failed
  settle-quiet b (done _) s t l = inl refl
  settle-quiet b (raise e) s t l = inl (ground arith)
  settle-quiet b blocked s t l = absurd l
  settle-quiet b no_fuel s t l = inr refl

  async_produce-quiet :
      (fuel : ℕ) (b : MessageBuilder) (s : State kafka)
      → ((async_produce kafka fuel b false s).0 ≡ done tt)
        ⊎ ((async_produce kafka fuel b false s).0 ≡ no_fuel)
  unfolding async_produce produce_message
  async_produce-quiet fuel b s = settle-quiet b _ s _ (produce_loop-Loop fuel _ b s)

  Sent-stop :
      {xs : List MessageBuilder} (ys : List MessageBuilder) {s t : State kafka}
      → Sent xs s t
      → Sent (xs ++ ys) s t
  Sent-stop ys f = record {
    accepted = f.accepted;
    in_order = Subseq-more ys f.in_order;
    log = f.log;
    queue = f.queue;
  }

  pub flush_queue-Sent :
      (fuel : ℕ) (timeout : ℤ) (bs : List MessageBuilder) (s : State kafka)
      → Sent bs s (flush_queue kafka fuel timeout false bs s).1
  unfolding flush_queue
  flush_queue-Sent fuel timeout [] s = Sent-Frame (Frame-refl s)
  flush_queue-Sent fuel timeout (b ∷ bs) s = elim (async_produce-quiet fuel b s) [
    | inl e ↦
        rw e (Sent-append (async_produce-Sent fuel b false s) (flush_queue-Sent fuel timeout bs _))
    | inr e ↦ rw e (Sent-stop bs (async_produce-Sent fuel b false s))
  ]

  pub flush_queue-quiet :
      (fuel : ℕ) (timeout : ℤ) (bs : List MessageBuilder) (s : State kafka)
      → ((flush_queue kafka fuel timeout false bs s).0 ≡ done tt)
        ⊎ ((flush_queue kafka fuel timeout false bs s).0 ≡ no_fuel)
  unfolding flush_queue
  flush_queue-quiet fuel timeout [] s = inl refl
  flush_queue-quiet fuel timeout (b ∷ bs) s = elim (async_produce-quiet fuel b s) [
    | inl e ↦ rw e (flush_queue-quiet fuel timeout bs _)
    | inr e ↦ rw e (inr refl)
  ]

  if-Frame :
      {A : Type 0} (c : Bool) (x y : A × State kafka) {s : State kafka}
      → Frame s x.1
      → Frame s y.1
      → Frame s (if c then x else y).1
  if-Frame true x y f g = f
  if-Frame false x y f g = g

  pub wait_loop-Frame :
      (fuel : ℕ) (threads : Threads) (timeout start left : ℤ) (s : State kafka)
      → Frame s (wait_loop kafka fuel threads timeout start left s).1
  unfolding wait_loop
  wait_loop-Frame zero threads timeout start left s = Frame-refl s
  wait_loop-Frame (suc fuel) threads timeout start left s =
      let (reports, (e, env)) = kafka.flush left s.env in
      let f = Frame-trans (env-Frame env s) (serve-Frame reports (record s { env = env })) in
      if-Frame (resp_eq e timed_out) _ _ f (
        if-Frame (is_error e) _ _ f
          (if-Frame _ _ _ (Frame-trans f (wait_loop-Frame fuel threads timeout start _ _)) f))
