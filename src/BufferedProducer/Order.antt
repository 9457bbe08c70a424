-- ===== src/BufferedProducer/Order.antt =====
-- The order in which `flush` of include/cppkafka/utils/buffered_producer.h hands the buffered
-- messages to librdkafka.
use cppkafka.Prelude.{
  ℕ, suc, ◌+◌, ◌≡◌, ◌∙◌, refl, sym, ap, Bool, true, false, List, [], ◌∷◌, ◌++◌, not, not,
  append_nil, append_assoc, inl, inr, ◌⊎◌,
}
use cppkafka.Prelude.Int.{ℤ}
use cppkafka.Errors.{no_error, resp_eq}
use cppkafka.AckMonitor.{has_current_thread_pending_acks}
use cppkafka.MessageBuilder.{MessageBuilder}
use cppkafka.BufferedProducer.{current_thread}
use cppkafka.BufferedProducer.Monad.{Outcome, done, raise, blocked, no_fuel, continue, ◌>>◌}
use cppkafka.BufferedProducer.Retries.{Frame}
use cppkafka.BufferedProducer.Produce.{
  Kafka, State, accept, produce_loop, produce_message, wait_for_acks_impl,
  wait_for_current_thread_acks, async_settle, async_produce,
}
use cppkafka.BufferedProducer.Flush.{flush_queue, flush_retries, flush_messages, flush_body, flush}
use cppkafka.BufferedProducer.Sent.{Subseq, Subseq-append, Subseq-more, Sent}
use cppkafka.BufferedProducer.Handover.{flush_queue-Sent, flush_queue-quiet, wait_loop-Frame}

module _ (kafka : Kafka) where
  -- librdkafka has accepted some of `bs`, in their order, and nothing else.
  abbrev pub InOrder : List MessageBuilder → State kafka → State kafka → Type 0
  InOrder bs s t = (xs : List MessageBuilder) × Subseq xs bs × (t.produced ≡ s.produced ++ xs)

  InOrder-join :
      {bs : List MessageBuilder} {s t u : State kafka}
      → Sent bs s t
      → Sent t.messages (record t { messages = [] }) u
      → InOrder (bs ++ s.messages) s u
  InOrder-join {bs} {s} {t} f g =
      let both : Subseq (f.accepted ++ g.accepted) (bs ++ t.messages) =
        Subseq-append f.in_order g.in_order in
      let log =
        g.log ∙ ap (λ l. l ++ g.accepted) f.log ∙ append_assoc s.produced f.accepted g.accepted in
      (f.accepted ++ g.accepted, rw (sym f.queue) both, log)

  InOrder-Frame :
      {bs : List MessageBuilder} (s : State kafka) {t u : State kafka}
      → InOrder bs s t
      → Frame t u
      → InOrder bs s u
  InOrder-Frame s (xs, sub, log) f = (xs, sub, f.produced ∙ log)

  acks_settled : State kafka → Bool
  acks_settled s = not (has_current_thread_pending_acks s.thread s.ack_monitor)

  continue-Frame :
      (r : Outcome Bool) {s t : State kafka}
      → Frame s t
      → Frame s (continue r (λ _ u. (done (acks_settled u), u)) t).1
  continue-Frame (done _) f = f
  continue-Frame (raise e) f = f
  continue-Frame blocked f = f
  continue-Frame no_fuel f = f

  wait_result : ℕ → ℤ → State kafka → Outcome Bool × State kafka
  unfolding acks_settled
  wait_result fuel timeout =
      wait_for_current_thread_acks kafka fuel timeout >> λ s. (done (acks_settled s), s)

  wait-Frame : (fuel : ℕ) (timeout : ℤ) (s : State kafka) → Frame s (wait_result fuel timeout s).1
  unfolding wait_result wait_for_current_thread_acks wait_for_acks_impl
  wait-Frame fuel timeout s =
      continue-Frame _
        (wait_loop-Frame kafka fuel current_thread timeout (kafka.clock s.env) timeout s)

  messages-InOrder :
      (fuel : ℕ) (timeout : ℤ) {bs : List MessageBuilder} {s t : State kafka}
      → Sent bs s t
      → let (r, u) = (flush_messages kafka fuel timeout false >> wait_result fuel timeout) t in
        InOrder (bs ++ s.messages) s u × ((u.messages ≡ []) ⊎ (r ≡ no_fuel))
  unfolding flush_messages
  messages-InOrder fuel timeout {bs} {s} {t} f =
      let start : State kafka = record t { messages = [] } in
      let g = flush_queue-Sent kafka fuel timeout t.messages start in
      elim (flush_queue-quiet kafka fuel timeout t.messages start) [
        | inl e ↦ rw e (
          InOrder-Frame s (InOrder-join f g) (wait-Frame fuel timeout _),
          inl ((wait-Frame fuel timeout _).messages ∙ g.queue),
        )
        | inr e ↦ rw e (InOrder-join f g, inr refl)
      ]

  body-InOrder :
      (fuel : ℕ) (timeout : ℤ) (s : State kafka)
      → let (r, t) = flush_body kafka fuel timeout false s in
        InOrder (s.retry_messages ++ s.messages) s t × ((t.messages ≡ []) ⊎ (r ≡ no_fuel))
  unfolding flush_body flush_retries wait_result acks_settled
  body-InOrder fuel timeout s =
      let start : State kafka = record s { retry_messages = [] } in
      let f = flush_queue-Sent kafka fuel timeout s.retry_messages start in
      elim (flush_queue-quiet kafka fuel timeout s.retry_messages start) [
        | inl e ↦ rw e (messages-InOrder fuel timeout f)
        | inr e ↦ rw e ((_, Subseq-more s.messages f.in_order, f.log), inr refl)
      ]

  -- An asynchronous flush, whatever librdkafka answers and the callbacks decide, hands over no
  -- message but those of the retry queue and then those of the queue, each at most once and in that
  -- order; and it leaves the queue empty unless a loop of the model runs out of fuel.
  pub flush-InOrder :
      (fuel : ℕ) (timeout : ℤ) (s : State kafka)
      → let (r, t) = flush kafka fuel timeout false s in
        InOrder (s.retry_messages ++ s.messages) s t × ((t.messages ≡ []) ⊎ (r ≡ no_fuel))
  unfolding flush
  flush-InOrder fuel timeout s =
      body-InOrder fuel timeout (record s { flushes_in_progress = s.flushes_in_progress + 1 })

  module _
      (accepts : (b : MessageBuilder) (env : kafka.Env) → (kafka.produce b env).0 ≡ no_error) where
    accepted_code :
        (b : MessageBuilder) (env : kafka.Env) → resp_eq (kafka.produce b env).0 no_error ≡ true
    unfolding resp_eq
    accepted_code b env = rw (accepts b env)

    accepted_once :
        (fuel : ℕ) (b : MessageBuilder) (s : State kafka)
        → let (r, t) = async_produce kafka (suc fuel) b false s in
          (r ≡ done tt) × (t.produced ≡ s.produced ++ b ∷ []) × (t.messages ≡ s.messages)
    unfolding async_produce produce_message produce_loop async_settle accept
    accepted_once fuel b s = rw (accepted_code b s.env) (refl, refl, refl)

    accepted_all :
        (fuel : ℕ) (timeout : ℤ) (bs : List MessageBuilder) (s : State kafka)
        → let (r, t) = flush_queue kafka (suc fuel) timeout false bs s in
          (r ≡ done tt) × (t.produced ≡ s.produced ++ bs) × (t.messages ≡ s.messages)
    unfolding flush_queue
    accepted_all fuel timeout [] s = (refl, sym (append_nil s.produced), refl)
    accepted_all fuel timeout (b ∷ bs) s =
        let (r, p, q) = accepted_once fuel b s in
        let (r₂, p₂, q₂) =
          accepted_all fuel timeout bs (async_produce kafka (suc fuel) b false s).1 in
        rw r (r₂, p₂ ∙ ap (λ l. l ++ bs) p ∙ append_assoc s.produced (b ∷ []) bs, q₂ ∙ q)

    -- Where librdkafka accepts every message, an asynchronous flush with at least one unit of fuel
    -- hands over all the messages of the retry queue and then all those of the queue, each once,
    -- and leaves the queue empty.
    pub flush_complete :
        (fuel : ℕ) (timeout : ℤ) (s : State kafka)
        → let t = (flush kafka (suc fuel) timeout false s).1 in
          (t.produced ≡ s.produced ++ (s.retry_messages ++ s.messages)) × (t.messages ≡ [])
    unfolding flush flush_body flush_retries flush_messages wait_result acks_settled
    flush_complete fuel timeout s =
        let s₀ : State kafka = record s {
          flushes_in_progress = s.flushes_in_progress + 1;
          retry_messages = [];
        } in
        let (r₁, p₁, q₁) = accepted_all fuel timeout s.retry_messages s₀ in
        let s₁ = (flush_queue kafka (suc fuel) timeout false s.retry_messages s₀).1 in
        let (r₂, p₂, q₂) = accepted_all fuel timeout s₁.messages (record s₁ { messages = [] }) in
        let s₂ =
          (flush_queue kafka (suc fuel) timeout false s₁.messages
            (record s₁ { messages = [] })).1 in
        let f = wait-Frame (suc fuel) timeout s₂ in
        let all : s₁.produced ++ s₁.messages ≡ s.produced ++ (s.retry_messages ++ s.messages) =
          rw (p₁, q₁) (append_assoc s.produced s.retry_messages s.messages) in
        rw (r₁, r₂) (f.produced ∙ p₂ ∙ all, f.messages ∙ q₂)
