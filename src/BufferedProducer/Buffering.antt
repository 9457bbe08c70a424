-- ===== src/BufferedProducer/Buffering.antt =====
-- The bound on the buffer that `add_message` keeps: include/cppkafka/utils/buffered_producer.h.
use cppkafka.Prelude.{
  ℕ, ◌≡◌, ◌∙◌, ◌<◌, refl, Bool, false, [], arith, ◌⊎◌, inl, inr, Bool-cases, Option-cases, not,
  ◌&&◌,
}
use cppkafka.Prelude.Int.{ℤ, pos, ltb_ℤ}
use cppkafka.MessageBuilder.{MessageBuilder}
use cppkafka.BufferedProducer
use cppkafka.BufferedProducer.{
  BufferedProducer, SenderType, async, FlushMethod, sync_flush, async_flush, do_flush, add_tracker,
  enqueue, get_buffer_size, must_flush, update_tracker,
}
use cppkafka.BufferedProducer.Monad.{Outcome, done, raise, blocked, no_fuel, continue, pure}
use cppkafka.BufferedProducer.Produce.{Kafka, State}
use cppkafka.BufferedProducer.Flush.{flush_by, flush_async, do_add_message, add_message}
use cppkafka.BufferedProducer.Order.{flush-InOrder}

size_below :
    (k n : ℕ) (max : ℤ)
    → max ≡ pos n
    → (not (ltb_ℤ max (pos 0)) && not (ltb_ℤ (pos k) max)) ≡ false
    → k < n
size_below k n max e h = ground arith

module _ {E : Type 0} where
  update-max :
      (p : ℕ) (f : BufferedProducer.Tracker → BufferedProducer.Tracker) (s : BufferedProducer E)
      → (update_tracker p f s).max_buffer_size ≡ s.max_buffer_size
  unfolding update_tracker
  update-max p f s = ground arith

  add_tracker-max :
      (sender : SenderType) (b : MessageBuilder) (s : BufferedProducer E)
      → (add_tracker sender b s).1.max_buffer_size ≡ s.max_buffer_size
  unfolding add_tracker
  add_tracker-max sender b s = elim (Option-cases b.internal) [
    | inl e ↦ rw (e, BufferedProducer.new_tracker) (ground arith)
    | inr (p, e) ↦
        rw (e, BufferedProducer.old_tracker)
          (ground (arith, update-max p (BufferedProducer.set_sender_type sender) s))
  ]

  enqueue-max :
      (k : BufferedProducer.QueueKind) (b : MessageBuilder) (s : BufferedProducer E)
      → (enqueue k b s).max_buffer_size ≡ s.max_buffer_size
  unfolding enqueue
  enqueue-max k b s = ground arith

  below_max :
      (n : ℕ) (s : BufferedProducer E)
      → s.max_buffer_size ≡ pos n
      → must_flush BufferedProducer.produce do_flush s ≡ false
      → get_buffer_size s < n
  unfolding must_flush
  below_max n s e h = size_below (get_buffer_size s) n s.max_buffer_size e h

module _ (kafka : Kafka) where
  flush_by-empties :
      (method : FlushMethod) (fuel : ℕ) (s : State kafka)
      → ((flush_by kafka method fuel s).1.messages ≡ [])
        ⊎ ((flush_by kafka method fuel s).0 ≡ no_fuel)
  unfolding flush_by flush_async
  flush_by-empties sync_flush fuel s = (flush-InOrder kafka fuel _ s).1
  flush_by-empties async_flush fuel s = (flush-InOrder kafka fuel _ s).1

  discard-messages :
      (r : Outcome Bool) (t : State kafka)
      → (t.messages ≡ []) ⊎ (r ≡ no_fuel)
      → let (q, u) = continue r (λ _. pure tt) t in (u.messages ≡ []) ⊎ (q ≡ no_fuel)
  discard-messages (done _) t (inl e) = inl e
  discard-messages (done _) t (inr e) = inl cc
  discard-messages (raise c) t (inl e) = inl e
  discard-messages (raise c) t (inr e) = inl cc
  discard-messages blocked t (inl e) = inl e
  discard-messages blocked t (inr e) = inl cc
  discard-messages no_fuel t _ = inr refl

  do_add-bounded :
      (fuel n : ℕ) (b : MessageBuilder) (s : State kafka)
      → s.max_buffer_size ≡ pos n
      → let (r, t) = do_add_message kafka fuel b s in
        (t.messages ≡ []) ⊎ ((get_buffer_size t < n) ⊎ (r ≡ no_fuel))
  unfolding do_add_message
  do_add-bounded fuel n b s e =
      let s₁ = enqueue BufferedProducer.produce b s in
      elim (Bool-cases (must_flush BufferedProducer.produce do_flush s₁)) [
        | inl h ↦
            let emptied = discard-messages _ _ (flush_by-empties s₁.flush_method fuel s₁) in
            rw h (elim emptied [ inl empty ↦ inl empty | inr out ↦ inr (inr out) ])
        | inr h ↦ rw h (inr (inl (below_max n s₁ (enqueue-max BufferedProducer.produce b s ∙ e) h)))
      ]

  -- With a maximal buffer size that is not negative, adding a message ends with the queue of new
  -- messages empty, or with fewer messages in the two queues than the maximum, or the flush that it
  -- starts runs out of the model's fuel.
  pub add_message-bounded :
      (fuel n : ℕ) (b : MessageBuilder) (s : State kafka)
      → s.max_buffer_size ≡ pos n
      → let (r, t) = add_message kafka fuel b s in
        (t.messages ≡ []) ⊎ ((get_buffer_size t < n) ⊎ (r ≡ no_fuel))
  unfolding add_message
  add_message-bounded fuel n b s e = do_add-bounded fuel n _ _ (add_tracker-max async b s ∙ e)
