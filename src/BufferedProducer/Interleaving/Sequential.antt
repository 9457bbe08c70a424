-- ===== src/BufferedProducer/Interleaving/Sequential.antt =====
-- The flush of one thread as the steps of the relation between threads: `queue_flusher` of
-- include/cppkafka/utils/buffered_producer.h over both queues.
use mathlib.Core.Option.{some-injective}
use cppkafka.Prelude.{
  ℕ, zero, suc, sym, set, get_elem?, get_elem?-set_self, ◌≡◌, ◌∙◌, refl, ap, false, Option, none,
  some, List, [], ◌∷◌, ◌++◌, arith, length, Bool-cases, inl, inr, ◌&&◌, ◌+◌,
}
use cppkafka.Prelude.Int.{ℤ}
use cppkafka.Errors.{RespErr, no_error, queue_full, resp_eq}
use cppkafka.CallbackInvoker.{unset_or_true}
use cppkafka.MessageBuilder.{MessageBuilder}
use cppkafka.BufferedProducer.{enqueue, may_retry, update_tracker, retry, produce}
use cppkafka.BufferedProducer.Monad.{Outcome, done, ◌>>◌}
use cppkafka.BufferedProducer.Produce.{
  Kafka, State, accept, produce_loop, produce_message, drop_builder, decrement_at, async_failed,
  async_settle, async_produce,
}
use cppkafka.BufferedProducer.Flush.{flush_queue, flush_retries, flush_messages}
use cppkafka.BufferedProducer.Interleaving.{
  Shared, Place, outside, flushing_retries, flushing_messages, Fate, fine, again, lost, push, sent,
  swap_queues, Move, begin_flush, flush_retry, next_queue, flush_message, end_flush, World, Reach,
  next, move,
}

-- Moves of one thread, one after the other.
pub data Moves : Shared → Place → Shared → Place → Type 0 where
  stay : (s : Shared) (p : Place) → Moves s p s p
  go : {s t u : Shared} {p q r : Place} → Move s p t q → Moves t q u r → Moves s p u r

pub Moves-append : {s t u : Shared} {p q r : Place} → Moves s p t q → Moves t q u r → Moves s p u r
Moves-append (stay s p) ns = ns
Moves-append (go m ms) ns = go m (Moves-append ms ns)

pub set-same :
    {A : Type 0} (xs : List A) (i : ℕ) (x : A) → get_elem? xs i ≡ some x → set xs i x ≡ xs
set-same [] i x e = refl
set-same (y ∷ xs) zero x e = ap (λ z. z ∷ xs) (sym (some-injective _ _ e))
set-same (y ∷ xs) (suc i) x e = ap (λ zs. y ∷ zs) (set-same xs i x e)

set-set : {A : Type 0} (xs : List A) (i : ℕ) (x y : A) → set (set xs i x) i y ≡ set xs i y
set-set [] i x y = refl
set-set (z ∷ xs) zero x y = refl
set-set (z ∷ xs) (suc i) x y = ap (λ zs. z ∷ zs) (set-set xs i x y)

-- The moves of one thread are steps of the system.
pub Moves-Reach :
    (i : ℕ) (threads : List Place) {s t : Shared} {p q : Place}
    → get_elem? threads i ≡ some p
    → Moves s p t q
    → Reach (record { shared = s; threads = threads })
    → Reach (record { shared = t; threads = set threads i q })
Moves-Reach i threads e (stay s p) r = rw (set-same threads i p e) r
Moves-Reach i threads {t = u} {q} e (go {q = q'} m ms) r = rw (← set-set threads i q' q) (
    Moves-Reach i (set threads i q') (get_elem?-set_self threads i q' _ e) ms (next r (move i e m)))

module _ (kafka : Kafka) where
  -- The shared state behind a state of the producer, where no report was served.
  abbrev pub Mirrors : Shared → State kafka → Type 0
  Mirrors w s =
      (w.messages ≡ s.messages)
      × (w.retry_messages ≡ s.retry_messages)
      × (w.in_flight ≡ s.produced)
      × (length w.dropped ≡ s.total_messages_dropped)

  length-last : {A : Type 0} (xs : List A) (x : A) → length (xs ++ x ∷ []) ≡ length xs + 1
  length-last [] x = refl
  length-last (y ∷ xs) x = ground (arith, length-last xs x)

  pub Mirrors-decrement :
      (o : Option ℕ) (w : Shared) (s : State kafka)
      → Mirrors w s
      → Mirrors w (decrement_at kafka o s)
  unfolding decrement_at update_tracker
  Mirrors-decrement none w s h = h
  Mirrors-decrement (some p) w s h = ground (arith, h)

  pub Mirrors-enqueue :
      (b : MessageBuilder) (w : Shared) (s : State kafka)
      → Mirrors w s
      → Mirrors (sent again b w) (enqueue retry b s)
  unfolding sent push enqueue
  Mirrors-enqueue b w s (m, r, p, d) = (m, ap (λ xs. xs ++ b ∷ []) r, p, d)

  pub Mirrors-drop :
      (b : MessageBuilder) (e : RespErr) (w : Shared) (s : State kafka)
      → Mirrors w s
      → Mirrors (sent lost b w) (drop_builder kafka b e s)
  unfolding sent drop_builder
  Mirrors-drop b e w s (m, r, p, d) = (m, r, p, length-last w.dropped b ∙ ap (λ n. n + 1) d)

  -- A send that does not throw does to the shared state what one of the fates does.
  SentAs : MessageBuilder → Shared → Outcome (Unit {0}) × State kafka → Type 0
  SentAs b w (r, t) = (r ≡ done tt) × (f : Fate) × Mirrors (sent f b w) t

  failed-SentAs :
      (b : MessageBuilder) (e : RespErr) (w : Shared) (s : State kafka)
      → Mirrors w s
      → SentAs b w (async_failed kafka b e false s)
  unfolding async_failed SentAs
  failed-SentAs b e w s h =
      elim (Bool-cases (unset_or_true s.flush_failure_callback (b, e) && may_retry b.internal s)) [
        | inl c ↦ rw c (refl, again, Mirrors-enqueue b w _ (Mirrors-decrement b.internal w s h))
        | inr c ↦ rw c (refl, lost, Mirrors-drop b e w s h)
      ]

  accepted-SentAs :
      (b : MessageBuilder) (w : Shared) (s : State kafka)
      → Mirrors w s
      → SentAs b w (done tt, accept kafka b s)
  unfolding SentAs accept sent
  accepted-SentAs b w s (m, r, p, d) = (refl, fine, (m, r, ap (λ xs. xs ++ b ∷ []) p, d))

  module _
      (room : (b : MessageBuilder) (env : kafka.Env)
        → resp_eq (kafka.produce b env).0 queue_full ≡ false) where
    async_produce-SentAs :
        (fuel : ℕ) (b : MessageBuilder) (w : Shared) (s : State kafka)
        → Mirrors w s
        → SentAs b w (async_produce kafka (suc fuel) b false s)
    unfolding async_produce produce_message produce_loop async_settle
    async_produce-SentAs fuel b w s h =
        elim (Bool-cases (resp_eq (kafka.produce b s.env).0 no_error)) [
          | inl e ↦ rw e (accepted-SentAs b w _ h)
          | inr e ↦ rw (e, room b s.env) (failed-SentAs b _ w _ h)
        ]

    -- The loop over a temporary queue, in either of the two places.
    queue-Moves :
        (place : List MessageBuilder → Place)
        (turn : (s : Shared) (f : Fate) (b : MessageBuilder) (queue : List MessageBuilder)
          → Move s (place (b ∷ queue)) (sent f b s) (place queue))
        (fuel : ℕ) (timeout : ℤ) (bs : List MessageBuilder) (w : Shared) (s : State kafka)
        → Mirrors w s
        → let (r, t) = flush_queue kafka (suc fuel) timeout false bs s in
          (r ≡ done tt) × (w' : Shared) × Moves w (place bs) w' (place []) × Mirrors w' t
    unfolding flush_queue SentAs
    queue-Moves place turn fuel timeout [] w s h = (refl, w, stay w _, h)
    queue-Moves place turn fuel timeout (b ∷ bs) w s h =
        let (e, f, h₁) = async_produce-SentAs fuel b w s h in
        let (e₂, w₂, moves, h₂) = queue-Moves place turn fuel timeout bs (sent f b w) _ h₁ in
        rw e (e₂, w₂, go (turn w f b bs) moves, h₂)

    pub retries-Moves :
        (fuel : ℕ) (timeout : ℤ) (w : Shared) (s : State kafka)
        → Mirrors w s
        → let (r, t) = flush_retries kafka (suc fuel) timeout false s in
          (r ≡ done tt) × (w' : Shared) × Moves w outside w' (flushing_retries []) × Mirrors w' t
    unfolding flush_retries swap_queues
    retries-Moves fuel timeout w s (m, r, p, d) =
        let (e, w₁, moves, h) =
          queue-Moves flushing_retries (λ s f b queue. flush_retry f b queue) fuel timeout
            s.retry_messages (swap_queues retry w).1 _ (m, refl, p, d) in
        (e, w₁, go begin_flush (rw r moves), h)

    pub messages-Moves :
        (fuel : ℕ) (timeout : ℤ) (w : Shared) (s : State kafka)
        → Mirrors w s
        → let (r, t) = flush_messages kafka (suc fuel) timeout false s in
          (r ≡ done tt) × (w' : Shared) × Moves w (flushing_retries []) w' outside × Mirrors w' t
    unfolding flush_messages swap_queues
    messages-Moves fuel timeout w s (m, r, p, d) =
        let (e, w₁, moves, h) =
          queue-Moves flushing_messages (λ s f b queue. flush_message f b queue) fuel timeout
            s.messages (swap_queues produce w).1 _ (refl, r, p, d) in
        (e, w₁, go next_queue (rw m (Moves-append moves (go end_flush (stay w₁ outside)))), h)

    pub both-Moves :
        (fuel : ℕ) (timeout : ℤ) (w : Shared) (s : State kafka)
        → Mirrors w s
        → let (r, t) =
            (flush_retries kafka (suc fuel) timeout false
                >> flush_messages kafka (suc fuel) timeout false)
              s in
          (r ≡ done tt) × (w' : Shared) × Moves w outside w' outside × Mirrors w' t
    both-Moves fuel timeout w s h =
        let (e, w₁, moves, h₁) = retries-Moves fuel timeout w s h in
        let (e₂, w₂, moves₂, h₂) = messages-Moves fuel timeout w₁ _ h₁ in
        rw e (e₂, w₂, Moves-append moves moves₂, h₂)

    -- The two queues of an asynchronous flush, where librdkafka never answers that its queue is
    -- full: the code ends without an exception and does to the queues, to what librdkafka has and to
    -- the number of dropped messages what moves of one thread do, so that a system of threads that
    -- can be in the state before the flush, with that thread outside of the producer, can be in the
    -- state after it, with every thread where it was.
    pub flush-Reach :
        (fuel : ℕ) (timeout : ℤ) (i : ℕ) (v : World) (s : State kafka)
        → Reach v
        → get_elem? v.threads i ≡ some outside
        → Mirrors v.shared s
        → let (r, t) =
            (flush_retries kafka (suc fuel) timeout false
                >> flush_messages kafka (suc fuel) timeout false)
              s in
          (r ≡ done tt)
          × (w : Shared) × Mirrors w t
          × Reach (record { shared = w; threads = v.threads })
    flush-Reach fuel timeout i v s reach e h =
        let (done_, w, moves, h₁) = both-Moves fuel timeout v.shared s h in
        (
          done_,
          w,
          h₁,
          rw (← set-same v.threads i outside e) (Moves-Reach i v.threads e moves reach),
        )
