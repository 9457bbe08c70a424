-- ===== src/Queue/Life.antt =====
-- A queue from the call that makes it to its destructor (src/queue.cpp).
use cppkafka.Prelude.{
  ℕ, ◌+◌, ◌≡◌, ◌∙◌, refl, ap, Bool, true, false, ◌||◌, Option, none, some, List, [], ◌∷◌, arith,
  if◌then◌else◌, Bool-cases, inl, inr, is_some,
}
use cppkafka.Prelude.Int.{ℤ}
use cppkafka.HandleBase.{as_int}
use cppkafka.Queue.{
  Queues, Queue, counts_references, make_queue, of_handle, make_non_owning, set_timeout, destroy,
  forward_to_queue, disable_queue_forwarding, consume_within, consume, batch_of,
  consume_batch_within, consume_batch, next_event_within, next_event, default_timeout,
}

-- What is done with a queue: the calls that change it or librdkafka.
pub data Op : Type 0 where
  set_time : ℤ → Op
  forward : Queue → Op
  stop_forwarding : Op
  take_one take_event : Op
  take_one_in take_event_in : ℤ → Op
  take_batch : ℕ → Op
  take_batch_in : ℕ → ℤ → Op

-- What librdkafka does with references: a queue is destroyed by a call of `queue_destroy`, and by no
-- other.
pub record QueuesLaws (lib : Queues) : Type 0 where
  pub destroyed : ℕ → lib.Env → ℕ
  pub destroys :
      (h : ℕ) (env : lib.Env) → destroyed h (lib.queue_destroy h env) ≡ destroyed h env + 1
  pub forwards :
      (h p : ℕ) (d : Option ℕ) (env : lib.Env)
      → destroyed h (lib.queue_forward p d env) ≡ destroyed h env
  pub consumes :
      (h p : ℕ) (t : ℤ) (env : lib.Env)
      → destroyed h (lib.consume_queue p t env).1 ≡ destroyed h env
  pub batches :
      (h p n : ℕ) (t : ℤ) (env : lib.Env)
      → destroyed h (lib.consume_batch_queue p t n env).1 ≡ destroyed h env
  pub polls :
      (h p : ℕ) (t : ℤ) (env : lib.Env) → destroyed h (lib.queue_poll p t env).1 ≡ destroyed h env

-- Whether no call reads the timeout before one sets it.
unfoldable pub sets_first : List Op → Bool
sets_first [] = true
sets_first (set_time t ∷ ops) = true
sets_first (take_one ∷ ops) = false
sets_first (take_event ∷ ops) = false
sets_first (take_batch n ∷ ops) = false
sets_first (forward d ∷ ops) = sets_first ops
sets_first (stop_forwarding ∷ ops) = sets_first ops
sets_first (take_one_in t ∷ ops) = sets_first ops
sets_first (take_event_in t ∷ ops) = sets_first ops
sets_first (take_batch_in n t ∷ ops) = sets_first ops

module _ (lib : Queues) where
  -- The state after a call whose result is not kept.
  abbrev after {ℓ} : {A : Type ℓ} → Queue → Option (A × lib.Env) → Option (Queue × lib.Env)
  after q none = none
  after q (some (a, env)) = some (q, env)

  abbrev in_state : Queue → Option lib.Env → Option (Queue × lib.Env)
  in_state q none = none
  in_state q (some env) = some (q, env)

  unfoldable pub step : Op → Queue → lib.Env → Option (Queue × lib.Env)
  unfolding set_timeout forward_to_queue disable_queue_forwarding consume_within consume
      consume_batch_within consume_batch next_event_within next_event batch_of
  step (set_time t) q env = some (set_timeout t q, env)
  step (forward d) q env = in_state q (forward_to_queue lib d q env)
  step stop_forwarding q env = in_state q (disable_queue_forwarding lib q env)
  step take_one q env = after q (consume lib q env)
  step take_event q env = after q (next_event lib q env)
  step (take_one_in t) q env = after q (consume_within lib t q env)
  step (take_event_in t) q env = after q (next_event_within lib t q env)
  step (take_batch n) q env = after q (consume_batch lib n q env)
  step (take_batch_in n t) q env = after q (consume_batch_within lib n t q env)

  -- The calls one after the other, then the destructor.
  unfoldable pub live : List Op → Option (Queue × lib.Env) → Option lib.Env
  unfolding step destroy
  live ops none = none
  live [] (some (q, env)) = some (destroy lib q env)
  live (op ∷ ops) (some (q, env)) = live ops (step op q env)

module _ (lib : Queues) (laws : QueuesLaws lib) where
  -- How often a queue was destroyed at the end, where there is one.
  abbrev pub times : ℕ → Option lib.Env → Option ℕ
  times h none = none
  times h (some env) = some (laws.destroyed h env)

  abbrev pub ends : Bool → Bool → ℕ → Option ℕ
  ends known owning n = if known then some (n + (if owning then 1 else 0)) else none

  abbrev queue : ℕ → Bool → Option ℤ → Queue
  queue h owning t = record { handle = some h; owning = owning; timeout_ms = t }

  always :
      (t : Option ℤ) (owning : Bool) (n : ℕ)
      → ends true owning n ≡ ends (is_some t || true) owning n
  always none owning n = refl
  always (some t) owning n = refl

  batch-env : (x : Option (List lib.RawMessage) × lib.Env) → (batch_of lib x).1 ≡ x.1
  unfolding batch_of
  batch-env (none, env) = ground arith
  batch-env (some ms, env) = refl

  batch-destroyed :
      (h n : ℕ) (t : ℤ) (env : lib.Env)
      → laws.destroyed h (batch_of lib (lib.consume_batch_queue h t n env)).1 ≡ laws.destroyed h env
  batch-destroyed h n t env =
      ap (laws.destroyed h) (batch-env (lib.consume_batch_queue h t n env))
      ∙ laws.batches h h n t env

  -- A queue with a handle, whatever its timeout.
  live-destroys :
      (ops : List Op) (h : ℕ) (owning : Bool) (t : Option ℤ) (env : lib.Env)
      → times h (live lib ops (some (queue h owning t, env)))
        ≡ ends (is_some t || sets_first ops) owning (laws.destroyed h env)
  unfolding live step destroy set_timeout forward_to_queue disable_queue_forwarding consume_within
      consume consume_batch_within consume_batch next_event_within next_event batch_of sets_first
  live-destroys [] h true t env = ground (arith, laws.destroys h env)
  live-destroys [] h false t env = ground arith
  live-destroys (set_time u ∷ ops) h owning t env =
      live-destroys ops h owning (some u) env ∙ always t owning (laws.destroyed h env)
  live-destroys (forward d ∷ ops) h owning t env =
      live-destroys ops h owning t _ ∙ ap (ends _ owning) (laws.forwards h h d.handle env)
  live-destroys (stop_forwarding ∷ ops) h owning t env =
      live-destroys ops h owning t _ ∙ ap (ends _ owning) (laws.forwards h h none env)
  live-destroys (take_one_in u ∷ ops) h owning t env =
      live-destroys ops h owning t _ ∙ ap (ends _ owning) (laws.consumes h h (as_int u) env)
  live-destroys (take_event_in u ∷ ops) h owning t env =
      live-destroys ops h owning t _ ∙ ap (ends _ owning) (laws.polls h h (as_int u) env)
  live-destroys (take_batch_in n u ∷ ops) h owning t env =
      live-destroys ops h owning t _ ∙ ap (ends _ owning) (batch-destroyed h n (as_int u) env)
  live-destroys (take_one ∷ ops) h owning none env = refl
  live-destroys (take_event ∷ ops) h owning none env = refl
  live-destroys (take_batch n ∷ ops) h owning none env = refl
  live-destroys (take_one ∷ ops) h owning (some u) env =
      live-destroys ops h owning (some u) _
      ∙ ap (ends true owning) (laws.consumes h h (as_int u) env)
  live-destroys (take_event ∷ ops) h owning (some u) env =
      live-destroys ops h owning (some u) _ ∙ ap (ends true owning) (laws.polls h h (as_int u) env)
  live-destroys (take_batch n ∷ ops) h owning (some u) env =
      live-destroys ops h owning (some u) _
      ∙ ap (ends true owning) (batch-destroyed h n (as_int u) env)

  -- A queue that `make_queue` makes of a handle, any calls on it, and its destructor: the handle is
  -- destroyed once by the versions of librdkafka that count references, and never by the others. In
  -- those others the timeout is not initialised: the calls are defined exactly where the first of
  -- them that uses it comes after one that sets it.
  pub life-destroys :
      (ops : List Op) (h : ℕ) (env : lib.Env)
      → times h (live lib ops (some (make_queue lib (some h), env)))
        ≡ ends
            (counts_references lib || sets_first ops)
            (counts_references lib)
            (laws.destroyed h env)
  unfolding make_queue of_handle make_non_owning
  life-destroys ops h env = elim (Bool-cases (counts_references lib)) [
    | inl e ↦ rw e (live-destroys ops h true (some default_timeout) env)
    | inr e ↦ rw e (live-destroys ops h false none env)
  ]
