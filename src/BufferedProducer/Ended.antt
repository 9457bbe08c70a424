-- ===== src/BufferedProducer/Ended.antt =====
-- A synchronous send with retries comes to an end: `sync_produce` of
-- include/cppkafka/utils/buffered_producer.h, where librdkafka accepts every message.
use cppkafka.Prelude.{
  ℕ, zero, suc, ◌≤◌, ◌<◌, ◌≡◌, ◌∙◌, refl, sym, ap, Bool, true, false, not, Option, none, some,
  arith, length, get_elem?, any, is_some,
}
use cppkafka.Prelude.Int.{ℤ}
use cppkafka.MessageBuilder.{MessageBuilder, clone}
use cppkafka.BufferedProducer.{
  BufferedProducer, Tracker, sync, prepare_to_retry, retry_again, has_retries_left, update_tracker,
  add_tracker, size_of_int,
}
use cppkafka.BufferedProducer.Monad.{Outcome, done}
use cppkafka.BufferedProducer.Produce.{Kafka, State, infinite_timeout, accept}
use cppkafka.BufferedProducer.Flush.{
  Turn, check, leave, sync_turn, sync_settle, sync_check, asks_again, no_retries_left, sync_loop,
  sync_produce,
}
use cppkafka.BufferedProducer.Waiting.{
  Delivers, IsTracked, update-Kept, served_state, served-IsTracked, wait-served,
}
use cppkafka.BufferedProducer.Ordered.{accepted, produce-accepted, accepted-IsTracked}
use cppkafka.BufferedProducer.Deadlock.{get-update, get_elem?-append_last}
use cppkafka.BufferedProducer.Signals.{hits, IsFair, serve-IsFair}

update-monitor :
    {E : Type 0} (p : ℕ) (f : Tracker → Tracker) (s : BufferedProducer E)
    → (update_tracker p f s).ack_monitor ≡ s.ack_monitor
unfolding update_tracker
update-monitor p f s = ground arith

no_promise : is_some {A = Bool} none ≡ true → ⊥
no_promise h = cc

retry_again-promise : (t : Tracker) → t.sender ≡ sync → retry_again t ≡ t.retry_promise
unfolding retry_again
retry_again-promise t h = ground arith

prepared-IsFair : (t : Tracker) → t.sender ≡ sync → IsFair t.num_retries (prepare_to_retry t)
unfolding prepare_to_retry
prepared-IsFair t h = ground arith

module _ (kafka : Kafka) (laws : Delivers kafka)
    (reported : (b : MessageBuilder) (env : kafka.Env) (p : ℕ)
      → b.internal ≡ some p
      → any (λ m. hits m.internal p) (kafka.flush infinite_timeout (kafka.produce b env).1).0
        ≡ true) where
  update-IsTracked :
      (p : ℕ) (f : Tracker → Tracker) (s : State kafka)
      → IsTracked kafka laws true s
      → IsTracked kafka laws true (update_tracker p f s)
  update-IsTracked p f s v =
      let k = update-Kept p f s in
      record {
        setting = k.retries ∙ v.setting;
        counted = rw (update-monitor p f s) v.counted;
        covered = rw (update-monitor p f s, k.env) v.covered;
      }

  -- The state after a turn of the loop: all reports are served.
  after_turn : MessageBuilder → ℕ → State kafka → State kafka
  after_turn c p s =
      served_state kafka laws (accepted kafka laws (update_tracker p prepare_to_retry s) c)

  turn-checks :
      (fuel : ℕ) (b c : MessageBuilder) (p : ℕ) (throw_on_error : Bool) (s : State kafka)
      → IsTracked kafka laws true s
      → (sync_turn kafka (suc fuel) b c p throw_on_error s ≡ (check, after_turn c p s))
        × IsTracked kafka laws true (after_turn c p s)
  unfolding sync_turn sync_settle after_turn
  turn-checks fuel b c p throw_on_error s v =
      let s₀ = update_tracker p prepare_to_retry s in
      let w = accepted-IsTracked kafka laws c s₀ (update-IsTracked p prepare_to_retry s v) in
      (
        rw
            (
              produce-accepted kafka laws fuel c s₀,
              wait-served kafka laws fuel (accepted kafka laws s₀ c) w,
            )
            refl,
        (served-IsTracked kafka laws (accepted kafka laws s₀ c) w).0,
      )

  -- After a turn the promise is set, and where it asks for one more there are fewer retries left.
  turn-IsFair :
      (c : MessageBuilder) (p : ℕ) (s : State kafka) (t : Tracker)
      → IsTracked kafka laws true s
      → c.internal ≡ some p
      → get_elem? s.trackers p ≡ some t
      → t.sender ≡ sync
      → (t' : Tracker) × (get_elem? (after_turn c p s).trackers p ≡ some t')
        × IsFair t.num_retries t'
        × (is_some t'.retry_promise ≡ true)
  unfolding after_turn accepted accept
  turn-IsFair c p s t v mine here sender =
      let s₀ = update_tracker p prepare_to_retry s in
      let prepared = get-update p prepare_to_retry s t here in
      let (t', here', fair, set) =
        serve-IsFair p (kafka.flush infinite_timeout (kafka.produce c s₀.env).1).0 _ t.num_retries
          (prepare_to_retry t) ((update-Kept p prepare_to_retry s).retries ∙ v.setting) prepared
          (prepared-IsFair t sender) in
      (t', here', fair, set (rw (reported c s₀.env p mine) refl))

  -- The loop ends: the last report asks for no more, and the value is whether no retries are left.
  abbrev pub EndsWithin : ℕ → ℕ → Outcome Bool × State kafka → Type 0
  EndsWithin p n r =
      (t : Tracker) × (get_elem? r.1.trackers p ≡ some t)
      × (t.num_retries ≤ n)
      × (t.retry_promise ≡ some false)
      × (r.0 ≡ done (not (has_retries_left t)))

  check-EndsWithin :
      (o : Option Bool) (n p : ℕ) (end_time : ℤ) (s : State kafka)
      (again : Outcome Bool × State kafka)
      → is_some o ≡ true
      → (o ≡ some true → EndsWithin p n again)
      → (o ≡ some false → EndsWithin p n (done (no_retries_left kafka p s), s))
      → EndsWithin p n (sync_check kafka o infinite_timeout end_time p s again)
  unfolding sync_check
  check-EndsWithin none n p end_time s again set more over = absurd (no_promise set)
  check-EndsWithin (some false) n p end_time s again set more over = over refl
  check-EndsWithin (some true) n p end_time s again set more over = more refl

  asks_again-promise :
      (p : ℕ) (s : State kafka) (t : Tracker)
      → get_elem? s.trackers p ≡ some t
      → t.sender ≡ sync
      → asks_again kafka p s ≡ t.retry_promise
  unfolding asks_again
  asks_again-promise p s t here sender = rw (here, asks_again) (retry_again-promise t sender)

  over-EndsWithin :
      (p n : ℕ) (s : State kafka) (t : Tracker)
      → get_elem? s.trackers p ≡ some t
      → t.num_retries ≤ n
      → t.retry_promise ≡ some false
      → EndsWithin p n (done (no_retries_left kafka p s), s)
  unfolding no_retries_left
  over-EndsWithin p n s t here le last = (t, here, le, last, rw (here, no_retries_left) refl)

  -- What follows a turn.
  after :
      ℕ
      → ℕ
      → MessageBuilder
      → MessageBuilder
      → ℕ
      → ℤ
      → Bool
      → Turn kafka × State kafka
      → Outcome Bool × State kafka
  after k fuel b c p end_time throw_on_error (turn, s) = elim turn [
    | leave r ↦ (r, s)
    | check ↦
        sync_check kafka (asks_again kafka p s) infinite_timeout end_time p s
          (sync_loop kafka k fuel b c p infinite_timeout end_time throw_on_error s)
  ]

  loop-after :
      (k fuel : ℕ) (b c : MessageBuilder) (p : ℕ) (end_time : ℤ) (throw_on_error : Bool)
      (s s₁ : State kafka)
      → sync_turn kafka fuel b c p throw_on_error s ≡ (check, s₁)
      → sync_loop kafka (suc k) fuel b c p infinite_timeout end_time throw_on_error s
        ≡ sync_check kafka
            (asks_again kafka p s₁)
            infinite_timeout
            end_time
            p
            s₁
            (sync_loop kafka k fuel b c p infinite_timeout end_time throw_on_error s₁)
  unfolding sync_loop after
  loop-after k fuel b c p end_time throw_on_error s s₁ h =
      ap (after k fuel b c p end_time throw_on_error) h

  -- One turn, given what the loop does after it.
  turn-EndsWithin :
      (k fuel : ℕ) (b c : MessageBuilder) (p : ℕ) (end_time : ℤ) (throw_on_error : Bool)
      (s : State kafka) (t : Tracker)
      → IsTracked kafka laws true s
      → c.internal ≡ some p
      → get_elem? s.trackers p ≡ some t
      → t.sender ≡ sync
      → ((t' : Tracker)
          → get_elem? (after_turn c p s).trackers p ≡ some t'
          → t'.sender ≡ sync
          → t'.num_retries < t.num_retries
          → EndsWithin p t.num_retries (
              sync_loop kafka k
                (suc fuel)
                b
                c
                p
                infinite_timeout
                end_time
                throw_on_error
                (after_turn c p s)))
      → EndsWithin p t.num_retries
          (sync_loop kafka (suc k) (suc fuel) b c p infinite_timeout end_time throw_on_error s)
  turn-EndsWithin k fuel b c p end_time throw_on_error s t v mine here sender next =
      let (turn, w) = turn-checks fuel b c p throw_on_error s v in
      let (t', here', (sender', le, fewer), set) = turn-IsFair c p s t v mine here sender in
      let asks = asks_again-promise p (after_turn c p s) t' here' sender' in
      rw (loop-after k (suc fuel) b c p end_time throw_on_error s (after_turn c p s) turn) (
        check-EndsWithin _ t.num_retries p end_time _ _ (ap is_some asks ∙ set)
          (λ more. next t' here' sender' (fewer (sym asks ∙ more)))
          (λ last. over-EndsWithin p t.num_retries _ t' here' le (sym asks ∙ last)))

  loop-EndsWithin :
      (k fuel : ℕ) (b c : MessageBuilder) (p : ℕ) (end_time : ℤ) (throw_on_error : Bool)
      (s : State kafka) (t : Tracker)
      → IsTracked kafka laws true s
      → c.internal ≡ some p
      → get_elem? s.trackers p ≡ some t
      → t.sender ≡ sync
      → t.num_retries ≤ k
      → EndsWithin p t.num_retries
          (sync_loop kafka (suc k) (suc fuel) b c p infinite_timeout end_time throw_on_error s)
  loop-EndsWithin zero fuel b c p end_time throw_on_error s t v mine here sender enough =
      turn-EndsWithin zero fuel b c p end_time throw_on_error s t v mine here sender
        (λ t' here' sender' fewer. absurd (omega (arith, enough, fewer)))
  loop-EndsWithin (suc k) fuel b c p end_time throw_on_error s t v mine here sender enough =
      turn-EndsWithin (suc k) fuel b c p end_time throw_on_error s t v mine here sender
        (λ t' here' sender' fewer.
          let (u, found, le, last, value) =
            loop-EndsWithin k fuel b c p end_time throw_on_error (after_turn c p s) t'
              (turn-checks fuel b c p throw_on_error s v).1 mine here' sender'
              (omega (arith, enough, fewer)) in
          (u, found, omega (arith, le, fewer), last, value))

  -- Where retries are on, the builder carries no tracker, librdkafka accepts every message, and each
  -- flush of it without a timeout serves the reports of all that is outstanding, among them that of
  -- the message just sent: whatever the reports say and the callbacks decide, a synchronous send
  -- without a timeout ends by itself, with one unit of fuel for each retry that is allowed and one
  -- for the first attempt. The last report of the message asks for no more attempts, and the value is
  -- whether the tracker of the message, which never has more retries than are allowed, has none left.
  pub sync_produce-ends :
      (fuel : ℕ) (b : MessageBuilder) (throw_on_error : Bool) (s : State kafka)
      → IsTracked kafka laws true s
      → b.internal ≡ none
      → size_of_int s.max_number_retries ≤ fuel
      → EndsWithin
          (length s.trackers)
          (size_of_int s.max_number_retries)
          (sync_produce kafka (suc fuel) b infinite_timeout throw_on_error s)
  unfolding sync_produce add_tracker clone
  sync_produce-ends fuel b throw_on_error s v fresh enough =
      rw (v.setting, fresh)
        (loop-EndsWithin fuel fuel _ _ (length s.trackers) _ throw_on_error _ _
          (record { setting = v.setting; counted = v.counted; covered = v.covered }) refl
          (get_elem?-append_last s.trackers _) refl enough)
