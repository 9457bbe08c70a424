-- ===== src/BufferedProducer/Signals.antt =====
-- What delivery reports do to one tracker: `on_delivery_report` of
-- include/cppkafka/utils/buffered_producer.h.
use mathlib.Core.Option.{some-injective}
use cppkafka.Prelude.{
  ℕ, zero, suc, ◌≤◌, ◌<◌, ◌≡◌, ◌∙◌, refl, sym, Bool, true, false, ◌||◌, Option, none, some, List,
  [], ◌∷◌, arith, ◌==◌, if◌then◌else◌, get_elem?, set, any, is_some, Bool-cases, inl, inr,
  Option-cases, ==_iff, ap,
}
use cppkafka.Errors.{is_error}
use cppkafka.Message.{Message}
use cppkafka.BufferedProducer.{
  BufferedProducer, Tracker, sync, should_retry, decrement_retries, has_retries_left,
  update_tracker, enqueue, may_retry,
}
use cppkafka.BufferedProducer.Report.{
  retry_message, drop_message, deliver_message, tracker_of, wants_retry, signal, settle,
  on_delivery_report, serve,
}
use cppkafka.BufferedProducer.Waiting.{report-Kept}

-- Whether a pointer is to this tracker.
abbrev pub hits : Option ℕ → ℕ → Bool
hits none p = false
hits (some q) p = q == p

get_elem?-set :
    {A : Type 0} (f : A → A) (xs : List A) (q p : ℕ) (w t : A)
    → get_elem? xs q ≡ some w
    → get_elem? xs p ≡ some t
    → get_elem? (set xs q (f w)) p ≡ some (if q == p then f t else t)
get_elem?-set f [] q p w t h k = cc
get_elem?-set f (x ∷ xs) zero zero w t h k =
    ap (λ u. some (f u)) (sym (some-injective _ _ h) ∙ some-injective _ _ k)
get_elem?-set f (x ∷ xs) zero (suc p) w t h k = ground (arith, k)
get_elem?-set f (x ∷ xs) (suc q) zero w t h k = ground (arith, k)
get_elem?-set f (x ∷ xs) (suc q) (suc p) w t h k = ground (arith, get_elem?-set f xs q p w t h k)

absent :
    {A : Type 0} (xs : List A) (q p : ℕ) (t : A)
    → get_elem? xs q ≡ none
    → get_elem? xs p ≡ some t
    → (q == p) ≡ false
absent [] q p t h k = cc
absent (x ∷ xs) zero p t h k = cc
absent (x ∷ xs) (suc q) zero t h k = ground arith
absent (x ∷ xs) (suc q) (suc p) t h k = ground (arith, absent xs q p t h k)

-- A report of a message that a tracker belongs to, and that is or is not to be retried.
unfoldable pub after_report : Bool → Bool → Tracker → Tracker
after_report false wants t = t
after_report true false t = should_retry false t
after_report true true t = should_retry true (decrement_retries t)

-- A tracker of a synchronous sender with at most `n` retries, and fewer where it asks for one more
-- attempt.
abbrev pub IsFair : ℕ → Tracker → Type 0
IsFair n t =
    (t.sender ≡ sync) × (t.num_retries ≤ n) × (t.retry_promise ≡ some true → t.num_retries < n)

after_report-IsFair :
    (hit wants : Bool) (n : ℕ) (t : Tracker)
    → (hit ≡ true → wants ≡ true → has_retries_left t ≡ true)
    → IsFair n t
    → IsFair n (after_report hit wants t)
      × ((hit || is_some t.retry_promise) ≡ true
          → is_some (after_report hit wants t).retry_promise ≡ true)
unfolding after_report should_retry decrement_retries has_retries_left
after_report-IsFair false wants n t left fair = (fair, λ h. h)
after_report-IsFair true false n t left fair = ground (arith, fair)
after_report-IsFair true true n t left fair = ground (arith, fair, left refl refl)

wants-failed :
    {E : Type 0} (m : Message) (s : BufferedProducer E)
    → wants_retry m s ≡ true
    → is_error m.error ≡ true
unfolding wants_retry
wants-failed m s h = ground arith

after-cases :
    (hit wants : Bool) (t : Tracker)
    → some (
        if hit
        then should_retry wants (if hit then (if wants then decrement_retries t else t) else t)
        else (if hit then (if wants then decrement_retries t else t) else t))
      ≡ some (after_report hit wants t)
unfolding after_report
after-cases false wants t = refl
after-cases true false t = refl
after-cases true true t = refl

wants-allowed :
    {E : Type 0} (m : Message) (s : BufferedProducer E)
    → wants_retry m s ≡ true
    → may_retry (tracker_of m s) s ≡ true
unfolding wants_retry
wants-allowed m s h = ground arith

set-later :
    (hit hit' a b c : Bool)
    → hit ≡ hit'
    → ((hit || b) ≡ true → c ≡ true)
    → ((hit' || a) || b) ≡ true
    → (a || c) ≡ true
set-later true hit' a b c e h k = ground (arith, h refl)
set-later false hit' a b c e h k = ground (arith, h, e)

module _ {E : Type 0} (p : ℕ) where
  get-update :
      (q : ℕ) (f : Tracker → Tracker) (s : BufferedProducer E) (t : Tracker)
      → get_elem? s.trackers p ≡ some t
      → get_elem? (update_tracker q f s).trackers p ≡ some (if q == p then f t else t)
  unfolding update_tracker
  get-update q f s t h = elim (Option-cases (get_elem? s.trackers q)) [
    | inl e ↦ rw (e, update_tracker, absent s.trackers q p t e h) h
    | inr (w, e) ↦ rw (e, update_tracker) (get_elem?-set f s.trackers q p w t e h)
  ]

  get-signal :
      (o : Option ℕ) (v : Bool) (s : BufferedProducer E) (t : Tracker)
      → get_elem? s.trackers p ≡ some t
      → get_elem? (signal o v s).trackers p ≡ some (if hits o p then should_retry v t else t)
  unfolding signal
  get-signal none v s t h = h
  get-signal (some q) v s t h = get-update q (should_retry v) s t h

  get-retry :
      (o : Option ℕ) (m : Message) (s : BufferedProducer E) (t : Tracker)
      → get_elem? s.trackers p ≡ some t
      → get_elem? (retry_message o m s).trackers p
        ≡ some (if hits o p then decrement_retries t else t)
  unfolding retry_message enqueue
  get-retry none m s t h = h
  get-retry (some q) m s t h = ground (arith, get-update q decrement_retries s t h)

  get-settle :
      (m : Message) (s : BufferedProducer E) (t : Tracker)
      → get_elem? s.trackers p ≡ some t
      → get_elem? (settle m s).trackers p
        ≡ some (
            if hits (tracker_of m s) p
            then (if wants_retry m s then decrement_retries t else t)
            else t)
  unfolding settle drop_message deliver_message
  get-settle m s t h = elim (Bool-cases (wants_retry m s)) [
    | inl w ↦ rw (wants-failed m s w, w) (get-retry (tracker_of m s) m s t h)
    | inr w ↦ rw w (ground (arith, h))
  ]

  get-report :
      (m : Message) (s : BufferedProducer E) (t : Tracker)
      → get_elem? s.trackers p ≡ some t
      → get_elem? (on_delivery_report m s).trackers p
        ≡ some (after_report (hits (tracker_of m s) p) (wants_retry m s) t)
  unfolding on_delivery_report after_report
  get-report m s t h =
      get-signal (tracker_of m s) (wants_retry m s) (settle m s) _ (get-settle m s t h)
      ∙ after-cases (hits (tracker_of m s) p) (wants_retry m s) t

  may-left :
      (o : Option ℕ) (s : BufferedProducer E) (t : Tracker)
      → get_elem? s.trackers p ≡ some t
      → hits o p ≡ true
      → may_retry o s ≡ true
      → has_retries_left t ≡ true
  unfolding may_retry
  may-left none s t h hit may = cc
  may-left (some q) s t h hit may =
      let here : get_elem? s.trackers q ≡ some t =
        ap (get_elem? s.trackers) ((==_iff q p).0 hit) ∙ h in
      ground (arith, here)

  wants-left :
      (m : Message) (s : BufferedProducer E) (t : Tracker)
      → get_elem? s.trackers p ≡ some t
      → hits (tracker_of m s) p ≡ true
      → wants_retry m s ≡ true
      → has_retries_left t ≡ true
  wants-left m s t h hit wants = may-left (tracker_of m s) s t h hit (wants-allowed m s wants)

  tracker_hits :
      (m : Message) (s : BufferedProducer E)
      → s.enable_message_retries ≡ true
      → hits (tracker_of m s) p ≡ hits m.internal p
  tracker_hits m s on = rw on refl

  -- Any reports leave a fair tracker fair, and one of them that points to it sets its promise.
  pub serve-IsFair :
      (ms : List Message) (s : BufferedProducer E) (n : ℕ) (t : Tracker)
      → s.enable_message_retries ≡ true
      → get_elem? s.trackers p ≡ some t
      → IsFair n t
      → (t' : Tracker) × (get_elem? (serve ms s).trackers p ≡ some t')
        × IsFair n t'
        × ((any (λ m. hits m.internal p) ms || is_some t.retry_promise) ≡ true
            → is_some t'.retry_promise ≡ true)
  unfolding serve
  serve-IsFair [] s n t on h fair = (t, h, fair, λ k. k)
  serve-IsFair (m ∷ ms) s n t on h fair =
      let hit = hits (tracker_of m s) p in
      let wants = wants_retry m s in
      let (fair', set') = after_report-IsFair hit wants n t (λ a b. wants-left m s t h a b) fair in
      let (t', here, fair'', set'') =
        serve-IsFair ms (on_delivery_report m s) n (after_report hit wants t)
          ((report-Kept m s).retries ∙ on) (get-report m s t h) fair' in
      (t', here, fair'', λ k. set'' (set-later hit _ _ _ _ (tracker_hits m s on) set' k))
