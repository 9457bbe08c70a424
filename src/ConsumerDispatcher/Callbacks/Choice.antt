-- ===== src/ConsumerDispatcher/Callbacks/Choice.antt =====
-- The callbacks that are chosen are the first that fit
-- (include/cppkafka/utils/consumer_dispatcher.h).
use mathlib.Core.Option
use mathlib.Core.Option.{some-injective}
use cppkafka.Prelude.{
  ℕ, ◌≡◌, ◌∙◌, refl, sym, ap, Bool, true, false, ◌&&◌, Option, none, some, List, [], ◌∷◌, ◌++◌,
  arith, ◌==◌, if◌then◌else◌, Bool-cases, Option-cases, inl, inr, ==_iff, any,
}
use cppkafka.ConsumerDispatcher.Callbacks.{
  Arguments, on_message, on_error, on_eof, on_timeout, on_event, on_throttle, Returns, returns_void,
  returns_message, returns_other, choose_throttler, Functor, types_of, Defaults, Handlers,
  find_type, find_functor, ◌>>=◌, find_matching_functor, found_in, check_callback_matches,
  check_callbacks_match, choose, select,
}

bind-some : {A B : Type 0} (f : A → B) (o : Option A) → (o >>= λ a. some (f a)) ≡ Option.map f o
bind-some f none = refl
bind-some f (some a) = refl

module _ (takes : ℕ → Arguments → Bool) where
  -- The first functor that accepts the arguments, or another.
  abbrev pub first_or : Functor → Arguments → List Functor → Functor
  first_or d a [] = d
  first_or d a (f ∷ fs) = if takes f.type a then f else first_or d a fs

  abbrev pub first : Arguments → List Functor → Option Functor
  first a [] = none
  first a (f ∷ fs) = if takes f.type a then some f else first a fs

  find_type-accepts :
      (a : Arguments) (ts : List ℕ) (t : ℕ) → find_type takes a ts ≡ some t → takes t a ≡ true
  unfolding find_type
  find_type-accepts a [] t found = cc
  find_type-accepts a (u ∷ ts) t found = elim (Bool-cases (takes u a)) [
    | inl e ↦ let same : u ≡ t = some-injective _ _ (sym (rw e refl) ∙ found) in rw (← same) e
    | inr e ↦ find_type-accepts a ts t (sym (rw e refl) ∙ found)
  ]

  -- Functors of one type accept the same, so the first of the type is the first that accepts.
  find_functor-skips :
      (a : Arguments) (f : Functor) (fs : List Functor) (t : ℕ)
      → takes f.type a ≡ false
      → takes t a ≡ true
      → find_functor t (f ∷ fs) ≡ find_functor t fs
  unfolding find_functor
  find_functor-skips a f fs t e found = elim (Bool-cases (f.type == t)) [
    | inl same ↦ let both : true ≡ false = sym found ∙ rw (← (==_iff f.type t).0 same) e in cc
    | inr differs ↦ rw differs refl
  ]

  find_matching-first :
      (a : Arguments) (fs : List Functor) → find_matching_functor takes a fs ≡ first a fs
  unfolding find_matching_functor find_type find_functor
  find_matching-first a [] = refl
  find_matching-first a (f ∷ fs) = elim (Bool-cases (takes f.type a)) [
    | inl e ↦ ground (arith, e)
    | inr e ↦ elim (Option-cases (find_type takes a (types_of fs))) [
      | inl n ↦ ground (arith, find_matching-first a fs)
      | inr (t, found) ↦ ground (
        arith,
        find_matching-first a fs,
        find_functor-skips a f fs t e (find_type-accepts a (types_of fs) t found),
      )
    ]
  ]

  first-last :
      (a : Arguments) (fs : List Functor) (d : Functor)
      → takes d.type a ≡ true
      → first a (fs ++ d ∷ []) ≡ some (first_or d a fs)
  first-last a [] d h = rw h refl
  first-last a (f ∷ fs) d h = ground (arith, first-last a fs d h)

  matching-default :
      (a : Arguments) (fs : List Functor) (d : Functor)
      → takes d.type a ≡ true
      → find_matching_functor takes a (fs ++ d ∷ []) ≡ some (first_or d a fs)
  matching-default a fs d h = find_matching-first a (fs ++ d ∷ []) ∙ first-last a fs d h

  -- Whether a functor accepts the arguments of any callback but the throttler.
  abbrev pub is_callback : Functor → Bool
  is_callback f = any (takes f.type) (on_message ∷ on_eof ∷ on_timeout ∷ on_error ∷ on_event ∷ [])

  abbrev pub all_callbacks : List Functor → Bool
  all_callbacks [] = true
  all_callbacks (f ∷ fs) = is_callback f && all_callbacks fs

  found_in-takes : (a : Arguments) (f : Functor) → found_in takes a f ≡ takes f.type a
  unfolding found_in find_type
  found_in-takes a f = ground arith

  check-all : (fs : List Functor) → check_callbacks_match takes fs ≡ all_callbacks fs
  unfolding check_callbacks_match check_callback_matches
  check-all [] = refl
  check-all (f ∷ fs) =
      rw
        (
          check-all fs,
          found_in-takes on_message f,
          found_in-takes on_eof f,
          found_in-takes on_timeout f,
          found_in-takes on_error f,
          found_in-takes on_event f,
          check_callback_matches,
        )
        (ground arith)

  -- The functors of the class accept what they are for.
  pub record Fits (d : Defaults) : Type 0 where
    pub error : takes d.handle_error.type on_error ≡ true
    pub eof : takes d.handle_eof.type on_eof ≡ true
    pub timeout : takes d.handle_timeout.type on_timeout ≡ true
    pub event : takes d.handle_event.type on_event ≡ true
    pub throttler : (t : ℕ) → takes (d.default_throttler t).type (on_throttle t) ≡ true

  abbrev pub handlers : Defaults → List Functor → Functor → Option Functor → Handlers
  handlers d fs message throttler = record {
    message = message;
    error = first_or d.handle_error on_error fs;
    eof = first_or d.handle_eof on_eof fs;
    timeout = first_or d.handle_timeout on_timeout fs;
    event = first_or d.handle_event on_event fs;
    throttler = throttler;
  }

  -- The throttler for a message callback, where it returns nothing or a message.
  abbrev pub throttler_for : Returns → ℕ → Defaults → List Functor → Option (Option Functor)
  throttler_for returns_void t d fs = some none
  throttler_for returns_message t d fs =
      some (some (first_or (d.default_throttler t) (on_throttle t) fs))
  throttler_for returns_other t d fs = none

  throttler-first :
      (r : Returns) (t : ℕ) (d : Defaults) (fs : List Functor)
      → Fits d
      → choose_throttler takes r t d fs ≡ throttler_for r t d fs
  unfolding choose_throttler
  throttler-first returns_void t d fs fit = refl
  throttler-first returns_message t d fs fit =
      rw (matching-default (on_throttle t) fs (d.default_throttler t) (fit.throttler t)) refl
  throttler-first returns_other t d fs fit = refl

  module _ (result_of : ℕ → Returns) where
    -- The handlers for a message callback.
    abbrev pub with_message : Defaults → List Functor → Functor → Option Handlers
    with_message d fs message =
        Option.map (handlers d fs message)
          (throttler_for (result_of message.type) message.type d fs)

    abbrev pub first_handlers : Defaults → List Functor → Option Handlers
    first_handlers d fs = first on_message fs >>= with_message d fs

    -- The checks and the choices of `run` and `process_message` are satisfied exactly for functors of
    -- which each accepts the arguments of a callback other than the throttler, one accepts a message,
    -- and the first that does returns nothing or a message. Then each callback is the first functor
    -- that accepts its arguments, and where none does that of the class; so is the throttler of a
    -- message callback that returns a message. A throttler, which the class looks for among the
    -- functors, is so refused unless it is also some other callback.
    pub select-first :
        (d : Defaults) (fs : List Functor)
        → Fits d
        → select takes result_of d fs ≡ (if all_callbacks fs then first_handlers d fs else none)
    unfolding select choose
    select-first d fs fit = elim (Option-cases (first on_message fs)) [
      | inl e ↦ rw (check-all fs, find_matching-first on_message fs, e, choose) refl
      | inr (message, e) ↦
          rw
            (
              check-all fs,
              find_matching-first on_message fs,
              e,
              matching-default on_error fs d.handle_error fit.error,
              matching-default on_eof fs d.handle_eof fit.eof,
              matching-default on_timeout fs d.handle_timeout fit.timeout,
              matching-default on_event fs d.handle_event fit.event,
              throttler-first (result_of message.type) message.type d fs fit,
              choose,
            )
            (ap (λ (o : Option Handlers). if all_callbacks fs then o else none)
              (bind-some (handlers d fs message)
                (throttler_for (result_of message.type) message.type d fs)))
    ]
