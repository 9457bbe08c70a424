-- ===== src/ConsumerDispatcher/Callbacks.antt =====
-- Which callback of those given to `run` handles what: the templates of
-- include/cppkafka/utils/consumer_dispatcher.h, which the compiler evaluates. A `static_assert` that
-- fails, or a call with no candidate, is `none`. Functors can be called as constants.
pub mod Choice
mod Tests
use cppkafka.Prelude.{
  ℕ, Bool, true, false, ◌&&◌, ◌||◌, Option, none, some, List, [], ◌∷◌, ◌++◌, ◌==◌, if◌then◌else◌,
  is_some,
}

-- `OnMessageArgs` and the other tuples of argument types; that of the throttler has the type of the
-- message callback.
pub data Arguments : Type 0 where
  on_message on_error on_eof on_timeout on_event : Arguments
  on_throttle : ℕ → Arguments

-- What a functor returns for a message.
pub data Returns : Type 0 where
  returns_void returns_message returns_other : Returns

-- A functor: its type, and which one of the functors it is. Types are numbers.
pub record Functor : Type 0 where
  pub type : ℕ
  pub value : ℕ

abbrev pub types_of : List Functor → List ℕ
types_of [] = []
types_of (f ∷ fs) = f.type ∷ types_of fs

-- The functors of the class: `handle_error`, `handle_eof`, `handle_timeout` and `handle_event`, and
-- the throttler that `process_message` binds for a type of message callbacks.
pub record Defaults : Type 0 where
  pub handle_error : Functor
  pub handle_eof : Functor
  pub handle_timeout : Functor
  pub handle_event : Functor
  pub default_throttler : ℕ → Functor

-- What `run` calls; a message callback that returns nothing has no throttler.
pub record Handlers : Type 0 where
  pub message : Functor
  pub error : Functor
  pub eof : Functor
  pub timeout : Functor
  pub event : Functor
  pub throttler : Option Functor

infixl 5 ◌>>=◌
abbrev pub ◌>>=◌ {ℓ} : {A : Type 0} {B : Type ℓ} → Option A → (A → Option B) → Option B
none >>= f = none
some a >>= f = f a

-- `find_functor`: the first functor of a type.
unfoldable pub find_functor : ℕ → List Functor → Option Functor
find_functor t [] = none
find_functor t (f ∷ fs) = if f.type == t then some f else find_functor t fs

-- `takes_arguments`: whether a type of functors accepts arguments.
module _ (takes_arguments : ℕ → Arguments → Bool) where
  -- `find_type`: the first type that accepts the arguments, or `type_not_found`.
  unfoldable pub find_type : Arguments → List ℕ → Option ℕ
  find_type a [] = none
  find_type a (t ∷ ts) = if takes_arguments t a then some t else find_type a ts

  -- `find_matching_functor`.
  unfoldable pub find_matching_functor : Arguments → List Functor → Option Functor
  unfolding find_type find_functor
  find_matching_functor a fs = elim (find_type a (types_of fs)) [
    | none ↦ none
    | some t ↦ find_functor t fs
  ]

  found_in : Arguments → Functor → Bool
  found_in a f = is_some (find_type a (f.type ∷ []))

  -- `check_callback_matches`.
  unfoldable pub check_callback_matches : Functor → Bool
  unfolding found_in find_type
  check_callback_matches f =
      found_in on_message f
      || (found_in on_eof f
          || (found_in on_timeout f || (found_in on_error f || found_in on_event f)))

  -- `check_callbacks_match`.
  unfoldable pub check_callbacks_match : List Functor → Bool
  unfolding check_callback_matches
  check_callbacks_match [] = true
  check_callbacks_match (f ∷ fs) = check_callback_matches f && check_callbacks_match fs

  -- The two overloads of `process_message`, for what the message callback, of a type, returns: their
  -- throttler.
  unfoldable pub choose_throttler : Returns → ℕ → Defaults → List Functor → Option (Option Functor)
  unfolding find_matching_functor
  choose_throttler returns_void t d fs = some none
  choose_throttler returns_message t d fs = do
    throttler ← find_matching_functor (on_throttle t) (fs ++ d.default_throttler t ∷ [])
    some (some throttler)
  choose_throttler returns_other t d fs = none

  -- `result_of`: what a type of functors returns for a message.
  module _ (result_of : ℕ → Returns) where
    -- The choices at the start of `run` and in `process_message`.
    unfoldable pub choose : Defaults → List Functor → Option Handlers
    unfolding find_matching_functor choose_throttler
    choose d fs = do
      message ← find_matching_functor on_message fs
      error ← find_matching_functor on_error (fs ++ d.handle_error ∷ [])
      eof ← find_matching_functor on_eof (fs ++ d.handle_eof ∷ [])
      timeout ← find_matching_functor on_timeout (fs ++ d.handle_timeout ∷ [])
      event ← find_matching_functor on_event (fs ++ d.handle_event ∷ [])
      throttler ← choose_throttler (result_of message.type) message.type d fs
      some (record {
        message = message;
        error = error;
        eof = eof;
        timeout = timeout;
        event = event;
        throttler = throttler;
      })

    unfoldable pub select : Defaults → List Functor → Option Handlers
    unfolding choose check_callbacks_match
    select d fs = if check_callbacks_match fs then choose d fs else none
