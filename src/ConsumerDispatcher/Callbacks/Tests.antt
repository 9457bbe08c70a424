-- ===== src/ConsumerDispatcher/Callbacks/Tests.antt =====
-- Choices among concrete callbacks.
use cppkafka.Prelude.{ℕ, ◌≡◌, refl, Bool, ◌||◌, none, List, [], ◌∷◌, ◌==◌, if◌then◌else◌}
use cppkafka.ConsumerDispatcher.Callbacks.{
  Arguments, on_message, on_error, on_eof, on_timeout, on_event, on_throttle, Returns,
  returns_message, returns_other, Functor, Defaults, select, choose, choose_throttler,
  find_matching_functor, find_functor, check_callbacks_match, find_type,
}
use cppkafka.ConsumerDispatcher.Callbacks.Choice.{Fits, first_handlers, all_callbacks, select-first}

-- Type 0 handles messages, 1 errors, 2 throttles, and 10 to 14 are those of the class.
abbrev takes : ℕ → Arguments → Bool
takes t a = elim a [
  | on_message ↦ t == 0 || t == 3
  | on_error ↦ t == 1 || t == 10
  | on_eof ↦ t == 11
  | on_timeout ↦ t == 12
  | on_event ↦ t == 13
  | on_throttle u ↦ t == 2 || t == 14
]

-- Type 0 returns a message, type 3, which handles messages too, a Boolean.
abbrev result : ℕ → Returns
result t = if t == 3 then returns_other else returns_message

abbrev of_class : Defaults
of_class = record {
  handle_error = record { type = 10; value = 10 };
  handle_eof = record { type = 11; value = 11 };
  handle_timeout = record { type = 12; value = 12 };
  handle_event = record { type = 13; value = 13 };
  default_throttler = λ t. record { type = 14; value = 14 };
}

-- Two functors of one type, and one for errors.
abbrev given : List Functor
given =
    record { type = 0; value = 0 }
    ∷ record { type = 0; value = 1 }
    ∷ record { type = 1; value = 2 }
    ∷ []

-- A throttler is refused.
with_throttler :
    select takes result of_class
      (record { type = 0; value = 0 } ∷ record { type = 2; value = 1 } ∷ [])
    ≡ none
unfolding select check_callbacks_match find_type
with_throttler = refl

of_class-Fits : Fits takes of_class
of_class-Fits = record {
  error = refl;
  eof = refl;
  timeout = refl;
  event = refl;
  throttler = λ t. refl;
}

-- A message callback that returns a Boolean is refused.
with_boolean : select takes result of_class (record { type = 3; value = 0 } ∷ []) ≡ none
unfolding select choose choose_throttler find_matching_functor find_functor check_callbacks_match
    find_type
with_boolean = refl

select-first_example :
    select takes result of_class given
    ≡ (if all_callbacks takes given then first_handlers takes result of_class given else none)
select-first_example = select-first takes result of_class given of_class-Fits
