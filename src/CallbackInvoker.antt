-- ===== src/CallbackInvoker.antt =====
-- `CallbackInvoker` of include/cppkafka/detail/callback_invoker.h: a callback is optional, and none
-- of its exceptions escapes.
use cppkafka.Prelude.{Bool, true, false, Option, none, some}

-- A `std::function` that may be empty; its result is `none` where it throws.
abbrev pub Callback {ℓ κ} : Type ℓ → Type κ → Type (ℓ ⊔ κ)
Callback A B = Option (A → Option B)

or_error_value {ℓ} : {B : Type ℓ} → B → Option B → B
or_error_value error_value none = error_value
or_error_value error_value (some b) = b

-- `operator()`: the error value of the result type where there is no callback or it throws.
unfoldable pub invoke {ℓ κ} : {A : Type ℓ} {B : Type κ} → B → Callback A B → A → B
unfolding or_error_value
invoke error_value none a = error_value
invoke error_value (some f) a = or_error_value error_value (f a)

-- `!callback || callback(a)` of a Boolean callback, whose error value is `false`.
unfoldable pub unset_or_true {ℓ} : {A : Type ℓ} → Callback A Bool → A → Bool
unfolding invoke
unset_or_true none a = true
unset_or_true (some f) a = invoke false (some f) a
