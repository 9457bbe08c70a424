-- ===== src/Configuration/Ints.antt =====
-- Integer options: `set` of an integer and `get<int>` of include/cppkafka/configuration_base.h, with
-- the parts of `std::stoi` and `std::to_string` that they rest on.
pub mod RoundTrip
use cppkafka.Prelude.{
  ℕ, zero, suc, ◌+◌, ◌-◌, ◌*◌, ◌/◌, ◌%◌, ◌^◌, ◌≤◌, ◌<◌, ◌≡◌, ◌∙◌, refl, sym, ap, Bool, true, false,
  ◌&&◌, ◌||◌, Option, none, some, List, [], ◌∷◌, arith, ltb, leb, ◌==◌, if◌then◌else◌, Bool-cases,
  inl, inr,
}
use cppkafka.Prelude.Int.{ℤ, pos, negsuc, ltb_ℤ}
use cppkafka.Prelude.Bytes.{Bytes, codes}
use cppkafka.Errors.{
  Result, ok, throw, invalid_config_option_type, decimal, decimal_loop, to_string,
}
use cppkafka.Configuration.{Conf, set_option, get_option}

-- `isspace` in the C locale.
is_space : ℕ → Bool
is_space c = c == 32 || leb 9 c && leb c 13

is_digit : ℕ → Bool
is_digit c = leb 48 c && leb c 57

skip_spaces : Bytes → Bytes
unfolding is_space
skip_spaces [] = []
skip_spaces (c ∷ s) = if is_space c then skip_spaces s else c ∷ s

-- The digits up to the first other byte, after those that gave `n`.
digits : ℕ → Bytes → ℕ
unfolding is_digit
digits n [] = n
digits n (c ∷ s) = if is_digit c then digits (n * 10 + (c - 48)) s else n

starts_with_digit : Bytes → Bool
unfolding is_digit
starts_with_digit [] = false
starts_with_digit (c ∷ s) = is_digit c

-- -n, as an integer.
negated : ℕ → ℤ
negated zero = pos 0
negated (suc n) = negsuc n

signed : Bool → Bytes → Option ℤ
unfolding negated starts_with_digit digits
signed negative s =
    if starts_with_digit s
    then some (if negative then negated (digits 0 s) else pos (digits 0 s))
    else none

after_sign : Bytes → Option ℤ
unfolding signed
after_sign [] = none
after_sign (c ∷ s) =
    if c == 45 then signed true s else if c == 43 then signed false s else signed false (c ∷ s)

-- Whether an integer is an `int`.
unfoldable pub fits_int : ℤ → Bool
fits_int (pos n) = ltb n (2 ^ 31)
fits_int (negsuc n) = ltb n (2 ^ 31)

-- `std::stoi`: `none` where it throws, for a text without a number in front or a number that is no
-- `int`.
unfoldable pub stoi : Bytes → Option ℤ
unfolding after_sign skip_spaces signed starts_with_digit digits is_digit is_space negated
stoi s = elim (after_sign (skip_spaces s)) [
  | none ↦ none
  | some z ↦ if fits_int z then some z else none
]

-- `convert` to `int`.
unfoldable pub to_int : Bytes → Result ℤ
to_int value = elim (stoi value) [
  | none ↦ throw (invalid_config_option_type value (codes "int"))
  | some z ↦ ok z
]

module _ (conf : Conf) where
  -- `set(name, value)` of an integer.
  unfoldable pub set_int : Bytes → ℤ → conf.Env → Result (Unit {0}) × conf.Env
  set_int name value = set_option conf name (to_string value)

  unfoldable pub as_int_option : Result Bytes → Result ℤ
  as_int_option (ok value) = to_int value
  as_int_option (throw e) = throw e

  -- `get<int>(name)`.
  unfoldable pub get_int : Bytes → conf.Env → Result ℤ
  unfolding as_int_option
  get_int name env = as_int_option (get_option conf name env)
