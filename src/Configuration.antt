-- ===== src/Configuration.antt =====
-- Options by name and text: include/cppkafka/configuration_base.h, src/configuration.cpp and
-- src/topic_configuration.cpp. librdkafka's configuration object is a parameter.
pub mod Options
pub mod Ints
pub mod Callbacks
mod Tests
use cppkafka.Prelude.{Bool, true, false, Option, none, some, List, [], ◌∷◌, if◌then◌else◌, is_some}
use cppkafka.Prelude.Bytes.{Bytes, codes, bytes_eq, bytes_lt}
use cppkafka.Prelude.OrderedMap.{OrderedMap, assign}
use cppkafka.Errors.{
  Result, ok, throw, config_exception, config_option_not_found, invalid_config_option_type,
}

-- The calls of librdkafka: setting an option gives an error text where it is refused.
pub record Conf : Type 1 where
  pub Env : Type 0
  pub conf_set : Bytes → Bytes → Env → Option Bytes × Env
  pub conf_get : Bytes → Env → Option Bytes
  pub conf_dump : Env → List Bytes

-- The text of a `bool`.
abbrev pub text_of : Bool → Bytes
text_of true = codes "true"
text_of false = codes "false"

-- `convert` to `bool`.
unfoldable pub to_bool : Bytes → Result Bool
to_bool value =
    if bytes_eq value (codes "true")
    then ok true
    else if bytes_eq value (codes "false")
    then ok false
    else throw (invalid_config_option_type value (codes "bool"))

-- `parse_dump`: keys and values in turn; `none` where it reads past the end of the values.
unfoldable pub parse_dump_into :
    OrderedMap Bytes Bytes → List Bytes → Option (OrderedMap Bytes Bytes)
parse_dump_into output [] = some output
parse_dump_into output (k ∷ []) = none
parse_dump_into output (k ∷ v ∷ rest) = parse_dump_into (assign bytes_lt k v output) rest

unfoldable pub parse_dump : List Bytes → Option (OrderedMap Bytes Bytes)
unfolding parse_dump_into
parse_dump values = parse_dump_into [] values

module _ (conf : Conf) where
  unfoldable pub set_result : Bytes → Option Bytes × conf.Env → Result (Unit {0}) × conf.Env
  set_result name (none, env) = (ok tt, env)
  set_result name (some error, env) = (throw (config_exception name error), env)

  -- `set(name, value)`.
  unfoldable pub set_option : Bytes → Bytes → conf.Env → Result (Unit {0}) × conf.Env
  unfolding set_result
  set_option name value env = set_result name (conf.conf_set name value env)

  -- `set(name, value)` of a `bool`.
  unfoldable pub set_bool : Bytes → Bool → conf.Env → Result (Unit {0}) × conf.Env
  set_bool name value = set_option name (text_of value)

  unfoldable pub continue_list :
      Result (Unit {0}) × conf.Env
      → (conf.Env → Result (Unit {0}) × conf.Env)
      → Result (Unit {0}) × conf.Env
  continue_list (ok _, env) f = f env
  continue_list (throw e, env) f = (throw e, env)

  -- `set(options)`: up to the first option that is refused.
  unfoldable pub set_list : List (Bytes × Bytes) → conf.Env → Result (Unit {0}) × conf.Env
  unfolding continue_list
  set_list [] env = (ok tt, env)
  set_list ((name, value) ∷ options) env =
      continue_list (set_option name value env) (set_list options)

  -- `has_property`.
  pub has_property : Bytes → conf.Env → Bool
  has_property name env = is_some (conf.conf_get name env)

  unfoldable pub found_option : Bytes → Option Bytes → Result Bytes
  found_option name none = throw (config_option_not_found name)
  found_option name (some value) = ok value

  -- `get(name)`.
  unfoldable pub get_option : Bytes → conf.Env → Result Bytes
  unfolding found_option
  get_option name env = found_option name (conf.conf_get name env)

  unfoldable pub as_bool : Result Bytes → Result Bool
  as_bool (ok value) = to_bool value
  as_bool (throw e) = throw e

  -- `get<bool>(name)`.
  unfoldable pub get_bool : Bytes → conf.Env → Result Bool
  unfolding as_bool
  get_bool name env = as_bool (get_option name env)

  -- `get_all`.
  pub get_all : conf.Env → Option (OrderedMap Bytes Bytes)
  get_all env = parse_dump (conf.conf_dump env)
