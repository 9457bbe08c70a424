-- ===== src/HandleBase/TopicConfigs.antt =====
-- The topic configurations that a handle keeps: `save_topic_config` and the two `get_topic` of
-- src/kafka_handle_base.cpp, with the objects of librdkafka behind them. Objects are numbers.
pub mod Validity
pub mod Lifetime
use cppkafka.Prelude.{
  ℕ, suc, Bool, true, false, not, Option, none, some, List, [], ◌∷◌, ◌==◌, if◌then◌else◌, keep, any,
}
use cppkafka.Prelude.Bytes.{Bytes, bytes_lt}
use cppkafka.Prelude.OrderedMap.{OrderedMap, find, emplace}

-- The `rd_kafka_topic_conf_t` objects that are not destroyed, the number of the next one, the
-- opaque pointer of each, which points to the entry of a topic in the map, and the map
-- `topic_configurations_` from names to the objects of its entries. It is an `unordered_map`, of
-- which the order is never read; the entries stand in the order of their names here.
pub record Confs : Type 0 where
  pub live : List ℕ
  pub next : ℕ
  pub opaque : ℕ → Option Bytes
  pub saved : OrderedMap Bytes ℕ

unfoldable pub is_live : ℕ → Confs → Bool
is_live h s = any (λ j. h == j) s.live

-- A new object: `TopicConfiguration{}`, or the copy of the caller's that the argument `config` is.
unfoldable pub new_conf : Confs → Confs
new_conf s = record s {
  live = s.next ∷ s.live;
  next = suc s.next;
  opaque = λ j. if j == s.next then none else s.opaque j;
}

-- The destructor of `TopicConfiguration`.
unfoldable pub destroy_conf : ℕ → Confs → Confs
destroy_conf h s = record s { live = keep (λ j. not (h == j)) s.live }

-- `set_as_opaque` of the entry of a topic.
unfoldable pub set_as_opaque : Bytes → ℕ → Confs → Confs
set_as_opaque name h s = record s { opaque = λ j. if j == h then some name else s.opaque j }

unfoldable pub copy_conf : ℕ → Confs → Confs
copy_conf h s = record s {
  live = s.next ∷ s.live;
  next = suc s.next;
  opaque = λ j. if j == s.next then s.opaque h else s.opaque j;
}

-- `rd_kafka_topic_conf_dup`; `none` is a read of a destroyed object.
unfoldable pub dup_conf : ℕ → Confs → Option (ℕ × Confs)
unfolding is_live copy_conf
dup_conf h s = if is_live h s then some (s.next, copy_conf h s) else none

-- `save_topic_config`, given the entry that is there: the argument moves into a new entry, or is
-- destroyed at the end of the call.
unfoldable pub save_found : Bytes → ℕ → Option ℕ → Confs → Confs
unfolding set_as_opaque destroy_conf
save_found name h none s =
    set_as_opaque name h (record s { saved = emplace bytes_lt name h s.saved })
save_found name h (some j) s = destroy_conf h (set_as_opaque name j s)

unfoldable pub save_topic_config : Bytes → ℕ → Confs → Confs
save_topic_config name h s = save_found name h (find bytes_lt name s.saved) s

-- `get_topic(name)`: librdkafka is given no configuration.
unfoldable pub get_topic_default : Bytes → Confs → Confs
get_topic_default name s = save_topic_config name s.next (new_conf s)

-- `get_topic(name, config)`: the object that librdkafka is given.
unfoldable pub get_topic_conf : Bytes → Confs → Option (ℕ × Confs)
get_topic_conf name s = dup_conf s.next (save_topic_config name s.next (new_conf s))

-- What an application asks for: a topic by its name, or by its name and a configuration.
pub data Request : Type 0 where
  by_name by_config : Bytes → Request

unfoldable pub without_handle : Option (ℕ × Confs) → Option Confs
without_handle none = none
without_handle (some (h, s)) = some s

-- A request; `none` where a destroyed object is read, and anything may follow.
unfoldable pub ask : Request → Confs → Option Confs
unfolding without_handle
ask (by_name name) s = some (get_topic_default name s)
ask (by_config name) s = without_handle (get_topic_conf name s)

unfoldable pub ask_next : Option Confs → (Confs → Option Confs) → Option Confs
ask_next none f = none
ask_next (some s) f = f s

unfoldable pub ask_all : List Request → Confs → Option Confs
unfolding ask_next
ask_all [] s = some s
ask_all (r ∷ rs) s = ask_next (ask r s) (ask_all rs)

-- The opaque pointer of the configuration that librdkafka is given.
unfoldable pub given_opaque : Option (ℕ × Confs) → Option (Option Bytes)
given_opaque none = none
given_opaque (some (h, s)) = some (s.opaque h)
