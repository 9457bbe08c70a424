-- ===== src/MessageBuilder.antt =====
-- Building a message: include/cppkafka/message_builder.h. The key and the payload are the bytes
-- that the builder's buffers show.
pub mod Clone
mod Tests
use cppkafka.Prelude.{ℕ, zero, Option, none, some, List, [], ◌∷◌, ◌++◌}
use cppkafka.Prelude.Int.{ℤ, pos, negsuc}
use cppkafka.Prelude.Bytes.{Bytes}
use cppkafka.Message.{Message, Header}

pub record MessageBuilder : Type 0 where
  pub topic : Bytes
  pub partition : ℤ
  pub key : Bytes
  pub headers : Option (List Header)
  pub payload : Bytes
  pub timestamp : ℤ
  pub user_data : ℕ
  pub internal : Option ℕ

-- BasicMessageBuilder(topic); the other members have their initialisers' values.
unfoldable pub new_builder : Bytes → MessageBuilder
new_builder topic = record {
  topic = topic;
  partition = negsuc 0;
  key = [];
  headers = none;
  payload = [];
  timestamp = pos 0;
  user_data = 0;
  internal = none;
}

or_epoch : Option ℤ → ℤ
or_epoch none = pos 0
or_epoch (some t) = t

-- BasicMessageBuilder(const Message&).
unfoldable pub of_message : Message → MessageBuilder
unfolding or_epoch
of_message m = record {
  topic = m.topic;
  partition = negsuc 0;
  key = m.key;
  headers = m.headers;
  payload = m.payload;
  timestamp = or_epoch m.timestamp;
  user_data = m.user_data;
  internal = m.internal;
}

-- BasicMessageBuilder(const BasicMessageBuilder<U, V>&).
unfoldable pub copy_builder : MessageBuilder → MessageBuilder
copy_builder rhs = record {
  topic = rhs.topic;
  partition = rhs.partition;
  key = rhs.key;
  headers = rhs.headers;
  payload = rhs.payload;
  timestamp = rhs.timestamp;
  user_data = rhs.user_data;
  internal = rhs.internal;
}

unfoldable pub set_topic : Bytes → MessageBuilder → MessageBuilder
set_topic value b = record b { topic = value }

unfoldable pub set_partition : ℤ → MessageBuilder → MessageBuilder
set_partition value b = record b { partition = value }

unfoldable pub set_key : Bytes → MessageBuilder → MessageBuilder
set_key value b = record b { key = value }

-- A first header makes the list.
unfoldable pub add_header : Header → MessageBuilder → MessageBuilder
add_header h b = elim b.headers [
  | none ↦ record b { headers = some (h ∷ []) }
  | some hs ↦ record b { headers = some (hs ++ h ∷ []) }
]

unfoldable pub set_headers : Option (List Header) → MessageBuilder → MessageBuilder
set_headers hs b = record b { headers = hs }

unfoldable pub set_payload : Bytes → MessageBuilder → MessageBuilder
set_payload value b = record b { payload = value }

unfoldable pub set_timestamp : ℤ → MessageBuilder → MessageBuilder
set_timestamp value b = record b { timestamp = value }

unfoldable pub set_user_data : ℕ → MessageBuilder → MessageBuilder
set_user_data value b = record b { user_data = value }

unfoldable pub set_internal : Option ℕ → MessageBuilder → MessageBuilder
set_internal p b = record b { internal = p }

-- `MessageBuilder::clone`: a new builder for the topic, and the setters that it calls.
unfoldable pub clone : MessageBuilder → MessageBuilder
unfolding new_builder set_key set_headers set_payload set_timestamp set_user_data set_internal
clone b = set_internal b.internal (
    set_user_data b.user_data (
      set_timestamp b.timestamp
        (set_payload b.payload (set_headers b.headers (set_key b.key (new_builder b.topic))))))
