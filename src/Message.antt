-- ===== src/Message.antt =====
-- Messages, headers and timestamps as the other parts read them: include/cppkafka/message.h,
-- src/message.cpp, src/message_timestamp.cpp. A null message is `none`.
mod Tests
use cppkafka.Prelude.{ℕ, Bool, true, false, Option, none, some, List, [], ◌∷◌, ◌||◌, if◌then◌else◌}
use cppkafka.Prelude.Int.{ℤ, pos, negsuc, eqb_ℤ}
use cppkafka.Prelude.Bytes.{Bytes}
use cppkafka.Errors.{RespErr, partition_eof, resp_eq}

pub record Header : Type 0 where
  pub name : Bytes
  pub value : Bytes

-- `Message` with the fields of its `rd_kafka_message_t`. Pointers are numbers, `user_data` 0 being
-- null; `internal` points to the tracker of the message, if it has one.
pub record Message : Type 0 where
  pub error : RespErr
  pub topic : Bytes
  pub partition : ℤ
  pub payload : Bytes
  pub key : Bytes
  pub headers : Option (List Header)
  pub offset : ℤ
  pub timestamp : Option ℤ
  pub user_data : ℕ
  pub internal : Option ℕ

-- `Message::is_eof`.
unfoldable pub is_eof : Message → Bool
unfolding resp_eq
is_eof m = resp_eq m.error partition_eof

pub data TimestampType : Type 0 where
  not_available create_time log_append_time : TimestampType

-- `Message::get_timestamp`: -1 and an unavailable type are no timestamp.
unfoldable pub get_timestamp : ℤ → TimestampType → Option (ℤ × TimestampType)
get_timestamp t not_available = none
get_timestamp t type = if eqb_ℤ t (negsuc 0) then none else some (t, type)
