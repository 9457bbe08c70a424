-- ===== src/Producer.antt =====
-- A producer of messages: src/producer.cpp, with the headers that it hands to librdkafka. The lists
-- of headers are pointers; who owns one is told by its deleter and cloner.
pub mod Ownership
mod Tests
use cppkafka.Prelude.{ℕ, Bool, Option, none, some, if◌then◌else◌}
use cppkafka.Prelude.Int.{ℤ, pos}
use cppkafka.Prelude.Bytes.{Bytes}
use cppkafka.Errors.{RespErr, is_error, Result, check_error}
use cppkafka.Message.{Message}
use cppkafka.MessageBuilder.{MessageBuilder}
use cppkafka.ClonablePtr.{copy_ptr, release, destroy}
use cppkafka.HeaderList.{Headers, HeaderList, no_list, owning}
use cppkafka.HandleBase.{as_int}

-- What `rd_kafka_producev` is given, apart from the headers and the flags.
pub record Parts : Type 0 where
  pub topic : Bytes
  pub partition : ℤ
  pub timestamp : ℤ
  pub key : Bytes
  pub payload : Bytes
  pub opaque : ℕ

unfoldable pub parts_of_builder : MessageBuilder → Parts
parts_of_builder b = record {
  topic = b.topic;
  partition = b.partition;
  timestamp = b.timestamp;
  key = b.key;
  payload = b.payload;
  opaque = b.user_data;
}

or_zero : Option ℤ → ℤ
or_zero none = pos 0
or_zero (some t) = t

unfoldable pub parts_of_message : Message → Parts
unfolding or_zero
parts_of_message m = record {
  topic = m.topic;
  partition = m.partition;
  timestamp = or_zero m.timestamp;
  key = m.key;
  payload = m.payload;
  opaque = m.user_data;
}

-- The calls of librdkafka on a producer: a message that is refused leaves its headers to the caller.
pub record Broker (lib : Headers) : Type 0 where
  pub producev : Parts → ℕ → Option ℕ → lib.Env → RespErr × lib.Env
  pub poll : ℤ → lib.Env → ℤ × lib.Env
  pub flush : ℤ → lib.Env → RespErr × lib.Env
  pub detach_headers : Message → lib.Env → (RespErr × ℕ) × lib.Env

module _ (lib : Headers) (broker : Broker lib) where
  -- What a call of `produce` leaves: its result, the handle that it gave to librdkafka, the list
  -- that it was given, and the environment.
  pub record Produced : Type 0 where
    pub result : Result (Unit {0})
    pub given : Option ℕ
    pub left : HeaderList lib
    pub env : lib.Env

  unfoldable pub left_list : RespErr → HeaderList lib → HeaderList lib
  left_list e headers = if is_error e then headers else (release headers).1

  -- `do_produce`.
  unfoldable pub do_produce : Parts → ℕ → HeaderList lib → lib.Env → Produced
  unfolding left_list
  do_produce parts policy headers env =
      let (e, env') = broker.producev parts policy headers.handle env in
      record {
        result = check_error e;
        given = headers.handle;
        left = left_list e headers;
        env = env';
      }

  -- The end of the statement: a temporary list is destroyed.
  unfoldable pub drop_left : Produced → Produced
  drop_left r = record r { env = destroy r.left r.env }

  -- `produce(const MessageBuilder&)`; the second list is that of the builder.
  unfoldable pub produce : MessageBuilder → HeaderList lib → ℕ → lib.Env → Produced
  unfolding drop_left
  produce b headers policy env =
      let (copied, env') = copy_ptr headers env in
      drop_left (do_produce (parts_of_builder b) policy copied env')

  -- `produce(MessageBuilder&&)`: the list that is left is the builder's.
  unfoldable pub produce_moved : MessageBuilder → HeaderList lib → ℕ → lib.Env → Produced
  produce_moved b headers policy env = do_produce (parts_of_builder b) policy headers env

  -- `produce(const Message&)`; the list is that of the message.
  unfoldable pub produce_message : Message → HeaderList lib → ℕ → lib.Env → Produced
  unfolding drop_left
  produce_message m headers policy env =
      let (copied, env') = copy_ptr headers env in
      drop_left (do_produce (parts_of_message m) policy copied env')

  unfoldable pub detached_list : RespErr × ℕ → HeaderList lib
  detached_list (e, p) = if is_error e then no_list lib else owning lib (some p)

  -- `produce(Message&&)`, with `detach_header_list` of the message.
  unfoldable pub produce_detached : Message → ℕ → lib.Env → Produced
  unfolding drop_left detached_list
  produce_detached m policy env =
      let (d, env') = broker.detach_headers m env in
      drop_left (do_produce (parts_of_message m) policy (detached_list d) env')

  -- `poll` and `flush`.
  pub poll : ℤ → lib.Env → ℤ × lib.Env
  poll timeout = broker.poll (as_int timeout)

  pub flush : ℤ → lib.Env → Result (Unit {0}) × lib.Env
  flush timeout env = let (e, env') = broker.flush (as_int timeout) env in (check_error e, env')
