-- ===== src/GroupInformation.antt =====
-- Consumer groups: src/group_information.cpp. The member assignment is parsed from bytes as in the
-- constructor of `MemberAssignmentInformation`; what a read past the end of the vector gives is
-- undefined in the source, and is the outcome `out_of_bounds` here.
pub mod RoundTrip
pub mod Bounds
mod Tests
use cppkafka.Prelude.{
  ℕ, zero, suc, ◌+◌, ◌-◌, ◌*◌, ◌^◌, Option, none, some, List, [], ◌∷◌, ◌++◌, map, ltb,
  if◌then◌else◌, length, take, drop,
}
use cppkafka.Prelude.Int.{ℤ, pos, negsuc}
use cppkafka.Prelude.Bytes.{Bytes}
use cppkafka.Errors.{RespErr}
use cppkafka.Metadata.{RawBroker, BrokerMetadata, make_broker}
use cppkafka.TopicPartition.{TopicPartition, Constants, at_partition}

pub data Parsed {ℓ} (A : Type ℓ) : Type ℓ where
  parsed : A → Parsed A
  malformed : Parsed A
  out_of_bounds : Parsed A

infixl 5 ◌>>=◌
abbrev pub ◌>>=◌ {ℓ κ} : {A : Type ℓ} {B : Type κ} → Parsed A → (A → Parsed B) → Parsed B
parsed a >>= f = f a
malformed >>= f = malformed
out_of_bounds >>= f = out_of_bounds

-- `memcpy` of two bytes and `be16toh`; the state is what lies between `ptr` and `end`.
unfoldable pub read_u16 : Bytes → Parsed (ℕ × Bytes)
read_u16 [] = out_of_bounds
read_u16 (a ∷ []) = out_of_bounds
read_u16 (a ∷ b ∷ rest) = parsed (a * 256 + b, rest)

-- `memcpy` of four bytes and `be32toh`.
unfoldable pub read_u32 : Bytes → Parsed (ℕ × Bytes)
read_u32 (a ∷ b ∷ c ∷ d ∷ rest) = parsed (((a * 256 + b) * 256 + c) * 256 + d, rest)
read_u32 _ = out_of_bounds

-- `string topic_name(ptr, ptr + topic_length)`.
unfoldable pub read_text : ℕ → Bytes → Parsed (Bytes × Bytes)
read_text n rest = if ltb (length rest) n then out_of_bounds else parsed (take n rest, drop n rest)

-- The `uint32_t` as the `int` of a `TopicPartition`.
unfoldable pub to_int : ℕ → ℤ
to_int n = if ltb n (2 ^ 31) then pos n else negsuc (2 ^ 32 - 1 - n)

-- The inner loop, over the partitions of one topic.
unfoldable pub parse_partitions :
    Constants → Bytes → ℕ → Bytes → Parsed (List TopicPartition × Bytes)
parse_partitions k topic zero rest = parsed ([], rest)
parse_partitions k topic (suc n) rest = do
  (id, rest₁) ← read_u32 rest
  (more, rest₂) ← parse_partitions k topic n rest₁
  parsed (at_partition k topic (to_int id) ∷ more, rest₂)

-- The body of the outer loop after the test for two more bytes.
unfoldable pub parse_topic : Constants → Bytes → Parsed (List TopicPartition × Bytes)
parse_topic k rest = do
  (topic_length, rest₁) ← read_u16 rest
  if ltb (length rest₁ + 4) topic_length then malformed else do
    (topic, rest₂) ← read_text topic_length rest₁
    (total, rest₃) ← read_u32 rest₂
    if ltb (length rest₃) (total * 4) then malformed else parse_partitions k topic total rest₃

-- The outer loop.
unfoldable pub parse_topics : Constants → ℕ → Bytes → Parsed (List TopicPartition)
parse_topics k zero rest = parsed []
parse_topics k (suc n) rest = if ltb (length rest) 2 then malformed else do
  (found, rest₁) ← parse_topic k rest
  more ← parse_topics k n rest₁
  parsed (found ++ more)

pub record MemberAssignment : Type 0 where
  pub version : ℕ
  pub topic_partitions : List TopicPartition

-- MemberAssignmentInformation(data).
unfoldable pub parse_assignment : Constants → Bytes → Parsed MemberAssignment
parse_assignment k input = if ltb (length input) 6 then malformed else do
  (version, rest) ← read_u16 input
  (total, rest₁) ← read_u32 rest
  found ← parse_topics k total rest₁
  parsed (record { version = version; topic_partitions = found })

-- `rd_kafka_group_member_info` and `rd_kafka_group_info`, by the fields that are read.
pub record MemberInfo : Type 0 where
  pub member_id : Bytes
  pub client_id : Bytes
  pub client_host : Bytes
  pub member_metadata : Bytes
  pub member_assignment : Bytes

pub record GroupInfo : Type 0 where
  pub broker : RawBroker
  pub group : Bytes
  pub err : RespErr
  pub state : Bytes
  pub protocol_type : Bytes
  pub protocol : Bytes
  pub members : List MemberInfo

-- GroupInformation(info); a member is copied as it is.
pub record Group : Type 0 where
  pub broker : BrokerMetadata
  pub name : Bytes
  pub error : RespErr
  pub state : Bytes
  pub protocol_type : Bytes
  pub protocol : Bytes
  pub members : List MemberInfo

unfoldable pub make_group : GroupInfo → Group
make_group g = record {
  broker = make_broker g.broker;
  name = g.group;
  error = g.err;
  state = g.state;
  protocol_type = g.protocol_type;
  protocol = g.protocol;
  members = g.members;
}
