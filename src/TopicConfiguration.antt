-- ===== src/TopicConfiguration.antt =====
-- The partitioner of a topic configuration: src/topic_configuration.cpp. Objects of the class and of
-- librdkafka are numbers, which stand for their addresses; options are those of `Configuration`.
pub mod Partitioner
use cppkafka.Prelude.{
  ℕ, suc, Bool, true, false, Option, none, some, List, [], ◌∷◌, ◌==◌, if◌then◌else◌,
}
use cppkafka.Prelude.Int.{ℤ, negsuc}
use cppkafka.Prelude.Bytes.{Bytes}
use cppkafka.CallbackInvoker.{Callback, invoke}

-- What a partitioner is given: the key and the number of partitions.
abbrev pub Question : Type 0
Question = Bytes × ℤ

-- `TopicConfiguration`.
pub record TopicConfiguration : Type 0 where
  pub handle : ℕ
  pub partitioner_callback : Callback Question ℤ

-- `rd_kafka_topic_conf_t`: whether it has the proxy, and its opaque pointer.
pub record NativeConf : Type 0 where
  pub partitioner_cb : Bool
  pub opaque : Option ℕ

-- The objects of the class, those of librdkafka, and the number of the next one of librdkafka.
pub record Store : Type 0 where
  pub objects : ℕ → Option TopicConfiguration
  pub natives : ℕ → NativeConf
  pub next : ℕ

unfoldable pub update {ℓ} : {A : Type ℓ} → ℕ → A → (ℕ → A) → ℕ → A
update a x f b = if b == a then x else f b

-- TopicConfiguration(), with `rd_kafka_topic_conf_new`, at an address.
unfoldable pub construct : ℕ → Store → Store
unfolding update
construct a s = record {
  objects = update a (some (record { handle = s.next; partitioner_callback = none })) s.objects;
  natives = update s.next (record { partitioner_cb = false; opaque = none }) s.natives;
  next = suc s.next;
}

unfoldable pub set_callback_of : ℕ → Callback Question ℤ → Option TopicConfiguration → Store → Store
unfolding update
set_callback_of a f none s = s
set_callback_of a f (some c) s = record s {
  objects = update a (some (record c { partitioner_callback = f })) s.objects;
  natives = update c.handle (record (s.natives c.handle) { partitioner_cb = true }) s.natives;
}

-- `set_partitioner_callback`.
unfoldable pub set_partitioner_callback : ℕ → Callback Question ℤ → Store → Store
set_partitioner_callback a f s = set_callback_of a f (s.objects a) s

unfoldable pub set_opaque_of : ℕ → Option TopicConfiguration → Store → Store
unfolding update
set_opaque_of a none s = s
set_opaque_of a (some c) s = record s {
  natives = update c.handle (record (s.natives c.handle) { opaque = some a }) s.natives;
}

-- `set_as_opaque`.
unfoldable pub set_as_opaque : ℕ → Store → Store
set_as_opaque a s = set_opaque_of a (s.objects a) s

unfoldable pub copy_object : Option TopicConfiguration → ℕ → Store → Store
unfolding update
copy_object none b s = s
copy_object (some c) b s = record {
  objects = update b (some (record c { handle = s.next })) s.objects;
  natives = update s.next (s.natives c.handle) s.natives;
  next = suc s.next;
}

-- The copy of the object `a` at the address `b`; `rd_kafka_topic_conf_dup` copies the opaque pointer.
unfoldable pub copy : ℕ → ℕ → Store → Store
copy a b s = copy_object (s.objects a) b s

module _ (consistent_random : Question → ℤ) where
  -- The partition by a callback: a partitioner of librdkafka where there is none.
  unfoldable pub partition_by : Callback Question ℤ → Question → ℤ
  unfolding invoke
  partition_by none q = consistent_random q
  partition_by (some f) q = invoke (negsuc 0) (some f) q

  unfoldable pub through : Option TopicConfiguration → Question → Option ℤ
  through none q = none
  through (some c) q = some (partition_by c.partitioner_callback q)

  -- `partitioner_callback_proxy`: the opaque pointer leads to an object; `none` where it does not.
  unfoldable pub partitioner_callback_proxy : Option ℕ → Question → Store → Option ℤ
  unfolding through
  partitioner_callback_proxy none q s = none
  partitioner_callback_proxy (some a) q s = through (s.objects a) q

  -- librdkafka asks for a partition by the object `h` of its own.
  unfoldable pub ask : ℕ → Question → Store → Option ℤ
  ask h q s =
      if (s.natives h).partitioner_cb
      then partitioner_callback_proxy (s.natives h).opaque q s
      else some (consistent_random q)
