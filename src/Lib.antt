-- ===== src/Lib.antt =====
-- cppkafka, a C++ wrapper of librdkafka: its own logic as functions, with the properties that make
-- it correct.
--
-- Basic types. `Errors` has the error codes, the exceptions and `check_error` (src/error.cpp,
-- src/exceptions.cpp, src/kafka_handle_base.cpp); a call that may throw returns a `Result`.
-- `TopicPartition` and `TopicPartitionList` are src/topic_partition.cpp and
-- src/topic_partition_list.cpp, `Buffer` is src/buffer.cpp with include/cppkafka/buffer.h,
-- `Message` and `MessageBuilder` are include/cppkafka/message.h and
-- include/cppkafka/message_builder.h, and `MessageHandle` is the message object around a handle of
-- librdkafka (src/message.cpp), with who owns its headers over the parameter `Messages`, of which
-- `MessageHandle.Laws` states what librdkafka documents. `GroupInformation` is
-- src/group_information.cpp with its parser of member assignments, and `Metadata` is
-- src/metadata.cpp. `CallbackInvoker` is include/cppkafka/detail/callback_invoker.h. `ClonablePtr`
-- is include/cppkafka/clonable_ptr.h; `HeaderList` is include/cppkafka/header.h, header_list.h and
-- header_list_iterator.h, over librdkafka's lists as the parameter `Headers`, of which
-- `HeadersLaws` states what librdkafka documents.
--
-- Handles. `HandleBase` is src/kafka_handle_base.cpp over the parameter `Library`, with the topic
-- configurations that it keeps in `HandleBase.TopicConfigs` and its construction, where a
-- configuration is copied and handed over to librdkafka, in `HandleBase.Construction` over the
-- parameter `Rdkafka`; and `Producer` is src/producer.cpp over the parameter `Broker`, with the
-- ownership of the headers that it sends.
--
-- The buffered producer, include/cppkafka/utils/buffered_producer.h. `AckMonitor` has its counters,
-- also on several threads as a step relation; `BufferedProducer` its state, with the trackers of
-- messages in a store that messages point into. `BufferedProducer.Report` is the delivery report,
-- `.Produce` the sends and waits, `.Flush` the synchronous send, `flush` and `add_message`. A
-- message there has the user data and the tracker of its builder; `MessageInternal`, which is
-- src/message_internal.cpp, models the object that carries both, and when it does not. These
-- modules call librdkafka by the record `Kafka`, a parameter: the code that a send returns, the
-- delivery reports that a poll or a flush serves, and a clock. A run ends with a value, with an
-- exception, in a wait for ever, or out of fuel. The code sends again while the queue of librdkafka
-- is full and waits while acknowledgements are pending, with no bound of its own, so no fuel is
-- enough for every librdkafka; one unit is enough for a send that is answered by anything but a
-- full queue. `.Waiting` states as `Delivers` a librdkafka that accepts every message and whose
-- flush without a timeout serves the report of every message that is outstanding: then one unit is
-- enough for a wait, and for a synchronous send one unit more than the retries that are allowed.
-- `.Settings` has the constructor and the setters. `.Interleaving` is a step relation of the
-- threads that share a producer: each goes through a call of add_message, produce, clear or
-- flush one access of the queues or of librdkafka at a time, where the flush is the one that
-- does not preserve the order. Synchronous sends, and with them the flush that preserves the
-- order, take no part in it. `.Interleaving.Sequential` and `.Interleaving.Calls` relate it with
-- the sequential code.
--
-- Consumers. `Consumer` is src/consumer.cpp over librdkafka's client as the parameter `Client`.
-- `RoundRobin` is src/utils/roundrobin_poll_strategy.cpp with src/utils/poll_strategy_base.cpp;
-- queues are handles, and consuming from one is the parameter `QueueSystem`; `RoundRobin.Callbacks`
-- is how it takes over the callbacks of the consumer. `Queue` is src/queue.cpp over the parameter
-- `Queues`. `CompactedTopic` is include/cppkafka/utils/compacted_topic_processor.h, whose log is
-- `CompactedTopic.Log`, and `Backoff` is src/utils/backoff_performer.cpp with
-- src/utils/backoff_committer.cpp and their headers. `ConsumerDispatcher` is
-- include/cppkafka/utils/consumer_dispatcher.h, with the consumer and the callbacks as the
-- parameter `Application`; the callbacks and the calls that pause and resume may throw, and its
-- loop runs until it is stopped, so its fuel counts the turns; `.Callbacks` is how `run` chooses
-- among the callbacks that it gets, and when it compiles. `Configuration` is
-- include/cppkafka/configuration_base.h with src/configuration.cpp, over librdkafka's object as
-- the parameter `Conf`; topic configurations have the same operations, and their partitioner is
-- `TopicConfiguration`. `Configuration.Ints` converts integers from and to text, and
-- `Configuration.Callbacks` has the callbacks, the proxies that librdkafka calls and the invoker
-- that runs a callback.
--
-- `Prelude` passes the library's names on and adds integers, bytes and ordered maps. Sizes and
-- counts are natural numbers, `int` and `int64_t` integers without a bound, but for the stores of a
-- `size_t` in an `int` and the integers of the wire format, which wrap. Threads interleave in
-- `AckMonitor.Race` and in `BufferedProducer.Interleaving`; elsewhere one thread calls at a time.
-- Not modelled: who owns the handles of librdkafka other than messages, headers, queues, topic
-- configurations and the configurations that a handle is made from; and topics and events, whose
-- code only calls librdkafka.
pub mod Prelude
pub mod Errors
pub mod TopicConfiguration
pub mod TopicPartition
pub mod Buffer
pub mod GroupInformation
pub mod Message
pub mod MessageBuilder
pub mod MessageHandle
pub mod MessageInternal
pub mod AckMonitor
pub mod CallbackInvoker
pub mod BufferedProducer
pub mod CompactedTopic
pub mod Backoff
pub mod Queue
pub mod RoundRobin
pub mod TopicPartitionList
pub mod Consumer
pub mod Configuration
pub mod Metadata
pub mod HandleBase
pub mod ClonablePtr
pub mod HeaderList
pub mod Producer
pub mod ConsumerDispatcher
