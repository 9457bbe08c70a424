-- ===== src/HandleBase/Construction/Tests.antt =====
-- A consumer that cannot be created, and the theorem on the configurations that are left.
use cppkafka.Prelude.{ℕ, ◌+◌, ◌≡◌, refl, none, some}
use cppkafka.Prelude.Int.{pos}
use cppkafka.Prelude.Bytes.{codes}
use cppkafka.Errors.{throw, exception}
use cppkafka.HandleBase.Construction.{consumer, Rdkafka, construct, live}
use cppkafka.HandleBase.Construction.Leak.{RdkafkaLaws, lost, live-confs}

-- librdkafka that creates no handles, and counts configurations.
abbrev failing : Rdkafka
failing = record {
  Env = ℕ × ℕ;
  topic_conf_set_opaque = λ t this env. env;
  topic_conf_dup = λ t env. (t + 1, env);
  topic_conf_destroy = λ t env. env;
  conf_set_default_topic_conf = λ c t env. env;
  conf_set_opaque = λ c this env. env;
  conf_set_rebalance_cb = λ c env. env;
  conf_dup = λ c env. (c + 1, (env.0 + 1, env.1));
  conf_destroy = λ c env. (env.0, env.1 + 1);
  kafka_new = λ k c env. ((none, codes "no broker"), (env.0, env.1 + 0));
  poll_set_consumer = λ h env. env;
  destroy_flags = λ h flags env. env;
}

failing-RdkafkaLaws : RdkafkaLaws failing
failing-RdkafkaLaws = record {
  confs = λ env. env;
  dups = λ c env. refl;
  destroys = λ c env. refl;
  takes = λ k c env. refl;
  opaque = λ c this env. refl;
  rebalance = λ c env. refl;
  default_topic = λ c t env. refl;
  topic_opaque = λ t this env. refl;
  topic_dups = λ t env. refl;
  topic_destroys = λ t env. refl;
  polls = λ h env. refl;
  handle_destroys = λ h flags env. refl;
}

refused :
    (construct failing consumer 7 1 (some (8, 3)) (0, 0)).0
    ≡ throw (exception (codes "Failed to create consumer handle: no broker"))
unfolding construct
refused = refl

-- One copy is made, and only the configuration itself is destroyed.
left_over : live failing consumer 7 1 (some (8, 3)) (pos 0) (0, 0) ≡ (1, 1)
unfolding live
left_over = refl

live-confs_example :
    let env' = live failing consumer 7 1 (some (8, 3)) (pos 0) (0, 0) in
    ((failing-RdkafkaLaws.confs env').0 ≡ (failing-RdkafkaLaws.confs (0, 0)).0 + 1)
    × ((failing-RdkafkaLaws.confs env').1
          + lost failing failing-RdkafkaLaws (construct failing consumer 7 1 (some (8, 3)) (0, 0)).0
        ≡ (failing-RdkafkaLaws.confs (0, 0)).1 + 2)
live-confs_example =
    live-confs failing failing-RdkafkaLaws consumer 7 1 (some (8, 3)) (pos 0) (0, 0)
