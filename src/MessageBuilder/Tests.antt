-- ===== src/MessageBuilder/Tests.antt =====
-- The theorem on clones at a builder with a partition.
use cppkafka.Prelude.{◌≡◌, ◌↔◌}
use cppkafka.Prelude.Int.{pos, negsuc}
use cppkafka.Prelude.Bytes.{codes}
use cppkafka.MessageBuilder.{MessageBuilder, new_builder, set_partition, copy_builder, clone}
use cppkafka.MessageBuilder.Clone.{clone-eq_iff}

abbrev to_five : MessageBuilder
to_five = set_partition (pos 5) (new_builder (codes "test"))

clone-eq_iff_example :
    (copy_builder to_five ≡ to_five)
    × (clone to_five ≡ record to_five { partition = negsuc 0 })
    × ((clone to_five ≡ to_five) ↔ (to_five.partition ≡ negsuc 0))
clone-eq_iff_example = clone-eq_iff to_five
