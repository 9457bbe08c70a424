-- ===== src/MessageBuilder/Clone.antt =====
-- What the copies of a builder keep.
use cppkafka.Prelude.{◌≡◌, ◌↔◌, refl, sym, ap}
use cppkafka.Prelude.Int.{negsuc}
use cppkafka.MessageBuilder.{MessageBuilder, copy_builder, clone}

-- The copy constructor keeps every field; `clone` keeps every field but the partition, so a clone
-- is the builder exactly when the builder had no partition set.
pub clone-eq_iff :
    (b : MessageBuilder)
    → (copy_builder b ≡ b)
      × (clone b ≡ record b { partition = negsuc 0 })
      × ((clone b ≡ b) ↔ (b.partition ≡ negsuc 0))
unfolding clone copy_builder
clone-eq_iff b = (
  refl,
  refl,
  (
    λ e. sym (ap (λ (c : MessageBuilder). c.partition) e),
    λ e. λ i. record b { partition = sym e i },
  ),
)
