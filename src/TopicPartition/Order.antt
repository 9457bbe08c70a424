-- ===== src/TopicPartition/Order.antt =====
-- `operator<` and `operator==` of src/topic_partition.cpp fit together, so that a map keyed by
-- `TopicPartition` looks partitions up by topic and partition number alone.
use cppkafka.Prelude.{◌≡◌, ◌∙◌, ◌↔◌, refl, Bool, true, false, not, ◌&&◌, ◌||◌, arith}
use cppkafka.Prelude.Int.{eqb_ℤ_iff, ltb_ℤ_connected, ltb_ℤ_irrefl, ltb_ℤ_trans}
use cppkafka.Prelude.Bytes.{
  bytes_lt, bytes_eq_iff, bytes_lt_irrefl, bytes_lt_trans, bytes_lt_connected,
}
use cppkafka.Prelude.Order.{equiv, StrictWeakOrder}
use cppkafka.TopicPartition.{TopicPartition, tp_lt, tp_eq}

-- Two partitions are `operator==` exactly when their topics and their partition numbers are equal;
-- the offset does not count.
pub tp_eq_iff :
    (a b : TopicPartition)
    → (tp_eq a b ≡ true) ↔ ((a.topic ≡ b.topic) × (a.partition ≡ b.partition))
unfolding tp_eq
tp_eq_iff a b = (
  λ h. (
    (bytes_eq_iff a.topic b.topic).0 (ground arith),
    (eqb_ℤ_iff a.partition b.partition).0 (ground arith),
  ),
  λ h. rw ((bytes_eq_iff a.topic b.topic).1 h.0, (eqb_ℤ_iff a.partition b.partition).1 h.1),
)

-- Partitions that `operator<` does not separate have one topic and one partition number.
connected :
    (a b : TopicPartition)
    → equiv tp_lt a b ≡ true
    → (a.topic ≡ b.topic) × (a.partition ≡ b.partition)
unfolding tp_lt
connected a b h = (
  bytes_lt_connected a.topic b.topic (ground arith) (ground arith),
  ltb_ℤ_connected a.partition b.partition (ground arith) (ground arith),
)

same_place :
    (a b : TopicPartition) → a.topic ≡ b.topic → a.partition ≡ b.partition → equiv tp_lt a b ≡ true
unfolding tp_lt
same_place a b h k = rw (h, k) (ground (arith, bytes_lt_irrefl b.topic, ltb_ℤ_irrefl b.partition))

-- Transitivity of the order of pairs, from the truth values of the comparisons of the parts.
tie_trans :
    (ab ba bc cb ac ca pab pbc pac : Bool)
    → (ab ≡ true → bc ≡ true → ac ≡ true)
    → (ab ≡ false → ba ≡ false → bc ≡ true → ac ≡ true)
    → (ab ≡ true → bc ≡ false → cb ≡ false → ac ≡ true)
    → (ab ≡ false → ba ≡ false → bc ≡ false → cb ≡ false → ca ≡ false)
    → (pab ≡ true → pbc ≡ true → pac ≡ true)
    → (ab || (not ba && pab)) ≡ true
    → (bc || (not cb && pbc)) ≡ true
    → (ac || (not ca && pac)) ≡ true
tie_trans true ba true cb ac ca pab pbc pac h₁ h₂ h₃ h₄ h₅ h k = ground (arith, h₁ refl refl)
tie_trans true ba false true ac ca pab pbc pac h₁ h₂ h₃ h₄ h₅ h k = cc
tie_trans true ba false false ac ca pab pbc pac h₁ h₂ h₃ h₄ h₅ h k =
    ground (arith, h₃ refl refl refl)
tie_trans false true bc cb ac ca pab pbc pac h₁ h₂ h₃ h₄ h₅ h k = cc
tie_trans false false true cb ac ca pab pbc pac h₁ h₂ h₃ h₄ h₅ h k =
    ground (arith, h₂ refl refl refl)
tie_trans false false false true ac ca pab pbc pac h₁ h₂ h₃ h₄ h₅ h k = cc
tie_trans false false false false ac ca pab pbc pac h₁ h₂ h₃ h₄ h₅ h k =
    ground (arith, h₄ refl refl refl refl, h₅ h k)

tp_lt_trans : (a b c : TopicPartition) → tp_lt a b ≡ true → tp_lt b c ≡ true → tp_lt a c ≡ true
unfolding tp_lt
tp_lt_trans a b c =
    tie_trans _ (bytes_lt b.topic a.topic) _ (bytes_lt c.topic b.topic) _ _ _ _ _
      (bytes_lt_trans a.topic b.topic c.topic)
      (λ h k e. rw (bytes_lt_connected a.topic b.topic h k) e)
      (λ e h k. rw (← bytes_lt_connected b.topic c.topic h k) e)
      (λ h k h' k'.
        rw (bytes_lt_connected a.topic b.topic h k, bytes_lt_connected b.topic c.topic h' k')
          (bytes_lt_irrefl c.topic))
      (ltb_ℤ_trans a.partition b.partition c.partition)

-- `operator<` is a strict weak order, as `std::map` requires.
pub tp_lt-StrictWeakOrder : StrictWeakOrder tp_lt
unfolding tp_lt
tp_lt-StrictWeakOrder = record {
  irrefl = λ a. ground (arith, bytes_lt_irrefl a.topic, ltb_ℤ_irrefl a.partition);
  trans = λ a b c. tp_lt_trans a b c;
  equiv_trans = λ a b c h k.
      let (t, p) = connected a b h in
      let (u, q) = connected b c k in same_place a c (t ∙ u) (p ∙ q);
}

bool_of_iff : (x y : Bool) → (x ≡ true → y ≡ true) → (y ≡ true → x ≡ true) → x ≡ y
bool_of_iff true y h k = ground (arith, h)
bool_of_iff false y h k = ground (arith, k)

-- The equivalence that `std::map` derives from `operator<` is `operator==`, whatever the offsets.
pub equiv-tp_lt : (a b : TopicPartition) → equiv tp_lt a b ≡ tp_eq a b
equiv-tp_lt a b =
    bool_of_iff _ _ (λ h. (tp_eq_iff a b).1 (connected a b h))
      (λ h. let (t, p) = (tp_eq_iff a b).0 h in same_place a b t p)
