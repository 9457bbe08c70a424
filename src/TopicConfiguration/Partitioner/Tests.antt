-- ===== src/TopicConfiguration/Partitioner/Tests.antt =====
-- The partitioner of a copied topic configuration, beside that of the original.
use cppkafka.Prelude.{◌≡◌, refl, none, some, List, [], ◌∷◌}
use cppkafka.Prelude.Int.{ℤ, pos, negsuc}
use cppkafka.CallbackInvoker.{Callback, invoke}
use cppkafka.TopicConfiguration.{
  Question, update, construct, set_callback_of, set_partitioner_callback, set_opaque_of,
  set_as_opaque, copy_object, copy, partition_by, through, partitioner_callback_proxy, ask,
}
use cppkafka.TopicConfiguration.Partitioner.{
  Op, constructs, sets, becomes_opaque, copies, run, run_all, no_objects, ask-chooses,
}

-- A partitioner that throws for an empty key, and one that takes the number of partitions.
abbrev by_key : Callback Question ℤ
by_key = some (λ q. elim q.0 [ [] ↦ none | x ∷ xs ↦ some (pos x) ])

abbrev by_count : Callback Question ℤ
by_count = some (λ q. some q.1)

abbrev calls : List Op
calls = constructs 1 ∷ sets 1 by_key ∷ becomes_opaque 1 ∷ copies 1 2 ∷ sets 2 by_count ∷ []

-- The copy is asked as the original until it is made opaque itself.
asked_original : ask (λ q. pos 0) 1 ([], pos 8) (run_all calls no_objects) ≡ some (negsuc 0)
unfolding ask partitioner_callback_proxy through partition_by invoke run_all run construct
    set_partitioner_callback set_callback_of set_as_opaque set_opaque_of copy copy_object update
asked_original = refl

copied :
    (run_all calls no_objects).objects 2
    ≡ some (record { handle = 1; partitioner_callback = by_count })
unfolding construct set_partitioner_callback set_callback_of set_as_opaque set_opaque_of copy
    copy_object update
copied = refl

ask-chooses_example :
    ask (λ q. pos 0) 1 ([], pos 8) (set_as_opaque 2 (run_all calls no_objects))
    ≡ some (partition_by (λ q. pos 0) by_count ([], pos 8))
ask-chooses_example =
    ask-chooses (λ q. pos 0) calls 2 (record { handle = 1; partitioner_callback = by_count })
      ([], pos 8) copied
