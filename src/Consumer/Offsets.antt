-- ===== src/Consumer/Offsets.antt =====
-- What `Consumer::store_consumed_offsets` gives to librdkafka (src/consumer.cpp).
use cppkafka.Prelude.{◌≡◌, refl, List, All}
use cppkafka.Errors.{no_error, ok, check_error}
use cppkafka.TopicPartitionList.{Element, to_handle, of_handle, check_list}
use cppkafka.TopicPartitionList.Matches.{check_list_iff}
use cppkafka.Consumer.{
  Client, Consumer, checked, call_list, call_getter, get_assignment, get_offsets_position,
  store_offsets, store_consumed_offsets, only_code, set_env,
}

checked-fine :
    (qs : List Element)
    → All (λ q. q.err ≡ no_error) qs
    → checked (no_error, qs) ≡ ok (of_handle qs)
unfolding checked
checked-fine qs fine = rw ((check_list_iff no_error qs).1 (refl, fine), checked) refl

-- Where the assignment and the positions come without an error, the positions are what librdkafka
-- is given to store, and the result is that of its call.
pub store_consumed-stores :
    (client : Client) (c : Consumer client) (es qs : List Element) (env₁ env₂ : client.Env)
    → client.assignment c.env ≡ ((no_error, es), env₁)
    → client.position (to_handle (of_handle es)) env₁ ≡ ((no_error, qs), env₂)
    → All (λ q. q.err ≡ no_error) qs
    → let ((e, rs), env₃) = client.offsets_store (to_handle (of_handle qs)) env₂ in
      ((store_consumed_offsets client c).0 ≡ check_list e rs)
      × ((store_consumed_offsets client c).1.env ≡ env₃)
unfolding store_consumed_offsets get_assignment get_offsets_position store_offsets call_getter
    call_list only_code set_env check_error
store_consumed-stores client c es qs env₁ env₂ a p fine =
    rw (a, p, checked-fine qs fine) (refl, refl)
