-- ===== src/Message/Tests.antt =====
-- Runs on messages.
use cppkafka.Prelude.{◌≡◌, refl, none, some}
use cppkafka.Prelude.Int.{pos, negsuc}
use cppkafka.Message.{get_timestamp, create_time}

timestamp_runs : get_timestamp (pos 7) create_time ≡ some (pos 7, create_time)
unfolding get_timestamp
timestamp_runs = refl

no_timestamp_runs : get_timestamp (negsuc 0) create_time ≡ none
unfolding get_timestamp
no_timestamp_runs = refl
