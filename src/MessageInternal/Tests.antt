-- ===== src/MessageInternal/Tests.antt =====
-- Runs of messages through librdkafka, and the theorems on them at concrete messages.
use cppkafka.Prelude.{◌≡◌, refl, true, false, none, some, List, [], ◌∷◌}
use cppkafka.Prelude.Int.{pos, negsuc}
use cppkafka.Prelude.Bytes.{codes}
use cppkafka.MessageBuilder.{MessageBuilder}
use cppkafka.MessageInternal.{Op, sends, reports, run, take_at, erase}
use cppkafka.MessageInternal.Handover.{Agrees, carry_all, empty_world, nothing_carried, run-carries}

abbrev first : MessageBuilder
first = record {
  topic = codes "orders";
  partition = negsuc 0;
  key = [];
  headers = none;
  payload = codes "a";
  timestamp = pos 0;
  user_data = 7;
  internal = some 0;
}

abbrev second : MessageBuilder
second = record first { user_data = 0; internal = some 1 }

-- The first message is sent again after librdkafka refused it, and reported last.
abbrev calls : List Op
calls = sends false first ∷ sends true first ∷ sends true second ∷ reports 1 ∷ reports 0 ∷ []

calls_given :
    run calls empty_world
    ≡ some (record {
      heap = record { cells = []; next = 4 };
      sent = [];
      given =
          record { user_data = 0; internal = some 1 }
          ∷ record { user_data = 7; internal = some 0 }
          ∷ [];
    })
unfolding run take_at erase
calls_given = refl

run-carries_example : Agrees (run calls empty_world) (carry_all calls nothing_carried)
run-carries_example = run-carries calls (refl, (refl, (refl, tt)))
