-- ===== src/ConsumerDispatcher/Tests.antt =====
-- The theorem on pausing at an application that gives messages back.
use cppkafka.Prelude.{ℕ, suc, false, none, some, [], ◌∷◌, if◌then◌else◌, ◌==◌}
use cppkafka.Prelude.Int.{pos, negsuc}
use cppkafka.Prelude.Bytes.{codes}
use cppkafka.Errors.{no_error, no_offset, ok, throw, handle_exception}
use cppkafka.Message.{Message}
use cppkafka.ConsumerDispatcher.{Application, Dispatcher, run}
use cppkafka.ConsumerDispatcher.Pausing.{nothing, Resumes, run-Resumes}

abbrev message : Message
message = record {
  error = no_error;
  topic = codes "test";
  partition = pos 0;
  payload = codes "v";
  key = [];
  headers = none;
  offset = pos 3;
  timestamp = none;
  user_data = 0;
  internal = none;
}

-- The first message is given back once; the environment counts the calls, and after five of them
-- a pause throws.
abbrev application : Application
application = record {
  Env = ℕ;
  poll = λ n. (some message, suc n);
  assignment =
      λ n. (ok (record { topic = codes "test"; partition = pos 0; offset = negsuc 1000 } ∷ []), n);
  pause = λ ps n. (if n == 5 then throw (handle_exception no_offset) else ok tt, n);
  resume = λ ps n. (ok tt, n);
  on_message = λ m n. (ok (if n == 1 then some m else none), (false, suc n));
  elapsed = λ m n. 5;
  on_error = none;
  on_eof = λ p n. (ok tt, (false, n));
  on_timeout = λ n. (ok tt, (false, n));
  on_event = λ n. (ok tt, (false, n));
}

abbrev idle : Dispatcher application
idle = record { env = 0; running = false; log = [] }

run-Resumes_example : let (o, t) = run application 2 idle in Resumes o t.log
run-Resumes_example = run-Resumes application 2 idle nothing
