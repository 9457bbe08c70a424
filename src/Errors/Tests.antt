-- ===== src/Errors/Tests.antt =====
-- Runs of the error module.
use cppkafka.Prelude.{◌≡◌, refl}
use cppkafka.Prelude.Int.{negsuc}
use cppkafka.Prelude.Bytes.{codes}
use cppkafka.Errors.{decimal, to_string, what, unexpected_version}

decimal_runs : decimal 1907 ≡ codes "1907"
unfolding decimal
decimal_runs = refl

to_string_runs : to_string (negsuc 41) ≡ codes "-42"
unfolding to_string
to_string_runs = refl

what_runs : what (λ _. codes "") (unexpected_version 3) ≡ codes "Unexpected version 3"
unfolding what
what_runs = refl
