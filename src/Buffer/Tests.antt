-- ===== src/Buffer/Tests.antt =====
-- Runs on buffers, and the theorems on them at concrete views.
use cppkafka.Prelude.{◌≡◌, true, false, refl, some, [], ◌∷◌}
use cppkafka.Prelude.Bytes.{codes, bytes_lt, bytes_eq}
use cppkafka.Errors.{ok}
use cppkafka.Buffer.{Buffer, range, make_buffer, to_bytes, buffer_eq, buffer_lt, print}

-- The first two of three bytes, and a container of those two.
abbrev part : Buffer
part = record { memory = some (97 ∷ 7 ∷ 98 ∷ []); size = 2 }

abbrev whole : Buffer
whole = record { memory = some (97 ∷ 7 ∷ []); size = 2 }

print_runs : print part ≡ codes "a\\x07"
unfolding print to_bytes range
print_runs = refl

prefix_first : (buffer_lt whole part ≡ false) × (buffer_eq whole part ≡ true)
unfolding buffer_lt buffer_eq to_bytes range bytes_lt bytes_eq
prefix_first = (refl, refl)

made : make_buffer (some (97 ∷ 7 ∷ 98 ∷ [])) 2 ≡ ok part
unfolding make_buffer
made = refl
