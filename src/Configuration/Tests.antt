-- ===== src/Configuration/Tests.antt =====
-- Runs of the conversions of integers from and to text.
use cppkafka.Prelude.{◌≡◌, refl, if◌then◌else◌}
use cppkafka.Prelude.Bytes.{codes}
use cppkafka.Prelude.Int.{pos, negsuc}
use cppkafka.Errors.{ok, throw, invalid_config_option_type, to_string}
use cppkafka.Configuration.Ints.{to_int, stoi, fits_int}
use cppkafka.Configuration.Ints.RoundTrip.{to_int-to_string}

-- The largest `int` is read back, the number after it is not.
largest : to_int (to_string (pos 2147483647)) ≡ ok (pos 2147483647)
unfolding fits_int
largest = to_int-to_string (pos 2147483647)

-- The rest of a text is ignored.
with_unit : to_int (codes " -10ms") ≡ ok (negsuc 9)
unfolding to_int stoi fits_int
with_unit = refl

no_number : to_int (codes "ten") ≡ throw (invalid_config_option_type (codes "ten") (codes "int"))
unfolding to_int stoi fits_int
no_number = refl

to_int-to_string_example : to_int (to_string (negsuc 41)) ≡ (
    if fits_int (negsuc 41)
    then ok (negsuc 41)
    else throw (invalid_config_option_type (to_string (negsuc 41)) (codes "int")))
to_int-to_string_example = to_int-to_string (negsuc 41)
