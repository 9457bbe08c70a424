-- ===== src/Buffer.antt =====
-- A view of memory: src/buffer.cpp and include/cppkafka/buffer.h.
pub mod Order
pub mod Print
mod Tests
use cppkafka.Prelude.{
  ℕ, zero, ◌+◌, ◌-◌, ◌/◌, ◌%◌, Bool, true, false, not, ◌&&◌, Option, none, some, List, [], ◌∷◌,
  ◌++◌, ltb, leb, ◌==◌, if◌then◌else◌, is_some, take, length,
}
use cppkafka.Prelude.Bytes.{Bytes, codes, bytes_eq, bytes_lt}
use cppkafka.Errors.{Result, ok, throw, exception}

-- The memory from the pointer on, `none` for a null pointer, and the size of the view.
pub record Buffer : Type 0 where
  pub memory : Option Bytes
  pub size : ℕ

-- Buffer().
unfoldable pub empty : Buffer
empty = record { memory = none; size = 0 }

-- Buffer(data, size): a null pointer goes with size 0 only.
unfoldable pub make_buffer : Option Bytes → ℕ → Result Buffer
make_buffer memory size =
    if not (is_some memory) && ltb 0 size
    then throw (exception (codes "Invalid buffer configuration"))
    else ok (record { memory = memory; size = size })

-- Buffer(string), Buffer(vector): the view of a whole container.
unfoldable pub of_bytes : Bytes → Buffer
of_bytes xs = record { memory = some xs; size = length xs }

-- The `size` bytes from a pointer on.
unfoldable pub range : Option Bytes → ℕ → Bytes
range none size = []
range (some xs) size = take size xs

-- The range [get_data(), get_data() + get_size()), which `operator string` and `operator vector`
-- copy.
unfoldable pub to_bytes : Buffer → Bytes
unfolding range
to_bytes b = range b.memory b.size

-- `operator bool`.
unfoldable pub non_empty : Buffer → Bool
non_empty b = not (b.size == 0)

-- `operator==`.
unfoldable pub buffer_eq : Buffer → Buffer → Bool
buffer_eq lhs rhs =
    if not (lhs.size == rhs.size) then false else bytes_eq (to_bytes lhs) (to_bytes rhs)

-- `operator!=`.
unfoldable pub buffer_ne : Buffer → Buffer → Bool
unfolding buffer_eq
buffer_ne lhs rhs = not (buffer_eq lhs rhs)

-- `operator<`.
unfoldable pub buffer_lt : Buffer → Buffer → Bool
buffer_lt lhs rhs = bytes_lt (to_bytes lhs) (to_bytes rhs)

-- `operator>`.
unfoldable pub buffer_gt : Buffer → Buffer → Bool
buffer_gt lhs rhs = bytes_lt (to_bytes rhs) (to_bytes lhs)

-- `operator<=`.
unfoldable pub buffer_le : Buffer → Buffer → Bool
unfolding buffer_gt
buffer_le lhs rhs = not (buffer_gt lhs rhs)

-- `operator>=`.
unfoldable pub buffer_ge : Buffer → Buffer → Bool
unfolding buffer_lt
buffer_ge lhs rhs = not (buffer_lt lhs rhs)

unfoldable pub hex_digit : ℕ → ℕ
hex_digit d = if ltb d 10 then d + 48 else d + 87

-- `output << hex << value` of a byte.
unfoldable pub hex : ℕ → Bytes
unfolding hex_digit
hex value =
    if ltb value 16
    then hex_digit value ∷ []
    else hex_digit (value / 16) ∷ hex_digit (value % 16) ∷ []

-- One byte of `operator<<`: itself if it is printable, else `\x` and two hexadecimal digits.
unfoldable pub print_byte : ℕ → Bytes
unfolding hex
print_byte value =
    if leb 0x20 value && ltb value 0x7f
    then value ∷ []
    else codes "\\x" ++ (if ltb value 16 then 48 ∷ [] else []) ++ hex value

unfoldable pub print_bytes : Bytes → Bytes
unfolding print_byte
print_bytes [] = []
print_bytes (value ∷ rest) = print_byte value ++ print_bytes rest

-- `operator<<`.
unfoldable pub print : Buffer → Bytes
unfolding print_bytes to_bytes
print b = print_bytes (to_bytes b)
