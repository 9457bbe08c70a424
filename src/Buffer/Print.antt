-- ===== src/Buffer/Print.antt =====
-- What `operator<<` of src/buffer.cpp writes.
use cppkafka.Prelude.{ℕ, ◌≤◌, ◌<◌, [], ◌∷◌, arith, All, All-append}
use cppkafka.Prelude.Bytes.{Bytes}
use cppkafka.Buffer.{Buffer, to_bytes, print_byte, print_bytes, print}

abbrev pub IsPrintable : ℕ → Type 0
IsPrintable c = (0x20 ≤ c) × (c < 0x7f)

abbrev pub IsByte : ℕ → Type 0
IsByte c = c < 256

print_byte-IsPrintable : (c : ℕ) → IsByte c → All IsPrintable (print_byte c)
unfolding print_byte
print_byte-IsPrintable c h = ground arith

print_bytes-IsPrintable : (xs : Bytes) → All IsByte xs → All IsPrintable (print_bytes xs)
unfolding print_bytes
print_bytes-IsPrintable [] h = tt
print_bytes-IsPrintable (x ∷ xs) h =
    All-append IsPrintable (print_byte x) (print_bytes xs) (print_byte-IsPrintable x h.0)
      (print_bytes-IsPrintable xs h.1)

-- Whatever bytes a buffer shows, `operator<<` writes printable ASCII characters only.
pub print-IsPrintable : (b : Buffer) → All IsByte (to_bytes b) → All IsPrintable (print b)
unfolding print
print-IsPrintable b h = print_bytes-IsPrintable (to_bytes b) h
