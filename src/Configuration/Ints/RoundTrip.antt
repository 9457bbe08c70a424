-- ===== src/Configuration/Ints/RoundTrip.antt =====
-- Integers that are printed and read back (include/cppkafka/configuration_base.h).
use cppkafka.Prelude.{
  ℕ, zero, suc, ◌+◌, ◌/◌, ◌%◌, ◌≤◌, ◌<◌, ◌≡◌, ◌∙◌, refl, sym, ap, Bool, true, false, none, some, [],
  ◌∷◌, arith, ltb, if◌then◌else◌, Bool-cases, inl, inr,
}
use cppkafka.Prelude.Int.{ℤ, pos, negsuc}
use cppkafka.Prelude.Bytes.{Bytes, codes}
use cppkafka.Errors.{ok, throw, invalid_config_option_type, decimal, decimal_loop, to_string}
use cppkafka.Configuration.Ints.{
  is_digit, is_space, skip_spaces, digits, starts_with_digit, negated, signed, after_sign, fits_int,
  stoi, to_int,
}

-- The digits that `decimal` writes are read back.
digits-loop : (f n : ℕ) (acc : Bytes) → n < f → digits 0 (decimal_loop f n acc) ≡ digits n acc
unfolding digits decimal_loop is_digit
digits-loop zero n acc h = absurd (omega (arith, h))
digits-loop (suc f) n acc h = elim (Bool-cases (ltb n 10)) [
  | inl small ↦ rw small (ground arith)
  | inr big ↦ rw big (digits-loop f (n / 10) ((n % 10 + 48) ∷ acc) (ground arith) ∙ ground arith)
]

-- The first of them.
first-digit :
    (f n : ℕ) (acc : Bytes)
    → n < f
    → (d : ℕ) × (rest : Bytes) × (decimal_loop f n acc ≡ d ∷ rest) × (48 ≤ d) × (d ≤ 57)
unfolding decimal_loop
first-digit zero n acc h = absurd (omega (arith, h))
first-digit (suc f) n acc h = elim (Bool-cases (ltb n 10)) [
  | inl small ↦ (n + 48, acc, rw small refl, omega arith, ground arith)
  | inr big ↦ rw big (first-digit f (n / 10) ((n % 10 + 48) ∷ acc) (ground arith))
]

-- A text that starts with a digit and whose digits give a number.
record Reads (n : ℕ) (s : Bytes) : Type 0 where
  first : ℕ
  rest : Bytes
  text : s ≡ first ∷ rest
  above : 48 ≤ first
  below : first ≤ 57
  value : digits 0 (first ∷ rest) ≡ n

decimal-Reads : (n : ℕ) → Reads n (decimal n)
unfolding decimal digits
decimal-Reads n =
    let (d, rest, e, lo, hi) = first-digit (suc n) n [] (omega arith) in
    record {
      first = d;
      rest = rest;
      text = e;
      above = lo;
      below = hi;
      value = ap (digits 0) (sym e) ∙ read-all n;
    }
  where
    read-all : (m : ℕ) → digits 0 (decimal_loop (suc m) m []) ≡ m
    read-all m = digits-loop (suc m) m [] (omega arith)

signed-Reads :
    (negative : Bool) (n : ℕ) (s : Bytes)
    → Reads n s
    → signed negative s ≡ some (if negative then negated n else pos n)
unfolding signed starts_with_digit is_digit
signed-Reads negative n s r = rw (r.text) (ground (arith, r.above, r.below, r.value))

after_sign-Reads : (n : ℕ) (s : Bytes) → Reads n s → after_sign (skip_spaces s) ≡ signed false s
unfolding after_sign skip_spaces is_space
after_sign-Reads n s r = rw r.text (ground (arith, r.above, r.below))

stoi-to_string : (z : ℤ) → stoi (to_string z) ≡ (if fits_int z then some z else none)
unfolding stoi to_string after_sign skip_spaces is_space negated
stoi-to_string (pos n) =
    let r = decimal-Reads n in
    rw (after_sign-Reads n (decimal n) r, signed-Reads false n (decimal n) r, stoi) refl
stoi-to_string (negsuc n) =
    rw (signed-Reads true (suc n) (decimal (suc n)) (decimal-Reads (suc n)), stoi) refl

-- An integer that is printed as an option and read back as an `int` is that integer where it is an
-- `int`; a larger or a smaller one throws.
pub to_int-to_string :
    (z : ℤ)
    → to_int (to_string z) ≡ (
        if fits_int z then ok z else throw (invalid_config_option_type (to_string z) (codes "int")))
unfolding to_int
to_int-to_string z = elim (Bool-cases (fits_int z)) [
  | inl h ↦ rw (stoi-to_string z, h, to_int) refl
  | inr h ↦ rw (stoi-to_string z, h, to_int) refl
]
