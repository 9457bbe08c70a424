-- ===== src/Configuration/Options.antt =====
-- Options that are set and read back, and the map of all options
-- (include/cppkafka/configuration_base.h).
use cppkafka.Prelude.{
  ◌≡◌, refl, Bool, true, false, Option, none, some, List, [], ◌∷◌, arith, if◌then◌else◌,
}
use cppkafka.Prelude.Bytes.{
  Bytes, bytes_eq, bytes_lt, bytes_lt_irrefl, bytes_lt_trans, bytes_lt_connected,
}
use cppkafka.Prelude.Order.{equiv, StrictWeakOrder}
use cppkafka.Prelude.OrderedMap.{OrderedMap, find, assign, find-assign}
use cppkafka.Errors.{ok}
use cppkafka.Configuration.{
  Conf, text_of, to_bool, parse_dump, parse_dump_into, set_option, set_bool, get_option, get_bool,
}

to_bool-text_of : (b : Bool) → to_bool (text_of b) ≡ ok b
unfolding to_bool bytes_eq
to_bool-text_of true = refl
to_bool-text_of false = refl

-- Where librdkafka's object accepts an option and gives its text back, a `bool` that is set is the
-- `bool` that is read.
pub get_bool-set_bool :
    (conf : Conf) (name : Bytes) (b : Bool) (env env' : conf.Env)
    → conf.conf_set name (text_of b) env ≡ (none, env')
    → conf.conf_get name env' ≡ some (text_of b)
    → (set_bool conf name b env ≡ (ok tt, env')) × (get_bool conf name env' ≡ ok b)
unfolding set_bool set_option get_bool get_option
get_bool-set_bool conf name b env env' set kept = rw (set, kept) (refl, to_bool-text_of b)

equal_of_equiv : (a b : Bytes) → equiv bytes_lt a b ≡ true → a ≡ b
equal_of_equiv a b h = bytes_lt_connected a b (ground arith) (ground arith)

bytes_lt-StrictWeakOrder : StrictWeakOrder bytes_lt
bytes_lt-StrictWeakOrder = record {
  irrefl = bytes_lt_irrefl;
  trans = bytes_lt_trans;
  equiv_trans = λ a b c h k. rw (equal_of_equiv a b h) k;
}

-- A dump of options, key and value in turn.
abbrev pub flatten : List (Bytes × Bytes) → List Bytes
flatten [] = []
flatten ((k, v) ∷ options) = k ∷ v ∷ flatten options

-- The last value of a key, or the one from before.
abbrev pub last_value : Bytes → List (Bytes × Bytes) → Option Bytes → Option Bytes
last_value x [] before = before
last_value x ((k, v) ∷ options) before =
    last_value x options (if equiv bytes_lt k x then some v else before)

into-last :
    (x : Bytes) (options : List (Bytes × Bytes)) (m : OrderedMap Bytes Bytes)
    → (n : OrderedMap Bytes Bytes) × (parse_dump_into m (flatten options) ≡ some n)
      × (find bytes_lt x n ≡ last_value x options (find bytes_lt x m))
unfolding parse_dump_into
into-last x [] m = (m, refl, refl)
into-last x ((k, v) ∷ options) m =
    let (n, parsed, last) = into-last x options (assign bytes_lt k v m) in
    (n, parsed, rw (← find-assign bytes_lt-StrictWeakOrder k x v m) last)

-- A dump of any list of options parses, without a read past its end, to a map that looks every key
-- up to its last value in the list, and every other key to nothing.
pub parse_dump-last :
    (x : Bytes) (options : List (Bytes × Bytes))
    → (n : OrderedMap Bytes Bytes) × (parse_dump (flatten options) ≡ some n)
      × (find bytes_lt x n ≡ last_value x options none)
unfolding parse_dump find
parse_dump-last x options = into-last x options []
