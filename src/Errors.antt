-- ===== src/Errors.antt =====
-- Errors and exceptions: src/error.cpp, src/exceptions.cpp and `KafkaHandleBase::check_error` of
-- src/kafka_handle_base.cpp. A call that may throw returns a `Result`.

mod Tests
use cppkafka.Prelude.{
  ℕ, zero, suc, ◌+◌, ◌/◌, ◌%◌, ◌≡◌, refl, ap, ◌↔◌, Bool, true, false, not, Option, none, some, List,
  [], ◌∷◌, ◌++◌, arith, ◌==◌, ==_iff, ltb, if◌then◌else◌, ◌⊎◌, inl, inr,
}
use cppkafka.Prelude.Int.{ℤ, pos, negsuc}
use cppkafka.Prelude.Bytes.{Bytes, codes}

-- `rd_kafka_resp_err_t`: the codes that the program names, and the others.
pub data RespErr : Type 0 where
  no_error partition_eof queue_full timed_out no_offset : RespErr
  assign_partitions revoke_partitions state unknown : RespErr
  other : ℕ → RespErr

abbrev tag : RespErr → ℕ
tag no_error = 0
tag partition_eof = 1
tag queue_full = 2
tag timed_out = 3
tag no_offset = 4
tag assign_partitions = 5
tag revoke_partitions = 6
tag state = 7
tag unknown = 8
tag (other n) = suc (suc (suc (suc (suc (suc (suc (suc (suc n))))))))

-- `Error::operator==`.
unfoldable pub resp_eq : RespErr → RespErr → Bool
resp_eq a b = tag a == tag b

untag : ℕ → RespErr
untag zero = no_error
untag (suc zero) = partition_eof
untag (suc (suc zero)) = queue_full
untag (suc (suc (suc zero))) = timed_out
untag (suc (suc (suc (suc zero)))) = no_offset
untag (suc (suc (suc (suc (suc zero))))) = assign_partitions
untag (suc (suc (suc (suc (suc (suc zero)))))) = revoke_partitions
untag (suc (suc (suc (suc (suc (suc (suc zero))))))) = state
untag (suc (suc (suc (suc (suc (suc (suc (suc zero)))))))) = unknown
untag (suc (suc (suc (suc (suc (suc (suc (suc (suc n))))))))) = other n

untag-tag : (e : RespErr) → untag (tag e) ≡ e
unfolding untag
untag-tag no_error = refl
untag-tag _ = refl

pub resp_eq_iff : (a b : RespErr) → (resp_eq a b ≡ true) ↔ (a ≡ b)
unfolding resp_eq
resp_eq_iff a b =
    (λ h. rw (← untag-tag a, (==_iff _ _).0 h) (untag-tag b), λ h. rw h (ground arith))

-- `Error::operator bool`: whether there is an error.
unfoldable pub is_error : RespErr → Bool
unfolding resp_eq
is_error e = not (resp_eq e no_error)

pub is_error_iff : (e : RespErr) → (is_error e ≡ false) ↔ (e ≡ no_error)
unfolding is_error
is_error_iff no_error = (λ h. refl, λ h. refl)
is_error_iff (other n) = (λ h. ground arith, λ h. ground arith)
is_error_iff _ = (λ h. cc, λ h. cc)

-- The exception classes, by what each of their constructors is given.
pub data Exception : Type 0 where
  exception : Bytes → Exception
  config_exception : Bytes → Bytes → Exception
  config_option_not_found : Bytes → Exception
  invalid_config_option_type : Bytes → Bytes → Exception
  element_not_found : Bytes → Bytes → Exception
  parse_exception : Bytes → Exception
  unexpected_version : ℕ → Exception
  handle_exception consumer_exception queue_exception : RespErr → Exception
  action_terminated : Bytes → Exception

-- `std::to_string` of a number, digit by digit; the fuel `suc n` is enough, for `n / 10 < n`.
unfoldable pub decimal_loop : ℕ → ℕ → Bytes → Bytes
decimal_loop zero n acc = acc
decimal_loop (suc f) n acc =
    let more = decimal_loop f (n / 10) ((n % 10 + 48) ∷ acc) in
    if ltb n 10 then (n + 48) ∷ acc else more

unfoldable pub decimal : ℕ → Bytes
unfolding decimal_loop
decimal n = decimal_loop (suc n) n []

unfoldable pub to_string : ℤ → Bytes
unfolding decimal
to_string (pos n) = decimal n
to_string (negsuc n) = 45 ∷ decimal (suc n)

-- `what()` of each class; `err2str` is librdkafka's `rd_kafka_err2str`.
pub what : (RespErr → Bytes) → Exception → Bytes
unfolding decimal
what err2str (exception message) = message
what err2str (config_exception name error) = codes "Failed to set " ++ name ++ codes ": " ++ error
what err2str (config_option_not_found name) = name ++ codes " not found"
what err2str (invalid_config_option_type name type) =
    name ++ codes " could not be converted to " ++ type
what err2str (element_not_found type name) =
    codes "Could not find " ++ type ++ codes " for " ++ name
what err2str (parse_exception message) = message
what err2str (unexpected_version version) = codes "Unexpected version " ++ decimal version
what err2str (handle_exception e) = err2str e
what err2str (consumer_exception e) = err2str e
what err2str (queue_exception e) = err2str e
what err2str (action_terminated message) = message

pub data Result {ℓ} (A : Type ℓ) : Type ℓ where
  ok : A → Result A
  throw : Exception → Result A

infixl 5 ◌>>=◌ ◌>>◌
abbrev pub ◌>>=◌ {ℓ κ} : {A : Type ℓ} {B : Type κ} → Result A → (A → Result B) → Result B
ok a >>= f = f a
throw e >>= f = throw e

abbrev pub ◌>>◌ {ℓ} : {B : Type ℓ} → Result (Unit {0}) → Result B → Result B
m >> k = m >>= λ _. k

-- The next call on a shared state, unless the last one threw.
abbrev pub then_run {ℓ} :
    {S : Type ℓ} {A B : Type 0} → Result A × S → (A → S → Result B × S) → Result B × S
then_run (ok a, s) f = f a s
then_run (throw e, s) f = (throw e, s)

-- `KafkaHandleBase::check_error(error)`.
unfoldable pub check_error : RespErr → Result (Unit {0})
unfolding is_error
check_error e = if is_error e then throw (handle_exception e) else ok tt

pub Result-cases {ℓ} :
    {A : Type ℓ} (r : Result A) → ((a : A) × (r ≡ ok a)) ⊎ ((e : Exception) × (r ≡ throw e))
Result-cases (ok a) = inl (a, refl)
Result-cases (throw e) = inr (e, refl)
