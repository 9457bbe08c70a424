-- ===== src/Producer/Ownership.antt =====
-- Who owns the headers after a call of `produce` (src/producer.cpp).
use cppkafka.Prelude.{ℕ, ◌≡◌, refl, none, some, if◌then◌else◌, Bool-cases, inl, inr}
use cppkafka.Errors.{RespErr, no_error, is_error, check_error}
use cppkafka.Message.{Message}
use cppkafka.MessageBuilder.{MessageBuilder}
use cppkafka.ClonablePtr.{copy_ptr, try_clone, clone_with, release, destroy, delete_old}
use cppkafka.HeaderList.{Headers, HeaderList, owning, make_non_owning}
use cppkafka.Producer.{
  Broker, parts_of_builder, parts_of_message, left_list, do_produce, drop_left, produce,
  produce_moved, produce_message,
}

module _ (lib : Headers) (broker : Broker lib) where
  -- After a message that is refused the list is destroyed once, after one that is taken it is not.
  destroy-left :
      (e : RespErr) (q : ℕ) (env : lib.Env)
      → destroy (left_list lib broker e (owning lib (some q))) env
        ≡ (if is_error e then lib.headers_destroy q env else env)
  unfolding left_list destroy delete_old release owning
  destroy-left e q env = elim (Bool-cases (is_error e)) [ inl h ↦ rw h refl | inr h ↦ rw h refl ]

  left-handle :
      (e : RespErr) (headers : HeaderList lib)
      → (left_list lib broker e headers).handle ≡ (if is_error e then headers.handle else none)
  unfolding left_list release
  left-handle e headers = elim (Bool-cases (is_error e)) [ inl h ↦ rw h refl | inr h ↦ rw h refl ]

  -- Producing a builder with headers that it owns: librdkafka is given a copy, which is destroyed
  -- exactly where the message is refused; when the builder is moved, librdkafka is given its own
  -- handle, which the builder keeps exactly where the message is refused, and nothing is destroyed.
  pub produce-owner :
      (b : MessageBuilder) (p q policy : ℕ) (env env₁ : lib.Env)
      → lib.headers_copy (some p) env ≡ (some q, env₁)
      → let r = produce lib broker b (owning lib (some p)) policy env in
        let s = produce_moved lib broker b (owning lib (some p)) policy env in
        let (e, env₂) = broker.producev (parts_of_builder b) policy (some q) env₁ in
        let (e', env₃) = broker.producev (parts_of_builder b) policy (some p) env in
        (r.given ≡ some q)
        × (r.result ≡ check_error e)
        × (r.env ≡ (if is_error e then lib.headers_destroy q env₂ else env₂))
        × (s.given ≡ some p)
        × (s.left.handle ≡ (if is_error e' then some p else none))
        × (s.env ≡ env₃)
  unfolding produce produce_moved do_produce drop_left copy_ptr try_clone owning clone_with
  produce-owner b p q policy env env₁ copied =
      rw copied (refl, refl, destroy-left _ q _, refl, left-handle _ (owning lib (some p)), refl)

  -- Producing a message takes the handle of the message itself: its list does not own the handle, so
  -- the copy of the list has the same one. Where librdkafka takes the message it owns the handle,
  -- and the message still has it.
  pub produce_message-shares :
      (m : Message) (p policy : ℕ) (env env' : lib.Env)
      → broker.producev (parts_of_message m) policy (some p) env ≡ (no_error, env')
      → let r = produce_message lib broker m (make_non_owning lib p) policy env in
        (r.given ≡ (make_non_owning lib p).handle) × (r.left.handle ≡ none) × (r.env ≡ env')
  unfolding produce_message do_produce drop_left copy_ptr try_clone clone_with make_non_owning
      is_error left_list release destroy delete_old check_error
  produce_message-shares m p policy env env' taken = rw taken (refl, refl, refl)
