-- ===== src/Producer/Tests.antt =====
-- The theorems on producers at a librdkafka that refuses empty payloads and counts.
use cppkafka.Prelude.{ℕ, suc, ◌≡◌, refl, none, some, [], if◌then◌else◌, length, ◌==◌}
use cppkafka.Prelude.Int.{pos}
use cppkafka.Prelude.Bytes.{codes}
use cppkafka.Errors.{no_error, no_offset, unknown, is_error, check_error}
use cppkafka.MessageBuilder.{MessageBuilder, new_builder}
use cppkafka.HeaderList.{Headers, owning}
use cppkafka.Producer.{Broker, parts_of_builder, produce, produce_moved}
use cppkafka.Producer.Ownership.{produce-owner}

-- The environment is the number of the next list.
abbrev headers : Headers
headers = record {
  Env = ℕ;
  headers_new = λ reserve env. (some env, suc env);
  headers_copy = λ p env. (some env, suc env);
  headers_destroy = λ p env. suc env;
  header_add = λ p n v env. (no_error, env);
  header_remove = λ p n env. (no_error, env);
  header_cnt = λ p env. 0;
  header_get_all = λ p i env. (no_offset, record { name = []; value = [] });
  err2str = λ e. codes "no header";
}

abbrev broker : Broker headers
broker = record {
  producev =
      λ parts policy p env. (if length parts.payload == 0 then unknown else no_error, suc env);
  poll = λ timeout env. (pos 0, env);
  flush = λ timeout env. (no_error, env);
  detach_headers = λ m env. ((no_error, 7), env);
}

abbrev builder : MessageBuilder
builder = new_builder (codes "orders")

produce-owner_example :
    let r = produce headers broker builder (owning headers (some 3)) 2 10 in
    let s = produce_moved headers broker builder (owning headers (some 3)) 2 10 in
    let (e, env₂) = broker.producev (parts_of_builder builder) 2 (some 10) 11 in
    let (e', env₃) = broker.producev (parts_of_builder builder) 2 (some 3) 10 in
    (r.given ≡ some 10)
    × (r.result ≡ check_error e)
    × (r.env ≡ (if is_error e then headers.headers_destroy 10 env₂ else env₂))
    × (s.given ≡ some 3)
    × (s.left.handle ≡ (if is_error e' then some 3 else none))
    × (s.env ≡ env₃)
produce-owner_example = produce-owner headers broker builder 3 10 2 10 11 refl
