-- ===== src/MessageHandle/Copies/Tests.antt =====
-- The theorems on the headers of messages at a message with one header and a list of the caller.
use cppkafka.Prelude.{ℕ, ◌≡◌, ◌≢◌, refl, false, some, none, [], ◌∷◌, arith}
use cppkafka.Prelude.Bytes.{codes}
use cppkafka.Errors.{ok, is_error, resp_eq}
use cppkafka.Buffer.{make_buffer}
use cppkafka.ClonablePtr.{destroy}
use cppkafka.HeaderList.{HeaderList, make_non_owning, owning}
use cppkafka.MessageHandle.{
  Message, headers_of, with_buffers, with_results, of_handle, make_message, builder_headers,
  destroy_message, set_header_list, detach_header_list,
}
use cppkafka.MessageHandle.Copies.{
  Shows, HasLive, builder_headers-survives, set_header_list-Shows, detach_header_list-dangles,
}
use cppkafka.MessageHandle.Copies.Memory.{
  Memory, memory, contents, memory_laws, message_calls, message_laws,
}

abbrev start : Memory
start = record {
  lists =
      (1, record { name = codes "trace"; value = codes "1" } ∷ [])
      ∷ (9, record { name = codes "span"; value = codes "2" } ∷ [])
      ∷ [];
  owners = (4, 1) ∷ [];
}

-- The message 4, which has the list 1.
abbrev order : Message memory message_calls
order = record {
  handle = some 4;
  deleter = message_calls.message_destroy;
  payload = record { memory = some (codes "v"); size = 1 };
  key = record { memory = none; size = 0 };
  header_list = make_non_owning memory 1;
  user_data = 0;
  internal = none;
}

order_made : make_message memory message_calls (some 4) start ≡ (ok order, start)
unfolding make_message of_handle with_results with_buffers headers_of make_buffer is_error resp_eq
order_made = refl

builder_headers-survives_example :
    (list : HeaderList memory) × (env : Memory) × (builder_headers memory message_calls order start
      ≡ some (list, env))
    × Shows memory message_calls memory_laws message_laws list
        (contents 1 start)
        (destroy_message memory message_calls order env)
    × (order.header_list.handle ≡ some 1)
    × (memory_laws.live 1 (destroy_message memory message_calls order env) ≡ false)
builder_headers-survives_example =
    builder_headers-survives memory message_calls memory_laws message_laws 4 1 order start start
      refl refl order_made

order_live : HasLive memory message_calls memory_laws message_laws 4 start
order_live r e = ground (arith, e)

not_nine : message_laws.attached 4 start ≢ some 9
not_nine e = ground (arith, e)

set_header_list-Shows_example :
    (m : Message memory message_calls) × (env : Memory) × (q : ℕ) × (set_header_list memory
        message_calls
        (owning memory (some 9))
        order
        start
      ≡ some (m, env))
    × Shows memory message_calls memory_laws message_laws
        (owning memory (some 9))
        (contents 9 start)
        env
    × Shows memory message_calls memory_laws message_laws m.header_list
        (contents 9 start)
        (destroy (owning memory (some 9)) env)
    × (m.header_list.handle ≡ some q)
    × (message_laws.attached 4 (destroy (owning memory (some 9)) env) ≡ some q)
set_header_list-Shows_example =
    set_header_list-Shows memory message_calls memory_laws message_laws 4 9 order start refl
      order_live not_nine refl

detach_header_list-dangles_example :
    (list : HeaderList memory) × (env : Memory) × (detach_header_list memory message_calls order
        start
      ≡ some (list, env))
    × Shows memory message_calls memory_laws message_laws list
        (contents 1 start)
        (destroy_message memory message_calls order env)
    × (order.header_list.handle ≡ some 1)
    × (memory_laws.live 1 (destroy list env) ≡ false)
detach_header_list-dangles_example =
    detach_header_list-dangles memory message_calls memory_laws message_laws 4 1 order start start
      refl refl order_made
