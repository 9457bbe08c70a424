-- ===== src/MessageInternal.antt =====
-- How a message carries its tracker through librdkafka: include/cppkafka/message_internal.h,
-- src/message_internal.cpp, and `load_internal` of src/message.cpp.
mod Cells
pub mod Handover
mod Tests
use cppkafka.Prelude.{
  ℕ, zero, suc, ◌+◌, Bool, true, false, Option, none, some, List, [], ◌∷◌, ◌++◌, ◌==◌,
  if◌then◌else◌,
}
use cppkafka.MessageBuilder.{MessageBuilder}

-- `MessageInternal`; a null pointer of the application is 0.
pub record MessageInternal : Type 0 where
  pub user_data : ℕ
  pub internal : Option ℕ

-- The private pointer of a message of librdkafka: one of the application, or to an object of this
-- class.
pub data Private : Type 0 where
  user : ℕ → Private
  object : ℕ → Private

-- The pointer as it is stored, which does not tell what it points to.
unfoldable pub address : Private → ℕ
address (user u) = u
address (object p) = p

-- The objects that are not deleted, by their addresses, of which 0, the null pointer, is none; and
-- the next address.
pub record Heap : Type 0 where
  pub cells : List (ℕ × MessageInternal)
  pub next : ℕ

unfoldable pub lookup : ℕ → List (ℕ × MessageInternal) → Option MessageInternal
lookup p [] = none
lookup p ((q, m) ∷ cells) = if q == p then some m else lookup p cells

unfoldable pub erase : ℕ → List (ℕ × MessageInternal) → List (ℕ × MessageInternal)
erase p [] = []
erase p ((q, m) ∷ cells) = if q == p then cells else (q, m) ∷ erase p cells

-- `delete`.
unfoldable pub delete_object : ℕ → Heap → Heap
delete_object p heap = record heap { cells = erase p heap.cells }

-- The constructor of `MessageInternalGuard`: what it makes the user data of the builder.
unfoldable pub guard : MessageBuilder → Heap → Private × Heap
guard b heap = elim b.internal [
  | none ↦ (user b.user_data, heap)
  | some t ↦ (
    object heap.next,
    record {
      cells = heap.cells ++ (heap.next, record { user_data = b.user_data; internal = some t }) ∷ [];
      next = suc heap.next;
    },
  )
]

-- The destructor of a guard that was not released.
unfoldable pub leave_guard : Private → Heap → Heap
unfolding delete_object
leave_guard (user u) heap = heap
leave_guard (object p) heap = delete_object p heap

-- `MessageInternal::load(message)->get_internal()`, and the end of the expression, which deletes the
-- object. The cast does not look at what the pointer is: it is undefined, `none`, where there is no
-- object of this class at the address.
unfoldable pub load : Private → Heap → Option (MessageInternal × Heap)
unfolding address lookup delete_object
load p heap = elim (lookup (address p) heap.cells) [
  | none ↦ none
  | some m ↦ some (m, delete_object (address p) heap)
]

-- The `i`-th of a list, and the others.
unfoldable pub take_at {ℓ} : {A : Type ℓ} → ℕ → List A → Option (A × List A)
take_at i [] = none
take_at zero (x ∷ xs) = some (x, xs)
take_at (suc i) (x ∷ xs) =
    let rest = take_at i xs in elim rest [ none ↦ none | some (y, ys) ↦ some (y, x ∷ ys) ]

-- The objects, the private pointers of the messages that librdkafka has, and what their reports
-- were given.
pub record World : Type 0 where
  pub heap : Heap
  pub sent : List Private
  pub given : List MessageInternal

-- A turn of `produce_message`: librdkafka takes the message, and the guard is released, or not.
unfoldable pub send : Bool → MessageBuilder → World → World
unfolding guard leave_guard
send accepted b w =
    let (p, heap) = guard b w.heap in
    if accepted
    then record w { heap = heap; sent = w.sent ++ p ∷ [] }
    else record w { heap = leave_guard p heap }

-- A delivery report with retries on: of the `i`-th message that librdkafka has, if there is one.
unfoldable pub report : ℕ → World → Option World
unfolding load
report i w = elim (take_at i w.sent) [
  | none ↦ some w
  | some (p, rest) ↦ elim (load p w.heap) [
    | none ↦ none
    | some (m, heap) ↦ some (record { heap = heap; sent = rest; given = w.given ++ m ∷ [] })
  ]
]

pub data Op : Type 0 where
  sends : Bool → MessageBuilder → Op
  reports : ℕ → Op

unfoldable pub run : List Op → World → Option World
unfolding send report
run [] w = some w
run (sends accepted b ∷ ops) w = run ops (send accepted b w)
run (reports i ∷ ops) w = elim (report i w) [ none ↦ none | some w' ↦ run ops w' ]
