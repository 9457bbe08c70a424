-- ===== src/MessageInternal/Handover.antt =====
-- The messages that librdkafka has, against a list of what they carry.
use cppkafka.Prelude.{
  ℕ, suc, ◌≡◌, refl, ap, true, false, Option, none, some, List, [], ◌∷◌, ◌++◌, arith, if◌then◌else◌,
  is_some, inl, inr, Option-cases,
}
use cppkafka.MessageBuilder.{MessageBuilder}
use cppkafka.MessageInternal.Cells.{
  Ascends, pointers, contents, Ascends-append, Ascends-upper, Taken, taken, erase-last, map-append,
}
use cppkafka.MessageInternal.{
  MessageInternal, Private, object, Heap, World, Op, sends, reports, delete_object, guard,
  leave_guard, load, take_at, send, report, run,
}

-- The messages that librdkafka has as what they carry, and what the reports were given.
pub record Carried : Type 0 where
  pub held : List MessageInternal
  pub returned : List MessageInternal

unfoldable pub carries : MessageBuilder → MessageInternal
carries b = record { user_data = b.user_data; internal = b.internal }

unfoldable pub carry : Op → Carried → Carried
unfolding carries take_at
carry (sends accepted b) c = if accepted then record c { held = c.held ++ carries b ∷ [] } else c
carry (reports i) c = elim (take_at i c.held) [
  | none ↦ c
  | some (m, rest) ↦ record { held = rest; returned = c.returned ++ m ∷ [] }
]

unfoldable pub carry_all : List Op → Carried → Carried
unfolding carry
carry_all [] c = c
carry_all (op ∷ ops) c = carry_all ops (carry op c)

-- The messages that are sent have a tracker.
abbrev pub AllTracked : List Op → Type 0
AllTracked [] = Unit
AllTracked (sends accepted b ∷ ops) = (is_some b.internal ≡ true) × AllTracked ops
AllTracked (reports i ∷ ops) = AllTracked ops

-- The world with these objects, each of them of one message, and what its messages carry.
world : List (ℕ × MessageInternal) → ℕ → List MessageInternal → World
world cells next given = record {
  heap = record { cells = cells; next = next };
  sent = pointers cells;
  given = given;
}

carried_by : List (ℕ × MessageInternal) → List MessageInternal → Carried
carried_by cells given = record { held = contents cells; returned = given }

-- A run ends, with one object for each message that librdkafka has.
abbrev pub Agrees : Option World → Carried → Type 0
Agrees o c =
    (w : World) × (o ≡ some w)
    × (contents w.heap.cells ≡ c.held)
    × (w.sent ≡ pointers w.heap.cells)
    × (w.given ≡ c.returned)

-- The object of a message that is sent.
stored : MessageBuilder → Heap → Private × Heap
stored b heap = (
  object heap.next,
  record { cells = heap.cells ++ (heap.next, carries b) ∷ []; next = suc heap.next },
)

guard-stored :
    (b : MessageBuilder) (heap : Heap) → is_some b.internal ≡ true → guard b heap ≡ stored b heap
unfolding guard stored carries
guard-stored b heap h = elim (Option-cases b.internal) [
  | inl e ↦ ground arith
  | inr (t, e) ↦ rw (e, guard) refl
]

send-accepted :
    (b : MessageBuilder) (cells : List (ℕ × MessageInternal)) (next : ℕ)
    (given : List MessageInternal)
    → is_some b.internal ≡ true
    → (send true b (world cells next given)
        ≡ world (cells ++ (next, carries b) ∷ []) (suc next) given)
      × (carry (sends true b) (carried_by cells given)
          ≡ carried_by (cells ++ (next, carries b) ∷ []) given)
unfolding send stored world carried_by carry
send-accepted b cells next given h =
    let heap : Heap = record { cells = cells; next = next } in
    (
      rw
          (
            guard-stored b heap h,
            map-append (λ (c : ℕ × MessageInternal). object c.0) cells (next, carries b),
          )
          refl,
      rw (map-append (λ (c : ℕ × MessageInternal). c.1) cells (next, carries b)) refl,
    )

send-refused :
    (b : MessageBuilder) (cells : List (ℕ × MessageInternal)) (next : ℕ)
    (given : List MessageInternal)
    → is_some b.internal ≡ true
    → Ascends 0 cells next
    → send false b (world cells next given) ≡ world cells (suc next) given
unfolding send stored world leave_guard delete_object
send-refused b cells next given h up =
    let heap : Heap = record { cells = cells; next = next } in
    rw (guard-stored b heap h, erase-last 0 next cells (carries b) up) refl

report-given :
    (i next : ℕ) (cells : List (ℕ × MessageInternal)) (given : List MessageInternal)
    (t : Taken i 0 next cells)
    → (report i (world cells next given) ≡ some (world t.rest next (given ++ t.m ∷ [])))
      × (carry (reports i) (carried_by cells given) ≡ carried_by t.rest (given ++ t.m ∷ []))
unfolding report load world carried_by carry delete_object
report-given i next cells given t =
    (rw (t.pointed, t.found, t.erased, report, load) refl, rw (t.carried, carry) refl)

report-none :
    (i next : ℕ) (cells : List (ℕ × MessageInternal)) (given : List MessageInternal)
    → take_at i (pointers cells) ≡ none
    → take_at i (contents cells) ≡ none
    → (report i (world cells next given) ≡ some (world cells next given))
      × (carry (reports i) (carried_by cells given) ≡ carried_by cells given)
unfolding report world carried_by carry
report-none i next cells given a b = (rw (a, report) refl, rw (b, carry) refl)

Agrees-of : {o o' : Option World} {c c' : Carried} → o ≡ o' → c ≡ c' → Agrees o' c' → Agrees o c
Agrees-of e f h = rw (e, f) h

run-report :
    (i : ℕ) (ops : List Op) (w w' : World)
    → report i w ≡ some w'
    → run (reports i ∷ ops) w ≡ run ops w'
unfolding run
run-report i ops w w' e = rw (e, run) refl

run-Agrees :
    (ops : List Op) (cells : List (ℕ × MessageInternal)) (next : ℕ) (given : List MessageInternal)
    → AllTracked ops
    → Ascends 0 cells next
    → Agrees (run ops (world cells next given)) (carry_all ops (carried_by cells given))
unfolding run carry_all world carried_by
run-Agrees [] cells next given all up = (world cells next given, refl, refl, refl, refl)
run-Agrees (sends true b ∷ ops) cells next given (h, all) up =
    let (e, f) = send-accepted b cells next given h in
    Agrees-of (ap (run ops) e) (ap (carry_all ops) f)
      (run-Agrees ops _ (suc next) given all (Ascends-append 0 cells next (carries b) up))
run-Agrees (sends false b ∷ ops) cells next given (h, all) up =
    Agrees-of (ap (run ops) (send-refused b cells next given h up)) refl
      (run-Agrees ops cells (suc next) given all (Ascends-upper 0 next cells up))
run-Agrees (reports i ∷ ops) cells next given all up = elim (taken i 0 next cells up) [
  | inl (a, b) ↦
      let (e, f) = report-none i next cells given a b in
      Agrees-of (run-report i ops _ _ e) (ap (carry_all ops) f)
        (run-Agrees ops cells next given all up)
  | inr t ↦
      let (e, f) = report-given i next cells given t in
      Agrees-of (run-report i ops _ _ e) (ap (carry_all ops) f)
        (run-Agrees ops t.rest next (given ++ t.m ∷ []) all t.ascends)
]

abbrev pub empty_world : World
empty_world = record { heap = record { cells = []; next = 1 }; sent = []; given = [] }

abbrev pub nothing_carried : Carried
nothing_carried = record { held = []; returned = [] }

-- Where every message that is sent has a tracker, any sends, taken or refused, and any reports of
-- the messages that librdkafka has, in any order: no report reads or deletes an object that is not
-- there, each is given the user data and the tracker of its own message, and the objects that are
-- not deleted are those of the messages that librdkafka still has, one for each.
pub run-carries :
    (ops : List Op) → AllTracked ops → Agrees (run ops empty_world) (carry_all ops nothing_carried)
unfolding world carried_by
run-carries ops all = run-Agrees ops [] 1 [] all (omega arith)
