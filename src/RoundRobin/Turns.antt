-- ===== src/RoundRobin/Turns.antt =====
-- The order in which `RoundRobinPollStrategy::poll` asks the partition queues
-- (src/utils/roundrobin_poll_strategy.cpp).
use cppkafka.Prelude.{
  ℕ, zero, suc, ◌≤◌, ◌<◌, ◌≡◌, ◌∙◌, refl, sym, ap, Option, none, some, List, [], ◌∷◌, ◌++◌, arith,
  ◌==◌, length, get_elem?, take, drop, Bool-cases, Option-cases, inl, inr, append_nil, append_assoc,
}
use cppkafka.Prelude.Int.{ℤ, pos}
use cppkafka.Prelude.OrderedMap.{OrderedMap}
use cppkafka.Message.{Message}
use cppkafka.TopicPartition.{TopicPartition}
use cppkafka.RoundRobin.{
  QueueSystem, Strategy, next_iter, get_next_queue, first_message, poll_loop, consume_events,
  or_else, poll,
}

module _ {A : Type 0} where
  some_inj : {x y : A} → some x ≡ some y → x ≡ y
  some_inj e = cc

  take-less : (n : ℕ) (xs ys : List A) → n ≤ length xs → take n (xs ++ ys) ≡ take n xs
  take-less zero xs ys h = refl
  take-less (suc n) [] ys h = absurd (omega arith)
  take-less (suc n) (x ∷ xs) ys h = ap (λ l. x ∷ l) (take-less n xs ys (omega arith))

  drop-at :
      (i : ℕ) (xs : List A)
      → i < length xs
      → (x : A) × (get_elem? xs i ≡ some x) × (drop i xs ≡ x ∷ drop (suc i) xs)
  drop-at i [] h = absurd (omega arith)
  drop-at zero (x ∷ xs) h = (x, refl, refl)
  drop-at (suc i) (x ∷ xs) h = drop-at i xs (omega arith)

  drop-all : (i : ℕ) (xs : List A) → length xs ≤ i → drop i xs ≡ []
  drop-all zero [] h = refl
  drop-all zero (x ∷ xs) h = absurd (omega arith)
  drop-all (suc i) [] h = refl
  drop-all (suc i) (x ∷ xs) h = drop-all i xs (omega arith)

  -- The cycle of the elements, from the one after position `i`.
  abbrev pub from : ℕ → List A → List A
  from i xs = drop (suc i) xs ++ xs

  -- The element that the cycle starts with.
  next_handle :
      (i : ℕ) (xs : List A)
      → i < length xs
      → (x : A) × (get_elem? xs (next_iter (length xs) i) ≡ some x)
  unfolding next_iter
  next_handle i [] h = absurd (omega arith)
  next_handle i (x ∷ xs) h = elim (Bool-cases (suc i == suc (length xs))) [
    | inl e ↦ rw e (x, refl)
    | inr e ↦ let (y, here, _) = drop-at i xs (ground arith) in rw e (y, here)
  ]

  turn :
      (n i : ℕ) (xs : List A) (x : A)
      → n < length xs
      → i < length xs
      → get_elem? xs (next_iter (length xs) i) ≡ some x
      → take (suc n) (from i xs) ≡ x ∷ take n (from (next_iter (length xs) i) xs)
  unfolding next_iter
  turn n i [] y h k = absurd (omega arith)
  turn n i (x ∷ xs) y h k = elim (Bool-cases (suc i == suc (length xs))) [
    | inl e ↦
        let at_end : drop i xs ≡ [] = drop-all i xs (ground arith) in
        rw (e, at_end, take-less n xs (x ∷ xs) (omega arith))
          (λ here. ap (λ z. z ∷ take n xs) (some_inj here))
    | inr e ↦
        let (z, there, rest) = drop-at i xs (ground arith) in
        rw (e, rest)
          (λ here. ap (λ w. w ∷ take n (drop (suc i) xs ++ x ∷ xs)) (some_inj (sym there ∙ here)))
  ]

  -- Both, where the length of the list has another name.
  next_handle_of :
      (l i : ℕ) (xs : List A)
      → l ≡ length xs
      → i < length xs
      → (x : A) × (get_elem? xs (next_iter l i) ≡ some x)
  next_handle_of l i xs e h = rw e (next_handle i xs h)

  turn_of :
      (l n i : ℕ) (xs : List A) (x : A)
      → l ≡ length xs
      → n < length xs
      → i < length xs
      → get_elem? xs (next_iter l i) ≡ some x
      → take (suc n) (from i xs) ≡ x ∷ take n (from (next_iter l i) xs)
  turn_of l n i xs x e h k = rw e (turn n i xs x h k)

-- The queues of the map, in its order.
abbrev pub handles : {H : Type 0} → OrderedMap TopicPartition H → List H
handles [] = []
handles ((p, q) ∷ m) = q ∷ handles m

length-handles : {H : Type 0} (m : OrderedMap TopicPartition H) → length (handles m) ≡ length m
length-handles [] = refl
length-handles ((p, q) ∷ m) = ap suc (length-handles m)

entry_at :
    {H : Type 0} (m : OrderedMap TopicPartition H) (i : ℕ) (h : H)
    → get_elem? (handles m) i ≡ some h
    → (p : TopicPartition) × (get_elem? m i ≡ some (p, h))
entry_at [] i h e = absurd cc
entry_at ((p, q) ∷ m) zero h e = (p, ground (arith, e))
entry_at ((p, q) ∷ m) (suc i) h e = entry_at m i h e

next_iter-bounded : (n i : ℕ) → i < n → next_iter n i < n
unfolding next_iter
next_iter-bounded n i h = ground arith

module _ (queues : QueueSystem) where
  -- What the loop did in at most `n` turns: it asked the next `k` queues of the cycle, all `n` of
  -- them if it found no message.
  abbrev pub Asked : ℕ → Strategy queues → Option Message × Strategy queues → Type 0
  Asked n s (m, t) =
      (k : ℕ) × (k ≤ n)
      × (t.asked ≡ s.asked ++ take k (from s.queue_iter (handles s.partition_queues)))
      × (m ≡ none → k ≡ n)

  -- The state after the queue `h` was asked.
  asking : queues.Handle → Strategy queues → Strategy queues
  asking h s = record s {
    queue_iter = next_iter (length s.partition_queues) s.queue_iter;
    env = (queues.consume h (pos 0) s.env).1;
    asked = s.asked ++ h ∷ [];
  }

  loop-step :
      (n : ℕ) (s : Strategy queues) (p : TopicPartition) (h : queues.Handle)
      → get_elem? s.partition_queues (next_iter (length s.partition_queues) s.queue_iter)
        ≡ some (p, h)
      → poll_loop queues (suc n) s
        ≡ first_message queues
            (queues.consume h (pos 0) s.env).0
            (asking h s)
            (poll_loop queues n (asking h s))
  unfolding poll_loop asking get_next_queue
  loop-step n s p h e = rw (e, poll_loop, get_next_queue) refl

  -- One turn, and then what the rest of the loop did.
  Asked-turn :
      (n : ℕ) (s : Strategy queues) (h : queues.Handle) (m : Option Message)
      (rest : Option Message × Strategy queues)
      → ((j : ℕ)
          → j ≤ n
          → take (suc j) (from s.queue_iter (handles s.partition_queues))
            ≡ h ∷ take j (from (asking h s).queue_iter (handles s.partition_queues)))
      → Asked n (asking h s) rest
      → Asked (suc n) s (first_message queues m (asking h s) rest)
  unfolding first_message asking
  Asked-turn n s h (some x) rest cycle a =
      (1, omega arith, rw (cycle 0 (omega arith)) refl, λ e. absurd cc)
  Asked-turn n s h none rest cycle (k, l, e, all) = (
    suc k,
    omega arith,
    e ∙ append_assoc s.asked (h ∷ []) _ ∙ ap (λ l. s.asked ++ l) (sym (cycle k l)),
    λ e. ap suc (all e),
  )

  loop-Asked :
      (n : ℕ) (s : Strategy queues)
      → s.queue_iter < length s.partition_queues
      → n ≤ length s.partition_queues
      → Asked n s (poll_loop queues n s)
  unfolding poll_loop asking
  loop-Asked zero s h l = (0, omega arith, sym (append_nil s.asked), λ e. refl)
  loop-Asked (suc n) s h l =
      let size = length s.partition_queues in
      let hs = handles s.partition_queues in
      let same = sym (length-handles s.partition_queues) in
      let (q, here) = next_handle_of size s.queue_iter hs same (omega arith) in
      let (p, entry) = entry_at s.partition_queues _ q here in
      rw (loop-step n s p q entry) (
        Asked-turn n s q _ _
          (λ j l'. turn_of size j s.queue_iter hs q same (omega arith) (omega arith) here)
          (loop-Asked n (asking q s) (next_iter-bounded size s.queue_iter h) (omega arith)))

  -- A poll whose loop has the state `t` behind it, and what the event queue answers then.
  Asked-last :
      (n : ℕ) (timeout : ℤ) (s : Strategy queues) (r : Option Message × Strategy queues)
      → Asked n s r
      → Asked n s (or_else queues r (consume_events queues timeout))
  unfolding or_else consume_events
  Asked-last n timeout s (some m, t) a = a
  Asked-last n timeout s (none, t) (k, l, e, all) = (k, l, e, λ _. all refl)

  -- With the iterator at one of the partition queues, one `poll` asks these queues in the cyclic
  -- order of the map, from the one after the iterator, and no queue twice; a poll that returns no
  -- message asked every one of them.
  pub poll-asks :
      (timeout : ℤ) (s : Strategy queues)
      → s.queue_iter < length s.partition_queues
      → Asked (length s.partition_queues) s (poll queues timeout s)
  unfolding poll consume_events
  poll-asks timeout s h = elim (Option-cases (queues.consume s.consumer_queue (pos 0) s.env).0) [
    | inl e ↦
        rw (e, or_else)
          (Asked-last _ timeout s _ (
            loop-Asked (length s.partition_queues)
              (record s { env = (queues.consume s.consumer_queue (pos 0) s.env).1 }) h
              (omega arith)))
    | inr (m, e) ↦ rw (e, or_else) (0, omega arith, sym (append_nil s.asked), λ x. absurd cc)
  ]
