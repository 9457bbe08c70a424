-- ===== src/BufferedProducer/Interleaving/Conservation.antt =====
-- Where the messages are that several threads hand to a buffered producer.
use cppkafka.Prelude.{
  ℕ, zero, suc, ◌+◌, ◌≡◌, refl, ap, some, List, [], ◌∷◌, ◌++◌, get_elem?, set, arith,
}
use cppkafka.MessageBuilder.{MessageBuilder}
use cppkafka.BufferedProducer.Interleaving.{
  Shared, Place, outside, sending, flushing_retries, flushing_messages, clearing, push, swap_queues,
  Fate, fine, again, lost, sent, reported, World, Move, add, begin_send, end_send, begin_flush,
  flush_retry, next_queue, flush_message, end_flush, clear_messages, clear_retries, Step, move,
  report, begin, AllOutside, Reach, here, next,
}

module _ (weight : MessageBuilder → ℕ) where
  abbrev pub weigh : List MessageBuilder → ℕ
  weigh [] = 0
  weigh (b ∷ bs) = weight b + weigh bs

  weigh-append : (xs ys : List MessageBuilder) → weigh (xs ++ ys) ≡ weigh xs + weigh ys
  weigh-append [] ys = omega arith
  weigh-append (x ∷ xs) ys = omega (arith, weigh-append xs ys)

  -- The message or the temporary queue of a thread.
  abbrev pub holds : Place → List MessageBuilder
  holds outside = []
  holds (sending b) = b ∷ []
  holds (flushing_retries queue) = queue
  holds (flushing_messages queue) = queue
  holds clearing = []

  abbrev pub held : List Place → ℕ
  held [] = 0
  held (p ∷ ps) = weigh (holds p) + held ps

  held-set :
      (ps : List Place) (i : ℕ) (p q : Place)
      → get_elem? ps i ≡ some p
      → held (set ps i q) + weigh (holds p) ≡ held ps + weigh (holds q)
  held-set [] i p q h = cc
  held-set (r ∷ ps) zero p q h = ground (arith, h)
  held-set (r ∷ ps) (suc i) p q h = ground (arith, held-set ps i p q h)

  -- All that is shared but what was handed in.
  abbrev pub kept : Shared → ℕ
  kept s =
      weigh s.messages
      + weigh s.retry_messages
      + weigh s.in_flight
      + weigh s.delivered
      + weigh s.dropped
      + weigh s.cleared

  sent-weigh :
      (f : Fate) (b : MessageBuilder) (s : Shared)
      → (kept (sent f b s) ≡ kept s + weight b) × ((sent f b s).handed_in ≡ s.handed_in)
  unfolding sent push
  sent-weigh fine b s = (omega (arith, weigh-append s.in_flight (b ∷ [])), refl)
  sent-weigh again b s = (omega (arith, weigh-append s.retry_messages (b ∷ [])), refl)
  sent-weigh lost b s = (omega (arith, weigh-append s.dropped (b ∷ [])), refl)

  reported-weigh :
      (f : Fate) (b : MessageBuilder) (s : Shared)
      → (kept (reported f b s) ≡ kept s + weight b) × ((reported f b s).handed_in ≡ s.handed_in)
  unfolding reported push
  reported-weigh fine b s = (omega (arith, weigh-append s.delivered (b ∷ [])), refl)
  reported-weigh again b s = (omega (arith, weigh-append s.retry_messages (b ∷ [])), refl)
  reported-weigh lost b s = (omega (arith, weigh-append s.dropped (b ∷ [])), refl)

  -- A move puts every message that it takes or is given in one place.
  Move-weigh :
      {s t : Shared} {p q : Place}
      → Move s p t q
      → kept t + weigh (holds q) + weigh s.handed_in ≡ kept s + weigh (holds p) + weigh t.handed_in
  unfolding push swap_queues
  Move-weigh {s} (add b) =
      omega (arith, weigh-append s.messages (b ∷ []), weigh-append s.handed_in (b ∷ []))
  Move-weigh {s} (begin_send b) = omega (arith, weigh-append s.handed_in (b ∷ []))
  Move-weigh {s} (end_send f b) = let (e, h) = sent-weigh f b s in omega (arith, e, ap weigh h)
  Move-weigh {s} begin_flush = omega arith
  Move-weigh {s} (flush_retry f b queue) =
      let (e, h) = sent-weigh f b s in omega (arith, e, ap weigh h)
  Move-weigh {s} next_queue = omega arith
  Move-weigh {s} (flush_message f b queue) =
      let (e, h) = sent-weigh f b s in omega (arith, e, ap weigh h)
  Move-weigh {s} end_flush = refl
  Move-weigh {s} clear_messages = omega (arith, weigh-append s.cleared s.messages)
  Move-weigh {s} clear_retries = omega (arith, weigh-append s.cleared s.retry_messages)

  Step-weigh :
      {v w : World}
      → Step v w
      → kept v.shared + held v.threads ≡ weigh v.shared.handed_in
      → kept w.shared + held w.threads ≡ weigh w.shared.handed_in
  Step-weigh {v} (move i {p} {q} e m) h = omega (arith, Move-weigh m, held-set v.threads i p q e, h)
  Step-weigh {v} (report f b before after e) h =
      let s = record v.shared { in_flight = before ++ after } in
      let (k, same) = reported-weigh f b s in
      omega (
        arith,
        k,
        ap weigh same,
        ap weigh e,
        weigh-append before (b ∷ after),
        weigh-append before after,
        h,
      )

  held-outside : (ps : List Place) → AllOutside ps → held ps ≡ 0
  held-outside [] all = refl
  held-outside (p ∷ ps) (e, all) = rw e (omega (arith, held-outside ps all))

  pub Reach-weigh :
      {w : World} → Reach w → kept w.shared + held w.threads ≡ weigh w.shared.handed_in
  unfolding begin
  Reach-weigh (here threads all) = omega (arith, held-outside threads all)
  Reach-weigh (next r s) = Step-weigh s (Reach-weigh r)

  -- Once no thread is inside and the queues and librdkafka are empty, each message that was handed in
  -- was delivered, dropped or cleared, once.
  pub Reach-settled :
      {w : World}
      → Reach w
      → AllOutside w.threads
      → w.shared.messages ≡ []
      → w.shared.retry_messages ≡ []
      → w.shared.in_flight ≡ []
      → weigh w.shared.delivered + weigh w.shared.dropped + weigh w.shared.cleared
        ≡ weigh w.shared.handed_in
  Reach-settled {w} r all e f g =
      omega (arith, Reach-weigh r, held-outside w.threads all, ap weigh e, ap weigh f, ap weigh g)
