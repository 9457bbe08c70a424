-- ===== src/BufferedProducer/Sent.antt =====
-- Messages that librdkafka accepts in their order, between two states of a buffered producer
-- (include/cppkafka/utils/buffered_producer.h).
use cppkafka.Prelude.{◌≡◌, ◌∙◌, sym, ap, List, [], ◌∷◌, ◌++◌, append_nil, append_assoc}
use cppkafka.MessageBuilder.{MessageBuilder}
use cppkafka.BufferedProducer.{BufferedProducer}
use cppkafka.BufferedProducer.Retries.{Frame}

-- `Subseq xs ys`: `xs` is `ys` with some elements left out, in the same order.
pub data Subseq {A : Type 0} : List A → List A → Type 0 where
  none_left : Subseq [] []
  skipped : {x : A} {xs ys : List A} → Subseq xs ys → Subseq xs (x ∷ ys)
  kept : {x : A} {xs ys : List A} → Subseq xs ys → Subseq (x ∷ xs) (x ∷ ys)

pub Subseq-append :
    {A : Type 0} {ws xs ys zs : List A} → Subseq ws xs → Subseq ys zs → Subseq (ws ++ ys) (xs ++ zs)
Subseq-append none_left s = s
Subseq-append (skipped r) s = skipped (Subseq-append r s)
Subseq-append (kept r) s = kept (Subseq-append r s)

Subseq-none : {A : Type 0} (ys : List A) → Subseq [] ys
Subseq-none [] = none_left
Subseq-none (y ∷ ys) = skipped (Subseq-none ys)

pub Subseq-more : {A : Type 0} {ws xs : List A} (ys : List A) → Subseq ws xs → Subseq ws (xs ++ ys)
Subseq-more ys none_left = Subseq-none ys
Subseq-more ys (skipped r) = skipped (Subseq-more ys r)
Subseq-more ys (kept r) = kept (Subseq-more ys r)

-- From `s` to `t` some of `bs` were accepted by librdkafka, in their order, and the queue of new
-- messages stayed as it was.
pub record Sent {E : Type 0} (bs : List MessageBuilder) (s t : BufferedProducer E) : Type 0 where
  pub accepted : List MessageBuilder
  pub in_order : Subseq accepted bs
  pub log : t.produced ≡ s.produced ++ accepted
  pub queue : t.messages ≡ s.messages

module _ {E : Type 0} where
  pub Sent-Frame : {s t : BufferedProducer E} → Frame s t → Sent [] s t
  Sent-Frame {s} {t} f = record {
    accepted = [];
    in_order = none_left;
    log = f.produced ∙ sym (append_nil s.produced);
    queue = f.messages;
  }

  pub Sent-append :
      {xs ys : List MessageBuilder} {s t u : BufferedProducer E}
      → Sent xs s t
      → Sent ys t u
      → Sent (xs ++ ys) s u
  Sent-append {s = s} f g = record {
    accepted = f.accepted ++ g.accepted;
    in_order = Subseq-append f.in_order g.in_order;
    log = g.log ∙ ap (λ l. l ++ g.accepted) f.log ∙ append_assoc s.produced f.accepted g.accepted;
    queue = g.queue ∙ f.queue;
  }

  pub Sent-skip : {b : MessageBuilder} {s t : BufferedProducer E} → Sent [] s t → Sent (b ∷ []) s t
  Sent-skip f = record {
    accepted = f.accepted;
    in_order = skipped f.in_order;
    log = f.log;
    queue = f.queue;
  }
