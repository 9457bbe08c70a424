-- ===== src/Metadata/Filters.antt =====
-- The filters of `Metadata` over its topics (src/metadata.cpp).
use cppkafka.Prelude.{ℕ, suc, ◌≡◌, refl, false, List, [], ◌∷◌, arith, any, keep}
use cppkafka.Prelude.Bytes.{Bytes, bytes_eq}
use cppkafka.Metadata.{
  RawMetadata, RawTopic, make_topic, make_topics, get_topics, topics_in, get_topics_in, starts_with,
  find_from, is_zero, topics_prefixed, get_topics_prefixed,
}

find_from-later : (word text : Bytes) (i : ℕ) → is_zero (find_from word text (suc i)) ≡ false
unfolding find_from is_zero
find_from-later word [] i = ground arith
find_from-later word (y ∷ ys) i = ground (arith, find_from-later word ys (suc i))

-- A text is found at position 0 where it is a prefix.
find_from-starts_with :
    (word text : Bytes) → is_zero (find_from word text 0) ≡ starts_with word text
unfolding find_from is_zero
find_from-starts_with word [] = ground arith
find_from-starts_with word (y ∷ ys) = ground (arith, find_from-later word ys 0)

topics_in-keep :
    (names : List Bytes) (ts : List RawTopic)
    → topics_in names ts ≡ keep (λ t. any (λ name. bytes_eq name t.name) names) (make_topics ts)
unfolding topics_in make_topics make_topic
topics_in-keep names [] = refl
topics_in-keep names (t ∷ ts) = rw (topics_in-keep names ts) refl

topics_prefixed-keep :
    (prefix : Bytes) (ts : List RawTopic)
    → topics_prefixed prefix ts ≡ keep (λ t. starts_with prefix t.name) (make_topics ts)
unfolding topics_prefixed make_topics make_topic
topics_prefixed-keep prefix [] = refl
topics_prefixed-keep prefix (t ∷ ts) =
    rw (find_from-starts_with prefix t.topic, topics_prefixed-keep prefix ts) refl

-- Each filter gives the topics of `get_topics` that pass it, in their order: the ones whose name is
-- in the set, and the ones whose name starts with the prefix.
pub filters-keep :
    (names : List Bytes) (prefix : Bytes) (m : RawMetadata)
    → (get_topics_in names m ≡ keep (λ t. any (λ name. bytes_eq name t.name) names) (get_topics m))
      × (get_topics_prefixed prefix m ≡ keep (λ t. starts_with prefix t.name) (get_topics m))
unfolding get_topics get_topics_in get_topics_prefixed
filters-keep names prefix m = (topics_in-keep names m.topics, topics_prefixed-keep prefix m.topics)
