-- ===== src/GroupInformation/Bounds.antt =====
-- When the parser of src/group_information.cpp reads past the end of its input. The test before a
-- topic name is read adds the size of the partition count to the bytes that are left, where it
-- means to add it to the bytes that are needed.
use cppkafka.Prelude.{
  ℕ, zero, suc, ◌+◌, ◌*◌, ◌≤◌, ◌<◌, ◌≡◌, ◌≢◌, ◌↔◌, inl, inr, refl, sym, ◌∙◌, List, [], ◌∷◌, ◌++◌,
  arith, ltb, lt→ltb, ltb-false, Bool-cases, length, take, drop, length-drop, if◌then◌else◌,
}
use cppkafka.Prelude.Bytes.{Bytes}
use cppkafka.TopicPartition.{TopicPartition, Constants, at_partition}
use cppkafka.GroupInformation.{
  Parsed, parsed, malformed, out_of_bounds, ◌>>=◌, read_u16, read_u32, read_text, to_int,
  parse_partitions, parse_topic, parse_topics, parse_assignment, MemberAssignment,
}

-- Four bytes are read from any input that has them, and from no other.
read_u32-long :
    (xs : Bytes)
    → 4 ≤ length xs
    → (n : ℕ) × (rest : Bytes) × (read_u32 xs ≡ parsed (n, rest)) × (length rest + 4 ≡ length xs)
unfolding read_u32
read_u32-long (a ∷ b ∷ c ∷ d ∷ rest) h = (_, rest, refl, omega arith)
read_u32-long [] h = absurd (omega arith)
read_u32-long (a ∷ []) h = absurd (omega arith)
read_u32-long (a ∷ b ∷ []) h = absurd (omega arith)
read_u32-long (a ∷ b ∷ c ∷ []) h = absurd (omega arith)

read_u32-short : (xs : Bytes) → length xs < 4 → read_u32 xs ≡ out_of_bounds
unfolding read_u32
read_u32-short [] h = refl
read_u32-short (a ∷ []) h = refl
read_u32-short (a ∷ b ∷ []) h = refl
read_u32-short (a ∷ b ∷ c ∷ []) h = refl
read_u32-short (a ∷ b ∷ c ∷ d ∷ rest) h = absurd (omega arith)

-- The inner loop stays within its input, which the code has measured.
parse_partitions_within :
    (k : Constants) (topic : Bytes) (n : ℕ) (xs : Bytes)
    → n * 4 ≤ length xs
    → (found : List TopicPartition) × (rest : Bytes) × (parse_partitions k topic n xs
        ≡ parsed (found, rest))
unfolding parse_partitions
parse_partitions_within k topic zero xs h = ([], xs, refl)
parse_partitions_within k topic (suc n) xs h =
    let (id, rest, e, l) = read_u32-long xs (omega arith) in
    let (found, rest', e') = parse_partitions_within k topic n rest (omega arith) in
    (at_partition k topic (to_int id) ∷ found, rest', rw (e, e'))

read_text-long :
    (n : ℕ) (xs : Bytes) → n ≤ length xs → read_text n xs ≡ parsed (take n xs, drop n xs)
unfolding read_text
read_text-long n xs h = rw (ltb-false (length xs) n h)

read_text-short : (n : ℕ) (xs : Bytes) → length xs < n → read_text n xs ≡ out_of_bounds
unfolding read_text
read_text-short n xs h = rw (lt→ltb (length xs) n h)

module _ (k : Constants) (a b : ℕ) (xs : Bytes) where
  abbrev topic_length : ℕ
  topic_length = a * 256 + b

  refused : length xs + 4 < topic_length → parse_topic k (a ∷ b ∷ xs) ≡ malformed
  unfolding parse_topic read_u16
  refused h = rw (lt→ltb (length xs + 4) topic_length h)

  overruns :
      topic_length ≤ length xs + 4
      → length xs < topic_length + 4
      → parse_topic k (a ∷ b ∷ xs) ≡ out_of_bounds
  unfolding parse_topic read_u16
  overruns h l =
      rw (ltb-false (length xs + 4) topic_length h)
        (elim (Bool-cases (ltb (length xs) topic_length)) [
          | inl short ↦ rw (read_text-short topic_length xs (ground arith))
          | inr long ↦ rw (
            read_text-long topic_length xs (ground arith),
            read_u32-short (drop topic_length xs) (ground (arith, length-drop topic_length xs)),
          )
        ])

  stays : topic_length + 4 ≤ length xs → parse_topic k (a ∷ b ∷ xs) ≢ out_of_bounds
  stays h e =
      let (n, rest, read, l) =
        read_u32-long (drop topic_length xs) (omega (arith, length-drop topic_length xs)) in
      let step : parse_topic k (a ∷ b ∷ xs) ≡ (
          if ltb (length rest) (n * 4)
          then malformed
          else parse_partitions k (take topic_length xs) n rest) =
        unfold parse_topic read_u16 in
        rw (
          ltb-false (length xs + 4) topic_length (omega arith),
          read_text-long topic_length xs (omega arith),
          read,
        ) in
      elim (Bool-cases (ltb (length rest) (n * 4))) [
        | inl short ↦ ground (arith, step)
        | inr long ↦
            let (found, after, e') =
              parse_partitions_within k (take topic_length xs) n rest (ground arith) in
            ground (arith, step, e')
      ]

  -- With a header of two bytes for the topic name's length and then `xs`, the parser reads past the
  -- end exactly when the name and the count after it do not fit, and the length is at most four
  -- more than what is left.
  pub parse_topic_overruns :
      (parse_topic k (a ∷ b ∷ xs) ≡ out_of_bounds)
      ↔ ((topic_length ≤ length xs + 4) × (length xs < topic_length + 4))
  parse_topic_overruns = (λ e. bounds e, λ h. overruns h.0 h.1)
    where
      bounds :
          parse_topic k (a ∷ b ∷ xs) ≡ out_of_bounds
          → (topic_length ≤ length xs + 4) × (length xs < topic_length + 4)
      bounds e = elim (Bool-cases (ltb (length xs + 4) topic_length)) [
        | inl h ↦ cc (refused (ground arith))
        | inr h ↦ elim (Bool-cases (ltb (length xs) (topic_length + 4))) [
          | inl l ↦ (ground arith, ground arith)
          | inr l ↦ absurd (stays (ground arith) e)
        ]
      ]

-- What the outer loop and the constructor do with the result for the only topic.
wrap : ℕ → List TopicPartition × Bytes → Parsed MemberAssignment
wrap version p = parsed (record { version = version; topic_partitions = p.0 ++ [] })

one_topic :
    (k : Constants) (v w a b : ℕ) (xs : Bytes)
    → parse_assignment k (v ∷ w ∷ 0 ∷ 0 ∷ 0 ∷ 1 ∷ a ∷ b ∷ xs)
      ≡ (parse_topic k (a ∷ b ∷ xs) >>= wrap (v * 256 + w))
unfolding parse_assignment parse_topics read_u16 read_u32 wrap
one_topic k v w a b xs =
    rw
      (
        ltb-false (length (v ∷ w ∷ 0 ∷ 0 ∷ 0 ∷ 1 ∷ a ∷ b ∷ xs)) 6 (omega arith),
        ltb-false (length (a ∷ b ∷ xs)) 2 (omega arith),
      )
      (assoc (parse_topic k (a ∷ b ∷ xs)))
  where
    assoc :
        (m : Parsed (List TopicPartition × Bytes))
        → ((m >>= λ p. parsed (p.0 ++ [])) >>= λ found.
            parsed (record { version = v * 256 + w; topic_partitions = found }))
          ≡ (m >>= wrap (v * 256 + w))
    assoc (parsed p) = refl
    assoc malformed = refl
    assoc out_of_bounds = refl

wrap-out_of_bounds :
    (version : ℕ) (m : Parsed (List TopicPartition × Bytes))
    → (m >>= wrap version) ≡ out_of_bounds
    → m ≡ out_of_bounds
unfolding wrap
wrap-out_of_bounds version (parsed p) e = cc
wrap-out_of_bounds version malformed e = cc
wrap-out_of_bounds version out_of_bounds e = refl

-- A member assignment of one topic, of any version, reads past the end of its vector exactly when
-- the topic's name and the partition count after it do not fit what is left of the vector, and the
-- announced name length is at most four more than what is left.
pub parse_assignment_overruns :
    (k : Constants) (v w a b : ℕ) (xs : Bytes)
    → (parse_assignment k (v ∷ w ∷ 0 ∷ 0 ∷ 0 ∷ 1 ∷ a ∷ b ∷ xs) ≡ out_of_bounds)
      ↔ ((a * 256 + b ≤ length xs + 4) × (length xs < a * 256 + b + 4))
parse_assignment_overruns k v w a b xs = (
  λ e.
      (parse_topic_overruns k a b xs).0
        (wrap-out_of_bounds (v * 256 + w) _ (sym (one_topic k v w a b xs) ∙ e)),
  λ h. one_topic k v w a b xs ∙ rw ((parse_topic_overruns k a b xs).1 h),
)
