-- ===== src/TopicPartitionList/Matches.antt =====
-- The conversions keep their lists, and `find_matches` finds the partitions of the topics
-- (src/topic_partition_list.cpp).
use cppkafka.Prelude.{
  ℕ, ◌+◌, leb, ◌==◌, length, ◌≡◌, ◌∙◌, refl, ap, ◌↔◌, Bool, true, false, ◌&&◌, ◌||◌, List, [], ◌∷◌,
  ◌++◌, All, arith, any, Bool-cases, inl, inr,
}
use cppkafka.Prelude.Int.{ℤ, eqb_ℤ}
use cppkafka.Prelude.Bytes.{Bytes}
use cppkafka.Errors.{RespErr, no_error, is_error, is_error_iff, Result, ok, throw, handle_exception}
use cppkafka.TopicPartition.{TopicPartition}
use cppkafka.TopicPartitionList.{
  Element, to_handle, of_handle, to_upper, equal_upper, same_topic, copies, find_topic_matches,
  find_id_matches, check_list, first_error,
}

-- A list that is converted to librdkafka's type and back is the same list, offsets included, and
-- passes `check_error` where the call itself reports no error.
pub of_handle-to_handle :
    (ps : List TopicPartition)
    → (of_handle (to_handle ps) ≡ ps) × (check_list no_error (to_handle ps) ≡ ok tt)
unfolding of_handle to_handle check_list is_error
of_handle-to_handle [] = (refl, refl)
of_handle-to_handle (p ∷ ps) =
    let (same, fine) = of_handle-to_handle ps in (ap (λ l. p ∷ l) same, fine)

any-append :
    {A : Type 0} (p : A → Bool) (xs ys : List A) → any p (xs ++ ys) ≡ (any p xs || any p ys)
any-append p [] ys = refl
any-append p (x ∷ xs) ys = ground (arith, any-append p xs ys)

any-copies :
    (f : TopicPartition → Bool) (p : TopicPartition) (topics : List Bytes)
    → any f (copies p topics) ≡ (f p && any (λ t. same_topic t p) topics)
unfolding copies
any-copies f p [] = ground arith
any-copies f p (t ∷ topics) = ground (arith, any-copies f p topics)

-- One letter in either case, or the same character.
abbrev pub same_letter : ℕ → ℕ → Bool
same_letter c d =
    (c == d)
    || ((leb 97 c && leb c 122 && (d + 32 == c)) || (leb 97 d && leb d 122 && (c + 32 == d)))

-- Names of one length with the same letters up to case.
abbrev pub same_name : Bytes → Bytes → Bool
same_name [] [] = true
same_name [] (y ∷ ys) = false
same_name (x ∷ xs) [] = false
same_name (x ∷ xs) (y ∷ ys) = same_letter x y && same_name xs ys

to_upper-same : (c d : ℕ) → (to_upper c == to_upper d) ≡ same_letter c d
unfolding to_upper
to_upper-same c d = ground arith

equal_upper-same : (xs ys : Bytes) → (length xs == length ys && equal_upper xs ys) ≡ same_name xs ys
unfolding equal_upper
equal_upper-same [] [] = refl
equal_upper-same [] (y ∷ ys) = ground arith
equal_upper-same (x ∷ xs) [] = ground arith
equal_upper-same (x ∷ xs) (y ∷ ys) = ground (arith, to_upper-same x y, equal_upper-same xs ys)

same_topic-same :
    (topic : Bytes) (p : TopicPartition) → same_topic topic p ≡ same_name topic p.topic
unfolding same_topic
same_topic-same topic p = equal_upper-same topic p.topic

any-same :
    (p : TopicPartition) (topics : List Bytes)
    → any (λ t. same_topic t p) topics ≡ any (λ t. same_name t p.topic) topics
any-same p [] = refl
any-same p (t ∷ topics) = rw (same_topic-same t p, any-same p topics) refl

-- `find_matches` finds a partition exactly where the list has it and one of the topics has the
-- length of its topic and the same characters but for the case of the letters a to z, or one of the
-- ids is its number: a test holds of some match exactly if it holds of some partition in the list
-- that matches.
pub find_matches-finds :
    (f : TopicPartition → Bool) (ps : List TopicPartition) (topics : List Bytes) (ids : List ℤ)
    → (any f (find_topic_matches ps topics)
        ≡ any (λ p. f p && any (λ t. same_name t p.topic) topics) ps)
      × (any f (find_id_matches ps ids) ≡ any (λ p. f p && any (λ id. eqb_ℤ id p.partition) ids) ps)
unfolding find_topic_matches find_id_matches
find_matches-finds f [] topics ids = (refl, refl)
find_matches-finds f (p ∷ ps) topics ids =
    let (by_topic, by_id) = find_matches-finds f ps topics ids in
    (
      any-append f (copies p topics) (find_topic_matches ps topics)
          ∙ rw (any-copies f p topics, any-same p topics, by_topic) refl,
      elim (Bool-cases (any (λ id. eqb_ℤ id p.partition) ids)) [
        | inl h ↦ rw (h, by_id) (ground arith)
        | inr h ↦ rw (h, by_id) (ground arith)
      ],
    )

thrown : (e : RespErr) → ◌≡◌ {A = Result (Unit {0})} (throw (handle_exception e)) (ok tt) → ⊥
thrown e h = cc

differ : {b : Bool} → b ≡ true → b ≡ false → ⊥
differ h k = cc

first_error_iff : (es : List Element) → (first_error es ≡ ok tt) ↔ All (λ x. x.err ≡ no_error) es
unfolding first_error
first_error_iff [] = (λ h. tt, λ h. refl)
first_error_iff (e ∷ es) = elim (Bool-cases (is_error e.err)) [
  | inl bad ↦
      rw bad (λ h. absurd (thrown e.err h), λ h. absurd (differ bad ((is_error_iff e.err).1 h.0)))
  | inr good ↦ rw good (
    λ h. ((is_error_iff e.err).0 good, (first_error_iff es).0 h),
    λ h. (first_error_iff es).1 h.1,
  )
]

-- `check_error` on a list passes exactly where neither the call nor any partition has an error.
pub check_list_iff :
    (e : RespErr) (es : List Element)
    → (check_list e es ≡ ok tt) ↔ ((e ≡ no_error) × All (λ x. x.err ≡ no_error) es)
unfolding check_list
check_list_iff e es = elim (Bool-cases (is_error e)) [
  | inl bad ↦ rw bad (λ h. absurd (thrown e h), λ h. absurd (differ bad ((is_error_iff e).1 h.0)))
  | inr good ↦
      rw good
        (λ h. ((is_error_iff e).0 good, (first_error_iff es).0 h), λ h. (first_error_iff es).1 h.1)
]
