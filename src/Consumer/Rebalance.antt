-- ===== src/Consumer/Rebalance.antt =====
-- What `Consumer::handle_rebalance` does on each of its branches (src/consumer.cpp).
use cppkafka.Prelude.{
  ◌≡◌, ◌∙◌, refl, Bool, true, false, Option, none, some, List, [], ◌∷◌, ◌++◌, if◌then◌else◌,
  Bool-cases, inl, inr, append_nil, ap, sym,
}
use cppkafka.Errors.{RespErr, assign_partitions, revoke_partitions, resp_eq}
use cppkafka.TopicPartition.{TopicPartition}
use cppkafka.Consumer.{
  Client, Consumer, Event, on_assignment, on_revocation, on_rebalance_error, assigned, unassigned,
  call, call_list, assign, unassign, handle_assignment, log_if, run_assignment, log,
  handle_rebalance,
}

-- The new assignment, as the application's callback leaves it.
abbrev pub chosen :
    Option (List TopicPartition → List TopicPartition) → List TopicPartition → List TopicPartition
chosen none ps = ps
chosen (some f) ps = f ps

-- The callback that a rebalance with this code is announced to, if it is set.
abbrev pub announced :
    {client : Client} → RespErr → List TopicPartition → Consumer client → List Event
announced e ps c =
    if resp_eq e assign_partitions
    then elim c.assignment_callback [ none ↦ [] | some f ↦ on_assignment (f ps) ∷ [] ]
    else if resp_eq e revoke_partitions
    then (if c.has_revocation_callback then on_revocation ps ∷ [] else [])
    else if c.has_rebalance_error_callback
    then on_rebalance_error e ∷ []
    else []

-- The one call of librdkafka that answers it.
abbrev pub answered : {client : Client} → RespErr → List TopicPartition → Consumer client → Event
answered e ps c =
    if resp_eq e assign_partitions then assigned (chosen c.assignment_callback ps) else unassigned

module _ (client : Client) where
  assign-events :
      (ps : List TopicPartition) (c : Consumer client)
      → (assign client ps c).1.events ≡ c.events ++ assigned ps ∷ []
  unfolding assign call_list log
  assign-events ps c = refl

  unassign-events :
      (c : Consumer client) → (unassign client c).1.events ≡ c.events ++ unassigned ∷ []
  unfolding unassign call log
  unassign-events c = refl

  log_if-events :
      (set : Bool) (e : Event) (c : Consumer client)
      → (log_if client set e c).events ≡ c.events ++ (if set then e ∷ [] else [])
  unfolding log_if log
  log_if-events true e c = refl
  log_if-events false e c = sym (append_nil c.events)

  assignment-events :
      (cb : Option (List TopicPartition → List TopicPartition)) (ps : List TopicPartition)
      (c : Consumer client)
      → (handle_assignment client cb ps c).1.events
        ≡ (c.events ++ elim cb [ none ↦ [] | some f ↦ on_assignment (f ps) ∷ [] ])
          ++ assigned (chosen cb ps) ∷ []
  unfolding handle_assignment run_assignment log
  assignment-events none ps c =
      (assign-events ps c ∙ ap (λ l. l ++ assigned ps ∷ []) (sym (append_nil c.events)))
  assignment-events (some f) ps c = assign-events (f ps) _

  -- Whatever the code of a rebalance, librdkafka's assignment is set exactly once: after the callback
  -- for that code, if it is set, to the partitions that the assignment callback leaves where
  -- partitions are assigned, and to none where they are revoked or the rebalance failed.
  pub handle_rebalance-events :
      (e : RespErr) (ps : List TopicPartition) (c : Consumer client)
      → (handle_rebalance client e ps c).1.events
        ≡ (c.events ++ announced e ps c) ++ answered e ps c ∷ []
  unfolding handle_rebalance
  handle_rebalance-events e ps c = elim (Bool-cases (resp_eq e assign_partitions)) [
    | inl h ↦ rw h (assignment-events c.assignment_callback ps c)
    | inr h ↦ elim (Bool-cases (resp_eq e revoke_partitions)) [
      | inl k ↦
          rw (h, k)
            (unassign-events _
              ∙ ap (λ l. l ++ unassigned ∷ []) (log_if-events c.has_revocation_callback _ c))
      | inr k ↦
          rw (h, k)
            (unassign-events _
              ∙ ap (λ l. l ++ unassigned ∷ []) (log_if-events c.has_rebalance_error_callback _ c))
    ]
  ]
