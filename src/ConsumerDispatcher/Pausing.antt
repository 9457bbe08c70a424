-- ===== src/ConsumerDispatcher/Pausing.antt =====
-- The dispatcher resumes what it pauses (include/cppkafka/utils/consumer_dispatcher.h).
use cppkafka.Prelude.{
  ℕ, zero, suc, ◌≡◌, ◌∙◌, ◌⊎◌, ap, refl, Bool, true, false, Option, none, some, List, [], ◌∷◌, ◌++◌,
  if◌then◌else◌, Bool-cases, inl, inr, append_assoc,
}
use cppkafka.Errors.{RespErr, is_error, Result, ok, throw}
use cppkafka.Message.{Message, is_eof}
use cppkafka.TopicPartition.{TopicPartition}
use cppkafka.Backoff.{new_performer}
use cppkafka.Backoff.Attempts.{perform-keeps}
use cppkafka.ConsumerDispatcher.{
  Application, PauseEvent, paused, resumed, pause_failed, resume_failed, Outcome, done, raised,
  terminated, as_outcome, Dispatcher, after_callback, write, poll_heartbeat, callback_done, offered,
  offer, handle_throttle, after_resume, release, after_pause, with_assignment, throttle,
  process_message, report_error, dispatch, poll_next, after_event, next_turn, run_loop, run,
}

-- Each pause is followed at once by the resumption of the same partitions.
pub data IsBalanced : List PauseEvent → Type 0 where
  nothing : IsBalanced []
  both :
      {es : List PauseEvent} (ps : List TopicPartition)
      → IsBalanced es
      → IsBalanced (es ++ paused ps ∷ resumed ps ∷ [])

-- What a run leaves, by its end: each pause is resumed, but a pause that throws is the last event
-- and the run throws, and a resumption that throws is the last one and terminates the program.
abbrev pub Resumes : Option Outcome → List PauseEvent → Type 0
Resumes none es = IsBalanced es
Resumes (some done) es = IsBalanced es
Resumes (some (raised e)) es =
    IsBalanced es
    ⊎ ((before : List PauseEvent) × (ps : List TopicPartition) × IsBalanced before
        × (es ≡ before ++ pause_failed ps ∷ []))
Resumes (some terminated) es =
    (before : List PauseEvent) × (ps : List TopicPartition) × IsBalanced before
    × (es ≡ before ++ paused ps ∷ resume_failed ps ∷ [])

as_outcome-Resumes :
    (r : Result (Unit {0})) {es : List PauseEvent}
    → IsBalanced es
    → Resumes (some (as_outcome r)) es
unfolding as_outcome
as_outcome-Resumes (ok _) b = b
as_outcome-Resumes (throw e) b = inl b

module _ (app : Application) where
  offered-log :
      (m : Message) (elapsed : ℕ) (r : Result (Option Message)) (d : Dispatcher app)
      → (offered app m elapsed r d).1.1.1.log ≡ d.log
  unfolding offered poll_heartbeat
  offered-log m elapsed (ok none) d = refl
  offered-log m elapsed (ok (some rest)) d = refl
  offered-log m elapsed (throw e) d = refl

  offer-log : (x : Option Message × Dispatcher app) → (offer app x).1.1.1.log ≡ x.1.log
  unfolding offer after_callback
  offer-log (none, d) = refl
  offer-log (some m, d) = elim (Bool-cases d.running) [
    | inl h ↦ rw (h, offer) (offered-log m _ _ _)
    | inr h ↦ rw (h, offer) refl
  ]

  throttled-log : (m : Message) (d : Dispatcher app) → (handle_throttle app m d).1.log ≡ d.log
  unfolding handle_throttle
  throttled-log m d = perform-keeps new_performer (offer app) (λ x. x.1.log) offer-log (some m, d)

  -- The throttling itself never terminates the program.
  as_outcome-released :
      (r answer : Result (Unit {0})) (ps : List TopicPartition) (d : Dispatcher app)
      (es : List PauseEvent)
      → d.log ≡ es ++ paused ps ∷ []
      → IsBalanced es
      → let (o, t) = after_resume app ps answer (as_outcome r, d) in Resumes (some o) t.log
  unfolding after_resume write as_outcome
  as_outcome-released r (ok _) ps d es e b =
      as_outcome-Resumes r (rw (e, append_assoc es (paused ps ∷ []) (resumed ps ∷ [])) (both ps b))
  as_outcome-released r (throw x) ps d es e b = (
    es,
    ps,
    b,
    ap (λ l. l ++ resume_failed ps ∷ []) e
        ∙ append_assoc es (paused ps ∷ []) (resume_failed ps ∷ []),
  )

  after_pause-Resumes :
      (m : Message) (ps : List TopicPartition) (r : Result (Unit {0})) (d : Dispatcher app)
      → IsBalanced d.log
      → let (o, t) = after_pause app m ps r d in Resumes (some o) t.log
  unfolding after_pause release write handle_throttle
  after_pause-Resumes m ps (ok _) d b =
      as_outcome-released _ _ ps _ d.log
        (throttled-log m (record d { log = d.log ++ paused ps ∷ [] })) b
  after_pause-Resumes m ps (throw e) d b = inr (d.log, ps, b, refl)

  assignment-Resumes :
      (m : Message) (r : Result (List TopicPartition)) (d : Dispatcher app)
      → IsBalanced d.log
      → let (o, t) = with_assignment app m r d in Resumes (some o) t.log
  unfolding with_assignment
  assignment-Resumes m (ok ps) d b = after_pause-Resumes m ps _ _ b
  assignment-Resumes m (throw e) d b = inl b

  throttle-Resumes :
      (rest : Result (Option Message)) (d : Dispatcher app)
      → IsBalanced d.log
      → let (o, t) = throttle app rest d in Resumes (some o) t.log
  unfolding throttle
  throttle-Resumes (throw e) d b = inl b
  throttle-Resumes (ok none) d b = b
  throttle-Resumes (ok (some m)) d b = assignment-Resumes m _ _ b

  callback-Resumes :
      (r : Result (Unit {0}) × (Bool × app.Env)) (d : Dispatcher app)
      → IsBalanced d.log
      → let (o, t) = callback_done app r d in Resumes (some o) t.log
  unfolding callback_done after_callback
  callback-Resumes (r, answer) d b = as_outcome-Resumes r b

  report-Resumes :
      (f : Option (RespErr → app.Env → Result (Unit {0}) × (Bool × app.Env))) (e : RespErr)
      (d : Dispatcher app)
      → IsBalanced d.log
      → let (o, t) = report_error app f e d in Resumes (some o) t.log
  unfolding report_error
  report-Resumes none e d b = inl b
  report-Resumes (some f) e d b = callback-Resumes (f e d.env) d b

  if-Resumes :
      (c : Bool) (x y : Outcome × Dispatcher app)
      → Resumes (some x.0) x.1.log
      → Resumes (some y.0) y.1.log
      → Resumes (some (if c then x else y).0) (if c then x else y).1.log
  if-Resumes true x y b c = b
  if-Resumes false x y b c = c

  dispatch-Resumes :
      (m : Option Message) (d : Dispatcher app)
      → IsBalanced d.log
      → let (o, t) = dispatch app m d in Resumes (some o) t.log
  unfolding dispatch process_message after_callback
  dispatch-Resumes none d b = callback-Resumes (app.on_timeout d.env) d b
  dispatch-Resumes (some m) d b =
      if-Resumes (is_error m.error) _ _
        (if-Resumes (is_eof m) _ _
          (callback-Resumes
            (app.on_eof (record { topic = m.topic; partition = m.partition; offset = m.offset })
              d.env)
            d b)
          (report-Resumes app.on_error m.error d b))
        (throttle-Resumes _ _ b)

  event-Resumes :
      (p : Outcome × Dispatcher app) (f : Dispatcher app → Option Outcome × Dispatcher app)
      → ((c : Dispatcher app) → IsBalanced c.log → Resumes (f c).0 (f c).1.log)
      → Resumes (some p.0) p.1.log
      → let (o, t) = after_event app p f in Resumes o t.log
  unfolding after_event
  event-Resumes (done, d) f keeps b = keeps d b
  event-Resumes (raised e, d) f keeps b = b
  event-Resumes (terminated, d) f keeps b = b

  turn-Resumes :
      (p : Outcome × Dispatcher app) (f : Dispatcher app → Option Outcome × Dispatcher app)
      → ((c : Dispatcher app) → IsBalanced c.log → Resumes (f c).0 (f c).1.log)
      → Resumes (some p.0) p.1.log
      → let (o, t) = next_turn app p f in Resumes o t.log
  unfolding next_turn
  turn-Resumes (done, d) f keeps b =
      event-Resumes _ f keeps (callback-Resumes (app.on_event d.env) d b)
  turn-Resumes (raised e, d) f keeps b = b
  turn-Resumes (terminated, d) f keeps b = b

  if-end :
      (c : Bool) (x y : Option Outcome × Dispatcher app)
      → Resumes x.0 x.1.log
      → Resumes y.0 y.1.log
      → Resumes (if c then x else y).0 (if c then x else y).1.log
  if-end true x y b c = b
  if-end false x y b c = c

  loop-Resumes :
      (fuel : ℕ) (d : Dispatcher app)
      → IsBalanced d.log
      → let (o, t) = run_loop app fuel d in Resumes o t.log
  unfolding run_loop poll_next
  loop-Resumes zero d b = b
  loop-Resumes (suc fuel) d b =
      if-end d.running _ _
        (turn-Resumes (poll_next app d) (run_loop app fuel) (loop-Resumes fuel)
          (dispatch-Resumes (app.poll d.env).0 (record d { env = (app.poll d.env).1 }) b))
        b

  -- If every pause so far was followed at once by the resumption of the same partitions, then so it
  -- is after any number of turns of `run`, and where it ends by `stop` or by an exception of a
  -- callback or of the consumer; except that where pausing itself throws, which is the end of the
  -- run, nothing resumes what was paused, and where resuming throws, the program is terminated.
  pub run-Resumes :
      (fuel : ℕ) (d : Dispatcher app)
      → IsBalanced d.log
      → let (o, t) = run app fuel d in Resumes o t.log
  unfolding run
  run-Resumes fuel d b = loop-Resumes fuel (record d { running = true }) b
