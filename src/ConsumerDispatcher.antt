-- ===== src/ConsumerDispatcher.antt =====
-- Dispatching what a consumer polls: include/cppkafka/utils/consumer_dispatcher.h. The consumer and
-- the callbacks are a parameter; a callback that is not given has the default of the class.
pub mod Pausing
pub mod Callbacks
mod Tests
use cppkafka.Prelude.{
  ℕ, zero, suc, Bool, true, false, not, ◌&&◌, Option, none, some, List, [], ◌∷◌, ◌++◌,
  if◌then◌else◌,
}
use cppkafka.Prelude.Int.{ℤ}
use cppkafka.Errors.{RespErr, is_error, Result, ok, throw, Exception, consumer_exception}
use cppkafka.Message.{Message, is_eof}
use cppkafka.TopicPartition.{TopicPartition}
use cppkafka.Backoff.{Action, Performance, new_performer, perform}

-- The calls of the consumer that may throw, and the callbacks, which may throw too and tell whether
-- they called `stop`. A message callback may give its message back; `elapsed` is the time that such a
-- call takes.
pub record Application : Type 1 where
  pub Env : Type 0
  pub poll : Env → Option Message × Env
  pub assignment : Env → Result (List TopicPartition) × Env
  pub pause : List TopicPartition → Env → Result (Unit {0}) × Env
  pub resume : List TopicPartition → Env → Result (Unit {0}) × Env
  pub on_message : Message → Env → Result (Option Message) × (Bool × Env)
  pub elapsed : Message → Env → ℕ
  pub on_error : Option (RespErr → Env → Result (Unit {0}) × (Bool × Env))
  pub on_eof : TopicPartition → Env → Result (Unit {0}) × (Bool × Env)
  pub on_timeout : Env → Result (Unit {0}) × (Bool × Env)
  pub on_event : Env → Result (Unit {0}) × (Bool × Env)

-- The calls of `pause_partitions` and `resume_partitions`, and those that threw: they may have paused
-- or resumed some of the partitions.
pub data PauseEvent : Type 0 where
  paused resumed pause_failed resume_failed : List TopicPartition → PauseEvent

-- How code ends: an exception that leaves the destructor of `Pauser` terminates the program.
pub data Outcome : Type 0 where
  done : Outcome
  raised : Exception → Outcome
  terminated : Outcome

unfoldable pub as_outcome : Result (Unit {0}) → Outcome
as_outcome (ok _) = done
as_outcome (throw e) = raised e

module _ (app : Application) where
  -- The members of the dispatcher; `log` is what was paused and resumed, in order.
  pub record Dispatcher : Type 0 where
    pub env : app.Env
    pub running : Bool
    pub log : List PauseEvent

  -- A callback is over; `stop` may have been called in it.
  unfoldable pub after_callback : Bool × app.Env → Dispatcher → Dispatcher
  after_callback (stopped, env) d = record d { env = env; running = d.running && not stopped }

  unfoldable pub write : PauseEvent → Dispatcher → Dispatcher
  write e d = record d { log = d.log ++ e ∷ [] }

  unfoldable pub poll_heartbeat : Option Message → Dispatcher → Dispatcher
  poll_heartbeat none d = d
  poll_heartbeat (some m) d = record d { env = (app.poll d.env).1 }

  -- A callback that returns nothing.
  unfoldable pub callback_done :
      Result (Unit {0}) × (Bool × app.Env) → Dispatcher → Outcome × Dispatcher
  unfolding after_callback as_outcome
  callback_done (r, answer) d = (as_outcome r, after_callback answer d)

  -- An offer of a message that was `m`: whether it is over, and what is left of the message.
  unfoldable pub offered :
      Message
      → ℕ
      → Result (Option Message)
      → Dispatcher
      → Result Bool × (ℕ × (Option Message × Dispatcher))
  unfolding poll_heartbeat
  offered m elapsed (ok none) d = (ok true, (elapsed, (none, d)))
  offered m elapsed (ok (some rest)) d =
      (ok false, (elapsed, (some rest, poll_heartbeat (some rest) d)))
  offered m elapsed (throw e) d = (throw e, (elapsed, (some m, d)))

  -- The action of `handle_throttle`: a message that is given back is offered again after a poll.
  unfoldable pub offer : Action (Option Message × Dispatcher)
  unfolding after_callback offered
  offer (none, d) = (ok true, (0, (none, d)))
  offer (some m, d) =
      let (answer, over) = app.on_message m d.env in
      if not d.running
      then (ok true, (0, (some m, d)))
      else offered m (app.elapsed m d.env) answer (after_callback over d)

  -- `handle_throttle`.
  unfoldable pub handle_throttle : Message → Dispatcher → Outcome × Dispatcher
  unfolding as_outcome
  handle_throttle m d =
      let r = perform new_performer offer (some m, d) in (as_outcome r.result, r.env.1)

  unfoldable pub after_resume :
      List TopicPartition → Result (Unit {0}) → Outcome × Dispatcher → Outcome × Dispatcher
  unfolding write
  after_resume ps (ok _) (r, d) = (r, write (resumed ps) d)
  after_resume ps (throw e) (r, d) = (terminated, write (resume_failed ps) d)

  -- ~Pauser(), on every way out of the code that was run.
  unfoldable pub release : List TopicPartition → Outcome × Dispatcher → Outcome × Dispatcher
  unfolding after_resume
  release ps (r, d) =
      let (answer, env) = app.resume ps d.env in after_resume ps answer (r, record d { env = env })

  -- Pauser(), and the throttling within its scope: an exception of the constructor leaves no object
  -- to destroy.
  unfoldable pub after_pause :
      Message → List TopicPartition → Result (Unit {0}) → Dispatcher → Outcome × Dispatcher
  unfolding release write
  after_pause m ps (ok _) d = release ps (handle_throttle m (write (paused ps) d))
  after_pause m ps (throw e) d = (raised e, write (pause_failed ps) d)

  unfoldable pub with_assignment :
      Message → Result (List TopicPartition) → Dispatcher → Outcome × Dispatcher
  unfolding after_pause
  with_assignment m (ok ps) d =
      let (answer, env) = app.pause ps d.env in after_pause m ps answer (record d { env = env })
  with_assignment m (throw e) d = (raised e, d)

  -- A message that its callback gave back is throttled while the assignment is paused.
  unfoldable pub throttle : Result (Option Message) → Dispatcher → Outcome × Dispatcher
  unfolding with_assignment
  throttle (throw e) d = (raised e, d)
  throttle (ok none) d = (done, d)
  throttle (ok (some m)) d =
      let (ps, env) = app.assignment d.env in with_assignment m ps (record d { env = env })

  -- `process_message`.
  unfoldable pub process_message : Message → Dispatcher → Outcome × Dispatcher
  process_message m d =
      let (rest, answer) = app.on_message m d.env in throttle rest (after_callback answer d)

  unfoldable pub report_error :
      Option (RespErr → app.Env → Result (Unit {0}) × (Bool × app.Env))
      → RespErr
      → Dispatcher
      → Outcome × Dispatcher
  unfolding callback_done
  report_error none e d = (raised (consumer_exception e), d)
  report_error (some f) e d = callback_done (f e d.env) d

  -- The body of the loop of `run`, up to the callback for events.
  unfoldable pub dispatch : Option Message → Dispatcher → Outcome × Dispatcher
  unfolding callback_done report_error
  dispatch none d = callback_done (app.on_timeout d.env) d
  dispatch (some m) d =
      if is_error m.error
      then (if is_eof m
          then callback_done
              (app.on_eof (record { topic = m.topic; partition = m.partition; offset = m.offset })
                d.env)
              d
          else report_error app.on_error m.error d)
      else process_message m d

  unfoldable pub poll_next : Dispatcher → Outcome × Dispatcher
  poll_next d = let (m, env) = app.poll d.env in dispatch m (record d { env = env })

  unfoldable pub after_event :
      Outcome × Dispatcher
      → (Dispatcher → Option Outcome × Dispatcher)
      → Option Outcome × Dispatcher
  after_event (done, d) f = f d
  after_event (raised e, d) f = (some (raised e), d)
  after_event (terminated, d) f = (some terminated, d)

  -- The rest of a turn, unless an exception ends the run.
  unfoldable pub next_turn :
      Outcome × Dispatcher
      → (Dispatcher → Option Outcome × Dispatcher)
      → Option Outcome × Dispatcher
  unfolding callback_done after_event
  next_turn (done, d) f = after_event (callback_done (app.on_event d.env) d) f
  next_turn (raised e, d) f = (some (raised e), d)
  next_turn (terminated, d) f = (some terminated, d)

  -- The loop of `run`; `none` where the fuel is used up, for a dispatcher runs until it is stopped.
  unfoldable pub run_loop : ℕ → Dispatcher → Option Outcome × Dispatcher
  unfolding poll_next
  run_loop zero d = (none, d)
  run_loop (suc fuel) d =
      if d.running then next_turn (poll_next d) (run_loop fuel) else (some done, d)

  -- `run`.
  unfoldable pub run : ℕ → Dispatcher → Option Outcome × Dispatcher
  run fuel d = run_loop fuel (record d { running = true })
