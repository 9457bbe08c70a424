-- ===== src/BufferedProducer/Monad.antt =====
-- Operations of `BufferedProducer` that may throw, block for ever or run out of the model's fuel.
-- What was done before an exception stays done, so the state comes back beside every outcome.
use cppkafka.Errors.{RespErr}
use cppkafka.BufferedProducer.{BufferedProducer}

pub data Outcome {ℓ} (A : Type ℓ) : Type ℓ where
  done : A → Outcome A
  -- a `HandleException` with this code
  raise : RespErr → Outcome A
  -- a wait for a promise that nothing will set
  blocked : Outcome A
  no_fuel : Outcome A

abbrev pub Exec : Type 0 → Type 0 → Type 0
Exec E A = BufferedProducer E → Outcome A × BufferedProducer E

module _ {E A B : Type 0} where
  abbrev pub continue : Outcome A → (A → Exec E B) → Exec E B
  continue (done a) f s = f a s
  continue (raise e) f s = (raise e, s)
  continue blocked f s = (blocked, s)
  continue no_fuel f s = (no_fuel, s)

  infixl 10 ◌>>=◌ ◌>>◌
  abbrev pub ◌>>=◌ : Exec E A → (A → Exec E B) → Exec E B
  ◌>>=◌ m f s = let (r, s') = m s in continue r f s'

  abbrev pub ◌>>◌ : Exec E A → Exec E B → Exec E B
  m >> n = m >>= λ _. n

module _ {E A : Type 0} where
  abbrev pub pure : A → Exec E A
  pure a s = (done a, s)
