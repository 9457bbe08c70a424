-- ===== src/HeaderList/Tests.antt =====
-- The theorem on lists of headers at a concrete memory: a list of lists, numbered by position.
use mathlib.Core.Option.{some-injective}
use cppkafka.Prelude.{
  ℕ, zero, suc, ◌≡◌, refl, inr, true, Option, none, some, List, [], ◌∷◌, ◌++◌, arith, ltb, length,
  get_elem?, set, keep, not,
}
use cppkafka.Prelude.Bytes.{codes, bytes_eq}
use cppkafka.Errors.{RespErr, no_error, no_offset, is_error, resp_eq}
use cppkafka.Message.{Header}
use cppkafka.HeaderList.{Headers, HeadersLaws, owning, equals}
use cppkafka.HeaderList.Equality.{IsDecision, IsAlive, IsCopyable, view, equals-IsDecision}

abbrev list_at : ℕ → List (List Header) → List Header
list_at p [] = []
list_at zero (xs ∷ env) = xs
list_at (suc p) (xs ∷ env) = list_at p env

abbrev read : List Header → ℕ → RespErr × Header
read [] i = (no_offset, record { name = []; value = [] })
read (x ∷ xs) zero = (no_error, x)
read (x ∷ xs) (suc i) = read xs i

abbrev copy_of : Option ℕ → List (List Header) → Option ℕ × List (List Header)
copy_of none env = (none, env)
copy_of (some p) env = (some (length env), env ++ list_at p env ∷ [])

abbrev memory : Headers
memory = record {
  Env = List (List Header);
  headers_new = λ reserve env. (some (length env), env ++ [] ∷ []);
  headers_copy = copy_of;
  headers_destroy = λ p env. set env p [];
  header_add =
      λ p n v env. (no_error, set env p (list_at p env ++ record { name = n; value = v } ∷ []));
  header_remove =
      λ p n env. (no_error, set env p (keep (λ h. not (bytes_eq h.name n)) (list_at p env)));
  header_cnt = λ p env. length (list_at p env);
  header_get_all = λ p i env. read (list_at p env) i;
  err2str = λ e. codes "no header";
}

read-get :
    (xs : List Header) (i : ℕ) (h : Header) → get_elem? xs i ≡ some h → read xs i ≡ (no_error, h)
read-get [] i h e = cc
read-get (x ∷ xs) zero h e = ground (arith, e)
read-get (x ∷ xs) (suc i) h e = read-get xs i h e

read-past_end : (xs : List Header) (i : ℕ) → get_elem? xs i ≡ none → is_error (read xs i).0 ≡ true
unfolding is_error resp_eq
read-past_end [] i e = refl
read-past_end (x ∷ xs) zero e = cc
read-past_end (x ∷ xs) (suc i) e = read-past_end xs i e

list_at-new :
    (env : List (List Header)) (xs : List Header) → list_at (length env) (env ++ xs ∷ []) ≡ xs
list_at-new [] xs = refl
list_at-new (ys ∷ env) xs = list_at-new env xs

list_at-old :
    (r : ℕ) (env : List (List Header)) (xs : List Header)
    → ltb r (length env) ≡ true
    → list_at r (env ++ xs ∷ []) ≡ list_at r env
list_at-old r [] xs h = absurd (ground arith)
list_at-old zero (ys ∷ env) xs h = refl
list_at-old (suc r) (ys ∷ env) xs h = list_at-old r env xs (ground arith)

abbrev memory_laws : HeadersLaws memory
memory_laws = record {
  contents = list_at;
  cnt = λ p env. refl;
  get = λ p i env h. read-get (list_at p env) i h;
  past_end = λ p i env. read-past_end (list_at p env) i;
  live = λ p env. ltb p (length env);
  copy = λ p env l. (
    length env,
    env ++ list_at p env ∷ [],
    refl,
    list_at-new env (list_at p env),
    λ r. list_at-old r env (list_at p env),
  );
}

abbrev stored : List (List Header)
stored =
    (record { name = codes "trace"; value = codes "1" } ∷ [])
    ∷ (record { name = codes "trace"; value = codes "2" } ∷ [])
    ∷ []

first-IsAlive : IsAlive memory memory_laws (owning memory (some 0)) stored
unfolding owning
first-IsAlive p e = rw (← some-injective _ _ e) refl

second-IsCopyable : IsCopyable memory memory_laws (owning memory (some 1)) stored
unfolding owning
second-IsCopyable = inr (1, refl, refl, refl)

equals-IsDecision_example :
    IsDecision memory memory_laws
      (equals memory (owning memory (some 0)) (owning memory (some 1)) stored).0
      (view memory memory_laws (owning memory (some 0)) stored
        ≡ view memory memory_laws (owning memory (some 1)) stored)
equals-IsDecision_example =
    equals-IsDecision memory memory_laws (owning memory (some 0)) (owning memory (some 1)) stored
      first-IsAlive second-IsCopyable
