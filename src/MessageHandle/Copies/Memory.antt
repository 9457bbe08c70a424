-- ===== src/MessageHandle/Copies/Memory.antt =====
-- A memory of lists of headers and messages that own them, by address, which librdkafka's laws hold
-- of.
use mathlib.Core.Option.{some-injective}
use cppkafka.Prelude.{
  ℕ, zero, suc, ◌+◌, ◌≤◌, ◌≡◌, ◌≢◌, refl, ap, ◌∙◌, true, false, Option, none, some, List, [], ◌∷◌,
  ◌++◌, arith, ◌==◌, if◌then◌else◌, is_some, length, get_elem?, keep, not,
}
use cppkafka.Prelude.Int.{pos}
use cppkafka.Prelude.Bytes.{codes, bytes_eq}
use cppkafka.Errors.{RespErr, no_error, no_offset, is_error, resp_eq}
use cppkafka.Message.{Header, not_available}
use cppkafka.HeaderList.{Headers, HeadersLaws}
use cppkafka.MessageHandle.{Messages, Native}
use cppkafka.MessageHandle.Laws.{Kept, MessagesLaws}

abbrev pub find : {A : Type 0} → ℕ → List (ℕ × A) → Option A
find k [] = none
find k ((j, a) ∷ xs) = if j == k then some a else find k xs

abbrev pub remove : {A : Type 0} → ℕ → List (ℕ × A) → List (ℕ × A)
remove k [] = []
remove k ((j, a) ∷ xs) = let rest = remove k xs in if j == k then rest else (j, a) ∷ rest

abbrev pub fresh : {A : Type 0} → List (ℕ × A) → ℕ
fresh [] = 0
fresh ((j, a) ∷ xs) = suc (j + fresh xs)

pub find-fresh : {A : Type 0} (xs : List (ℕ × A)) (k : ℕ) → fresh xs ≤ k → find k xs ≡ none
find-fresh [] k h = refl
find-fresh ((j, a) ∷ xs) k h = ground (arith, find-fresh xs k)

pub find-remove : {A : Type 0} (k : ℕ) (xs : List (ℕ × A)) → find k (remove k xs) ≡ none
find-remove k [] = refl
find-remove k ((j, a) ∷ xs) = ground (arith, find-remove k xs)

pub find-remove_other :
    {A : Type 0} (k r : ℕ) (xs : List (ℕ × A)) → k ≢ r → find r (remove k xs) ≡ find r xs
find-remove_other k r [] d = refl
find-remove_other k r ((j, a) ∷ xs) d = ground (arith, d, find-remove_other k r xs d)

abbrev pub read : List Header → ℕ → RespErr × Header
read [] i = (no_offset, record { name = []; value = [] })
read (x ∷ xs) zero = (no_error, x)
read (x ∷ xs) (suc i) = read xs i

pub read-get :
    (xs : List Header) (i : ℕ) (h : Header) → get_elem? xs i ≡ some h → read xs i ≡ (no_error, h)
read-get [] i h e = cc
read-get (x ∷ xs) zero h e = ground (arith, e)
read-get (x ∷ xs) (suc i) h e = read-get xs i h e

pub read-past_end :
    (xs : List Header) (i : ℕ) → get_elem? xs i ≡ none → is_error (read xs i).0 ≡ true
unfolding is_error resp_eq
read-past_end [] i e = refl
read-past_end (x ∷ xs) zero e = cc
read-past_end (x ∷ xs) (suc i) e = read-past_end xs i e

pub record Memory : Type 0 where
  pub lists : List (ℕ × List Header)
  pub owners : List (ℕ × ℕ)

abbrev pub or_empty : Option (List Header) → List Header
or_empty none = []
or_empty (some xs) = xs

abbrev pub contents : ℕ → Memory → List Header
contents p env = or_empty (find p env.lists)

abbrev pub with_list : ℕ → List Header → Memory → Memory
with_list p xs env = record env { lists = (p, xs) ∷ env.lists }

abbrev pub drop_list : ℕ → Memory → Memory
drop_list p env = record env { lists = remove p env.lists }

abbrev pub copy_of : Option ℕ → Memory → Option ℕ × Memory
copy_of none env = (none, env)
copy_of (some p) env = (some (fresh env.lists), with_list (fresh env.lists) (contents p env) env)

abbrev pub memory : Headers
memory = record {
  Env = Memory;
  headers_new = λ reserve env. (some (fresh env.lists), with_list (fresh env.lists) [] env);
  headers_copy = copy_of;
  headers_destroy = drop_list;
  header_add = λ p n v env.
      (no_error, with_list p (contents p env ++ record { name = n; value = v } ∷ []) env);
  header_remove =
      λ p n env. (no_error, with_list p (keep (λ h. not (bytes_eq h.name n)) (contents p env)) env);
  header_cnt = λ p env. length (contents p env);
  header_get_all = λ p i env. read (contents p env) i;
  err2str = λ e. codes "no header";
}

pub with_fresh :
    (r : ℕ) (xs : List Header) (env : Memory)
    → is_some (find r env.lists) ≡ true
    → find r (with_list (fresh env.lists) xs env).lists ≡ find r env.lists
with_fresh r xs env l = ground (arith, l, find-fresh env.lists (fresh env.lists))

pub found_first : {A : Type 0} (k : ℕ) (x : A) (xs : List (ℕ × A)) → find k ((k, x) ∷ xs) ≡ some x
found_first k x xs = ground arith

abbrev pub memory_laws : HeadersLaws memory
memory_laws = record {
  contents = contents;
  cnt = λ p env. refl;
  get = λ p i env h. read-get (contents p env) i h;
  past_end = λ p i env. read-past_end (contents p env) i;
  live = λ p env. is_some (find p env.lists);
  copy = λ p env l. (
    fresh env.lists,
    with_list (fresh env.lists) (contents p env) env,
    refl,
    ap or_empty (found_first (fresh env.lists) (contents p env) env.lists),
    λ r a. ap or_empty (with_fresh r (contents p env) env a),
  );
}

abbrev pub free_owned : Option ℕ → Memory → Memory
free_owned none env = env
free_owned (some p) env = drop_list p env

abbrev pub disown : ℕ → Memory → Memory
disown h env = record env { owners = remove h env.owners }

abbrev pub own : ℕ → Option ℕ → Memory → Memory
own h none env = disown h env
own h (some q) env = record env { owners = (h, q) ∷ env.owners }

abbrev pub owned : Option ℕ → Memory → (RespErr × ℕ) × Memory
owned none env = ((no_offset, 0), env)
owned (some p) env = ((no_error, p), env)

abbrev pub taken : ℕ → Option ℕ → Memory → (RespErr × ℕ) × Memory
taken h none env = ((no_offset, 0), env)
taken h (some p) env = ((no_error, p), disown h env)

abbrev pub native : Native
native = record {
  err = no_error;
  rkt = some (codes "orders");
  partition = pos 2;
  payload = some (codes "v");
  len = 1;
  key = none;
  key_len = 0;
  offset = pos 5;
  private_data = 0;
}

abbrev pub message_calls : Messages memory
message_calls = record {
  fields = λ h env. native;
  message_destroy = λ h env. disown h (free_owned (find h env.owners) env);
  message_headers = λ h env. owned (find h env.owners) env;
  set_headers = λ h q env. own h q (free_owned (find h env.owners) env);
  detach_headers = λ h env. taken h (find h env.owners) env;
  timestamp = λ h env. (pos 0, not_available);
  latency = λ h env. pos 0;
  status = λ h env. 0;
}

pub free_owned_other :
    (o : Option ℕ) (r : ℕ) (env : Memory)
    → o ≢ some r
    → find r (free_owned o env).lists ≡ find r env.lists
free_owned_other none r env d = refl
free_owned_other (some p) r env d = find-remove_other p r env.lists (λ e. d (ap some e))

pub Kept-found :
    (r : ℕ) (env env' : Memory)
    → find r env'.lists ≡ find r env.lists
    → is_some (find r env.lists) ≡ true
    → Kept memory_laws r env env'
Kept-found r env env' e l = (ap is_some e ∙ l, ap or_empty e)

pub owned_gone :
    (p : ℕ) (o : Option ℕ) (env : Memory) → o ≡ some p → find p (free_owned o env).lists ≡ none
owned_gone p none env e = cc
owned_gone p (some q) env e = rw (some-injective _ _ e) (find-remove p env.lists)

copied_fresh :
    (p : ℕ) (env : Memory) (q : ℕ) (env' : Memory)
    → fresh env.lists ≡ q
    → with_list (fresh env.lists) (contents p env) env ≡ env'
    → (is_some (find q env.lists) ≡ false)
      × (is_some (find q env'.lists) ≡ true)
      × ((r : ℕ) → is_some (find r env.lists) ≡ true → is_some (find r env'.lists) ≡ true)
      × ((h : ℕ) → find h env'.owners ≡ find h env.owners)
copied_fresh p env q env' e e' =
    rw (← e, ← e')
      (
        ap is_some (find-fresh env.lists (fresh env.lists) (omega arith)),
        ap is_some (found_first (fresh env.lists) (contents p env) env.lists),
        λ r l. ap is_some (with_fresh r (contents p env) env l) ∙ l,
        λ h. refl,
      )

pub copied_new :
    (p q : ℕ) (env env' : Memory)
    → memory.headers_copy (some p) env ≡ (some q, env')
    → (is_some (find q env.lists) ≡ false)
      × (is_some (find q env'.lists) ≡ true)
      × ((r : ℕ) → is_some (find r env.lists) ≡ true → is_some (find r env'.lists) ≡ true)
      × ((h : ℕ) → find h env'.owners ≡ find h env.owners)
copied_new p q env env' e =
    copied_fresh p env q env' (some-injective _ _ (ap (λ x. x.0) e)) (ap (λ x. x.1) e)

abbrev pub message_laws : MessagesLaws memory message_calls memory_laws
message_laws = record {
  attached = λ h env. find h env.owners;
  found = λ h p env e. ap (λ o. owned o env) e;
  copied = λ p q env env' l e. (copied_new p q env env' e);
  list_destroyed = λ p env. ap is_some (find-remove p env.lists);
  list_kept = λ p r env d. Kept-found r env (drop_list p env) (find-remove_other p r env.lists d);
  list_attached = λ p h env. refl;
  message_destroyed = λ h p env e. (ap is_some (owned_gone p (find h env.owners) env e));
  message_kept = λ h r env d.
      Kept-found r env (disown h (free_owned (find h env.owners) env))
        (free_owned_other (find h env.owners) r env d);
  set = λ h q env. (found_first h q (free_owned (find h env.owners) env).owners);
  set_kept = λ h q r env d.
      Kept-found r env (own h (some q) (free_owned (find h env.owners) env))
        (free_owned_other (find h env.owners) r env d);
  detach =
      λ h p env e l. (disown h env, ap (λ o. taken h o env) e, (l, refl), find-remove h env.owners);
}
