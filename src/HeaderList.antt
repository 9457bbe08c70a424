-- ===== src/HeaderList.antt =====
-- Headers and lists of headers with their iterators: include/cppkafka/header.h, header_list.h and
-- header_list_iterator.h beside it. The values are the bytes that their buffers show; librdkafka's
-- lists are a parameter. `none` stands for a failed assertion.
pub mod Equality
mod Tests
use cppkafka.Prelude.{
  ℕ, zero, suc, ◌+◌, ◌-◌, ◌%◌, ◌^◌, ◌≡◌, Bool, true, false, not, ◌&&◌, ◌||◌, Option, none, some,
  List, [], ◌∷◌, ◌==◌, ltb, if◌then◌else◌, length, get_elem?, is_some,
}
use cppkafka.Prelude.Bytes.{Bytes, bytes_eq, bytes_lt}
use cppkafka.Errors.{RespErr, no_error, is_error, Result, ok, throw, exception}
use cppkafka.Message.{Header}
use cppkafka.ClonablePtr.{ClonablePtr, copy_ptr, destroy}

-- `operator==` of headers.
unfoldable pub header_eq : Header → Header → Bool
header_eq lhs rhs = bytes_eq lhs.name rhs.name && bytes_eq lhs.value rhs.value

-- `operator<`, the order of the tuples of name and value, and the other comparisons.
unfoldable pub header_lt : Header → Header → Bool
header_lt lhs rhs =
    bytes_lt lhs.name rhs.name || (not (bytes_lt rhs.name lhs.name) && bytes_lt lhs.value rhs.value)

unfoldable pub header_ne : Header → Header → Bool
unfolding header_eq
header_ne lhs rhs = not (header_eq lhs rhs)

unfoldable pub header_gt : Header → Header → Bool
unfolding header_lt
header_gt lhs rhs = header_lt rhs lhs

unfoldable pub header_le : Header → Header → Bool
unfolding header_gt
header_le lhs rhs = not (header_gt lhs rhs)

unfoldable pub header_ge : Header → Header → Bool
unfolding header_lt
header_ge lhs rhs = not (header_lt lhs rhs)

-- `operator bool` of a header.
pub has_value : Header → Bool
has_value h = not (length h.value == 0)

-- The calls of librdkafka on `rd_kafka_headers_t`.
pub record Headers : Type 1 where
  pub Env : Type 0
  pub headers_new : ℕ → Env → Option ℕ × Env
  pub headers_copy : Option ℕ → Env → Option ℕ × Env
  pub headers_destroy : ℕ → Env → Env
  pub header_add : ℕ → Bytes → Bytes → Env → RespErr × Env
  pub header_remove : ℕ → Bytes → Env → RespErr × Env
  pub header_cnt : ℕ → Env → ℕ
  pub header_get_all : ℕ → ℕ → Env → RespErr × Header
  pub err2str : RespErr → Bytes

-- What a call gives where its assertion holds and it does not throw.
abbrev pub Checked : Type 0 → Type 0
Checked A = Option (Result A)

abbrev pub on_ok : {A B : Type 0} → Checked A → (A → Checked B) → Checked B
on_ok none f = none
on_ok (some (throw e)) f = some (throw e)
on_ok (some (ok a)) f = f a

unfoldable pub same_ptr : Option ℕ → Option ℕ → Bool
same_ptr none none = true
same_ptr none (some q) = false
same_ptr (some p) none = false
same_ptr (some p) (some q) = p == q

module _ (lib : Headers) where
  abbrev pub HeaderList : Type 0
  HeaderList = ClonablePtr lib.Env

  -- The constructors: without a handle, with room for headers, and around a handle, as its owner
  -- or not.
  unfoldable pub no_list : HeaderList
  no_list = record { handle = none; deleter = λ p env. env; cloner = none }

  unfoldable pub owning : Option ℕ → HeaderList
  owning h = record { handle = h; deleter = lib.headers_destroy; cloner = some lib.headers_copy }

  pub new_list : ℕ → lib.Env → HeaderList × lib.Env
  unfolding owning
  new_list reserve env = let (h, env') = lib.headers_new reserve env in (owning h, env')

  unfoldable pub make_non_owning : ℕ → HeaderList
  make_non_owning p = record { handle = some p; deleter = λ p env. env; cloner = none }

  add_to : Option ℕ → Header → lib.Env → Option (RespErr × lib.Env)
  add_to none header env = none
  add_to (some p) header env = some (lib.header_add p header.name header.value env)

  -- `add`.
  pub add : Header → HeaderList → lib.Env → Option (RespErr × lib.Env)
  unfolding add_to
  add header list env = add_to list.handle header env

  remove_from : Option ℕ → Bytes → lib.Env → Option (RespErr × lib.Env)
  remove_from none name env = none
  remove_from (some p) name env = some (lib.header_remove p name env)

  -- `remove`.
  pub remove : Bytes → HeaderList → lib.Env → Option (RespErr × lib.Env)
  unfolding remove_from
  remove name list env = remove_from list.handle name env

  unfoldable pub found_header : RespErr × Header → Result Header
  found_header (e, h) = if is_error e then throw (exception (lib.err2str e)) else ok h

  unfoldable pub at_handle : Option ℕ → ℕ → lib.Env → Checked Header
  unfolding found_header
  at_handle none i env = none
  at_handle (some p) i env = some (found_header (lib.header_get_all p i env))

  -- `at`.
  unfoldable pub at : HeaderList → ℕ → lib.Env → Checked Header
  at list i env = at_handle list.handle i env

  unfoldable pub count : Option ℕ → lib.Env → ℕ
  count none env = 0
  count (some p) env = lib.header_cnt p env

  -- `size`.
  unfoldable pub size : HeaderList → lib.Env → ℕ
  size list env = count list.handle env

  -- `empty`.
  pub empty : HeaderList → lib.Env → Bool
  unfolding size
  empty list env = size list env == 0

  -- `front` and `back`; the subtraction is of a `size_t`.
  pub front : HeaderList → lib.Env → Checked Header
  unfolding at
  front list env = at list 0 env

  unfoldable pub back : HeaderList → lib.Env → Checked Header
  unfolding at size
  back list env = at list ((size list env + (2 ^ 64 - 1)) % 2 ^ 64) env

  pub record Iterator : Type 0 where
    pub list : HeaderList
    pub index : ℕ

  -- `begin` and `end`.
  unfoldable pub begin : HeaderList → Iterator
  begin list = record { list = list; index = 0 }

  unfoldable pub end : HeaderList → lib.Env → Iterator
  unfolding size
  end list env = record { list = list; index = size list env }

  -- `operator++` and `operator--`.
  unfoldable pub increment : Iterator → lib.Env → Option Iterator
  increment it env =
      if ltb it.index (size it.list env) then some (record it { index = suc it.index }) else none

  pub decrement : Iterator → Option Iterator
  decrement it = if ltb 0 it.index then some (record it { index = it.index - 1 }) else none

  -- `operator*`.
  unfoldable pub deref : Iterator → lib.Env → Checked Header
  deref it env = at it.list it.index env

  -- `operator==` of iterators.
  unfoldable pub iterator_eq : Iterator → Iterator → Bool
  unfolding same_ptr
  iterator_eq lhs rhs = same_ptr lhs.list.handle rhs.list.handle && lhs.index == rhs.index

  -- The next step, where both iterators can be advanced.
  unfoldable pub advance :
      Option Iterator → Option Iterator → (Iterator → Iterator → Checked Bool) → Checked Bool
  advance none jt f = none
  advance (some it) none f = none
  advance (some it) (some jt) f = f it jt

  -- `std::equal`, on fuel: one step for each position and one for the end.
  unfoldable pub equal_loop : ℕ → Iterator → Iterator → Iterator → lib.Env → Checked Bool
  unfolding advance
  equal_loop zero it last jt env = none
  equal_loop (suc n) it last jt env =
      if iterator_eq it last
      then some (ok true)
      else on_ok (deref it env) (λ x. on_ok (deref jt env) (λ y.
        if header_eq x y
        then advance (increment it env) (increment jt env) (λ it jt. equal_loop n it last jt env)
        else some (ok false)))

  -- The body of `operator==` of lists.
  unfoldable pub list_eq : HeaderList → HeaderList → lib.Env → Checked Bool
  list_eq lhs rhs env =
      if not (is_some lhs.handle) && not (is_some rhs.handle)
      then some (ok true)
      else if not (is_some lhs.handle) || not (is_some rhs.handle)
      then some (ok false)
      else if not (size lhs env == size rhs env)
      then some (ok false)
      else equal_loop (suc (size lhs env)) (begin lhs) (end lhs env) (begin rhs) env

  -- A comparison takes its right side by value: the copy is destroyed afterwards.
  unfoldable pub equals : HeaderList → HeaderList → lib.Env → Checked Bool × lib.Env
  equals lhs rhs env =
      let (copied, env') = copy_ptr rhs env in (list_eq lhs copied env', destroy copied env')

  -- `operator!=`.
  pub not_equals : HeaderList → HeaderList → lib.Env → Checked Bool × lib.Env
  unfolding equals
  not_equals lhs rhs env =
      let (r, env') = equals lhs rhs env in (on_ok r (λ b. some (ok (not b))), env')

-- What librdkafka documents of its lists: the headers of a list by their positions, and copies.
pub record HeadersLaws (lib : Headers) : Type 0 where
  pub contents : ℕ → lib.Env → List Header
  pub cnt : (p : ℕ) (env : lib.Env) → lib.header_cnt p env ≡ length (contents p env)
  pub get :
      (p i : ℕ) (env : lib.Env) (h : Header)
      → get_elem? (contents p env) i ≡ some h
      → lib.header_get_all p i env ≡ (no_error, h)
  pub past_end :
      (p i : ℕ) (env : lib.Env)
      → get_elem? (contents p env) i ≡ none
      → is_error (lib.header_get_all p i env).0 ≡ true
  pub live : ℕ → lib.Env → Bool
  pub copy :
      (p : ℕ) (env : lib.Env)
      → live p env ≡ true
      → (q : ℕ) × (env' : lib.Env) × (lib.headers_copy (some p) env ≡ (some q, env'))
        × (contents q env' ≡ contents p env)
        × ((r : ℕ) → live r env ≡ true → contents r env' ≡ contents r env)
