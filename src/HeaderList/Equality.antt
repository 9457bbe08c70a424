-- ===== src/HeaderList/Equality.antt =====
-- Equality of lists of headers, read through their iterators (include/cppkafka/header_list.h).
use mathlib.Core.Option.{some-injective}
use cppkafka.Prelude.{
  ℕ, zero, suc, ◌+◌, ◌<◌, ◌≡◌, ◌∙◌, sym, refl, ap, ◌↔◌, ◌⊎◌, inl, inr, Bool, true, false, not, ◌&&◌,
  Option, none, some, List, [], ◌∷◌, arith, ◌==◌, if◌then◌else◌, length, get_elem?, drop, ==_iff,
}
use cppkafka.Prelude.Bytes.{bytes_eq_iff}
use cppkafka.Errors.{is_error, ok}
use cppkafka.Message.{Header}
use cppkafka.ClonablePtr.{copy_ptr, try_clone, clone_with}
use cppkafka.HeaderList.{
  Headers, HeadersLaws, HeaderList, Checked, header_eq, same_ptr, found_header, at_handle, at,
  count, size, begin, end, increment, deref, iterator_eq, advance, equal_loop, list_eq, equals,
}

header_eq_iff : (x y : Header) → (header_eq x y ≡ true) ↔ (x ≡ y)
unfolding header_eq
header_eq_iff x y = ground (arith, bytes_eq_iff x.name y.name, bytes_eq_iff x.value y.value)

lengths_differ : (xs ys : List Header) → (length xs == length ys) ≡ false → xs ≡ ys → false ≡ true
lengths_differ xs ys e h = ground (arith, ap length h)

-- Two ranges of one length, header by header.
unfoldable headers_eq : List Header → List Header → Bool
headers_eq [] ys = true
headers_eq (x ∷ xs) [] = false
headers_eq (x ∷ xs) (y ∷ ys) = header_eq x y && headers_eq xs ys

headers_eq_iff :
    (xs ys : List Header) → length xs ≡ length ys → (headers_eq xs ys ≡ true) ↔ (xs ≡ ys)
unfolding headers_eq
headers_eq_iff [] [] h = (λ k. refl, λ k. refl)
headers_eq_iff [] (y ∷ ys) h = ground arith
headers_eq_iff (x ∷ xs) [] h = ground arith
headers_eq_iff (x ∷ xs) (y ∷ ys) h = ground (arith, header_eq_iff x y, headers_eq_iff xs ys)

-- A position inside a list: what stands there, and what follows.
at_position :
    {A : Type 0} (xs : List A) (i : ℕ)
    → i < length xs
    → (x : A) × (get_elem? xs i ≡ some x) × (drop i xs ≡ x ∷ drop (suc i) xs)
at_position [] i h = absurd (ground arith)
at_position (x ∷ xs) zero h = (x, refl, refl)
at_position (x ∷ xs) (suc i) h = at_position xs i (ground arith)

drop-end : {A : Type 0} (xs : List A) → drop (length xs) xs ≡ []
drop-end [] = refl
drop-end (x ∷ xs) = drop-end xs

same_ptr_refl : (p : ℕ) → same_ptr (some p) (some p) ≡ true
unfolding same_ptr
same_ptr_refl p = ground arith

not_end : (i n m : ℕ) → i + suc n ≡ m → (i == m) ≡ false
not_end i n m h = ground arith

if-and : (b c : Bool) → (if b then some (ok c) else some (ok false)) ≡ some (ok (b && c))
if-and true c = refl
if-and false c = refl

module _ (lib : Headers) (laws : HeadersLaws lib) where
  deref-get :
      (list : HeaderList lib) (p i : ℕ) (env : lib.Env) (x : Header)
      → list.handle ≡ some p
      → get_elem? (laws.contents p env) i ≡ some x
      → deref lib (record { list = list; index = i }) env ≡ some (ok x)
  unfolding deref at at_handle found_header is_error
  deref-get list p i env x hp hx = rw (hp, laws.get p i env x hx) refl

  size-length :
      (list : HeaderList lib) (p : ℕ) (env : lib.Env)
      → list.handle ≡ some p
      → size lib list env ≡ length (laws.contents p env)
  unfolding size count
  size-length list p env hp = rw (hp, laws.cnt p env) refl

  iterator_eq-end :
      (list : HeaderList lib) (p i : ℕ) (env : lib.Env)
      → list.handle ≡ some p
      → iterator_eq lib (record { list = list; index = i }) (end lib list env)
        ≡ (i == length (laws.contents p env))
  unfolding iterator_eq end
  iterator_eq-end list p i env hp = rw (size-length list p env hp, hp, same_ptr_refl p) refl

  increment-next :
      (list : HeaderList lib) (p i : ℕ) (env : lib.Env)
      → list.handle ≡ some p
      → i < length (laws.contents p env)
      → increment lib (record { list = list; index = i }) env
        ≡ some (record { list = list; index = suc i })
  unfolding increment
  increment-next list p i env hp h = rw (size-length list p env hp) (ground arith)

  -- The loop compares what is left of both lists.
  equal_loop-rest :
      (a b : HeaderList lib) (p q n i : ℕ) (env : lib.Env)
      → a.handle ≡ some p
      → b.handle ≡ some q
      → length (laws.contents p env) ≡ length (laws.contents q env)
      → i + n ≡ length (laws.contents p env)
      → equal_loop lib
          (suc n)
          (record { list = a; index = i })
          (end lib a env)
          (record { list = b; index = i })
          env
        ≡ some (ok (headers_eq (drop i (laws.contents p env)) (drop i (laws.contents q env))))
  unfolding equal_loop headers_eq advance
  equal_loop-rest a b p q zero i env hp hq same here =
      let e : i ≡ length (laws.contents p env) = omega arith in
      rw
        (
          iterator_eq-end a p i env hp,
          (==_iff i (length (laws.contents p env))).1 e,
          ap (λ j. drop j (laws.contents p env)) e,
          drop-end (laws.contents p env),
        )
        refl
  equal_loop-rest a b p q (suc n) i env hp hq same here =
      let (x, gx, dx) = at_position (laws.contents p env) i (omega arith) in
      let (y, gy, dy) = at_position (laws.contents q env) i (omega arith) in
      rw
        (
          iterator_eq-end a p i env hp,
          not_end i n (length (laws.contents p env)) here,
          deref-get a p i env x hp gx,
          deref-get b q i env y hq gy,
          increment-next a p i env hp (omega arith),
          increment-next b q i env hq (omega arith),
          dx,
          dy,
          equal_loop-rest a b p q n (suc i) env hp hq same (omega arith),
        )
        (if-and (header_eq x y) _)

  -- The headers of a list; `none` where it has no handle.
  unfoldable pub view_of : Option ℕ → lib.Env → Option (List Header)
  view_of none env = none
  view_of (some p) env = some (laws.contents p env)

  unfoldable pub view : HeaderList lib → lib.Env → Option (List Header)
  unfolding view_of
  view list env = view_of list.handle env

  abbrev pub IsDecision : Checked Bool → Type 0 → Type 0
  IsDecision r P = (b : Bool) × (r ≡ some (ok b)) × ((b ≡ true) ↔ P)

  both-decided :
      (a b : HeaderList lib) (p q : ℕ) (env : lib.Env)
      → a.handle ≡ some p
      → b.handle ≡ some q
      → (c : Bool) → (length (laws.contents p env) == length (laws.contents q env)) ≡ c
      → IsDecision
          (if not (size lib a env == size lib b env)
            then some (ok false)
            else equal_loop lib
                (suc (size lib a env))
                (begin lib a)
                (end lib a env)
                (begin lib b)
                env)
          (some (laws.contents p env) ≡ some (laws.contents q env))
  unfolding begin
  both-decided a b p q env hp hq true e =
      let same = (==_iff _ _).0 e in
      let loop =
        equal_loop-rest a b p q (length (laws.contents p env)) 0 env hp hq same (omega arith) in
      let decided = headers_eq_iff _ _ same in
      rw (size-length a p env hp, size-length b q env hq, e, loop)
        (
          headers_eq (laws.contents p env) (laws.contents q env),
          refl,
          (λ h. ap some (decided.0 h), λ h. decided.1 (some-injective _ _ h)),
        )
  both-decided a b p q env hp hq false e =
      rw (size-length a p env hp, size-length b q env hq, e)
        (false, refl, (λ h. cc, λ h. lengths_differ _ _ e (some-injective _ _ h)))

  list_eq-same :
      (ha hb : Option ℕ) (da db : ℕ → lib.Env → lib.Env)
      (ca cb : Option (Option ℕ → lib.Env → Option ℕ × lib.Env)) (env : lib.Env)
      → let a : HeaderList lib = record { handle = ha; deleter = da; cloner = ca } in
        let b : HeaderList lib = record { handle = hb; deleter = db; cloner = cb } in
        IsDecision (list_eq lib a b env) (view a env ≡ view b env)
  unfolding list_eq view
  list_eq-same none none da db ca cb env = (true, refl, (λ h. refl, λ h. refl))
  list_eq-same none (some q) da db ca cb env = (false, refl, (λ h. cc, λ h. cc))
  list_eq-same (some p) none da db ca cb env = (false, refl, (λ h. cc, λ h. cc))
  list_eq-same (some p) (some q) da db ca cb env =
      both-decided (record { handle = some p; deleter = da; cloner = ca })
        (record { handle = some q; deleter = db; cloner = cb }) p q env refl refl _ refl

  -- A list that a copy is defined for: one that does not own its handle, or one with a handle.
  abbrev pub IsCopyable : HeaderList lib → lib.Env → Type 0
  IsCopyable list env =
      (list.cloner ≡ none)
      ⊎ ((p : ℕ) × (list.cloner ≡ some lib.headers_copy)
          × (list.handle ≡ some p)
          × (laws.live p env ≡ true))

  abbrev pub IsAlive : HeaderList lib → lib.Env → Type 0
  IsAlive list env = (p : ℕ) → list.handle ≡ some p → laws.live p env ≡ true

  -- A new list of librdkafka leaves the others as they are.
  view_of-copied :
      (o : Option ℕ) (env env' : lib.Env)
      → ((p : ℕ) → o ≡ some p → laws.live p env ≡ true)
      → ((r : ℕ) → laws.live r env ≡ true → laws.contents r env' ≡ laws.contents r env)
      → view_of o env' ≡ view_of o env
  unfolding view_of
  view_of-copied none env env' alive kept = refl
  view_of-copied (some p) env env' alive kept = ap some (kept p (alive p refl))

  copy_ptr-view :
      (a b : HeaderList lib) (env : lib.Env)
      → IsAlive a env
      → IsCopyable b env
      → let (c, env') = copy_ptr b env in (view c env' ≡ view b env) × (view a env' ≡ view a env)
  unfolding copy_ptr try_clone clone_with view view_of
  copy_ptr-view a b env alive (inl e) = rw e (refl, refl)
  copy_ptr-view a b env alive (inr (p, e, hp, l)) =
      let (q, env', made, new, kept) = laws.copy p env l in
      rw (e, hp, made) (ap some new, view_of-copied a.handle env env' alive kept)

  -- Comparing two lists of which the right one can be copied, where librdkafka's lists do what it
  -- documents: no exception and no failed assertion, and true exactly where both have no handle or
  -- both have the same headers in the same order.
  pub equals-IsDecision :
      (a b : HeaderList lib) (env : lib.Env)
      → IsAlive a env
      → IsCopyable b env
      → IsDecision (equals lib a b env).0 (view a env ≡ view b env)
  unfolding equals
  equals-IsDecision a b env alive copyable =
      let (c, env') = copy_ptr b env in
      let (seen, kept) = copy_ptr-view a b env alive copyable in
      let (d, decided, iff) =
        list_eq-same a.handle c.handle a.deleter c.deleter a.cloner c.cloner env' in
      (d, decided, (λ h. sym kept ∙ iff.0 h ∙ seen, λ h. iff.1 (kept ∙ h ∙ sym seen)))
