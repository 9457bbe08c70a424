-- ===== src/MessageInternal/Cells.antt =====
-- The objects of the messages that librdkafka has, in the order of their addresses.
use cppkafka.Prelude.{
  ℕ, zero, suc, ◌≤◌, ◌≡◌, refl, ap, none, some, List, [], ◌∷◌, ◌++◌, map, arith, ◌⊎◌, inl, inr,
}
use cppkafka.MessageInternal.{MessageInternal, Private, object, lookup, erase, take_at}

-- The addresses of the objects ascend from one and stay below another.
abbrev pub Ascends : ℕ → List (ℕ × MessageInternal) → ℕ → Type 0
Ascends lo [] hi = lo ≤ hi
Ascends lo ((p, m) ∷ cells) hi = (lo ≤ p) × Ascends (suc p) cells hi

abbrev pub pointers : List (ℕ × MessageInternal) → List Private
pointers = map (λ c. object c.0)

abbrev pub contents : List (ℕ × MessageInternal) → List MessageInternal
contents = map (λ c. c.1)

pub Ascends-append :
    (lo : ℕ) (cells : List (ℕ × MessageInternal)) (hi : ℕ) (m : MessageInternal)
    → Ascends lo cells hi
    → Ascends lo (cells ++ (hi, m) ∷ []) (suc hi)
Ascends-append lo [] hi m h = (h, omega arith)
Ascends-append lo ((p, n) ∷ cells) hi m (le, h) = (le, Ascends-append (suc p) cells hi m h)

Ascends-lower :
    (lo lo' : ℕ) (cells : List (ℕ × MessageInternal)) (hi : ℕ)
    → lo' ≤ lo
    → Ascends lo cells hi
    → Ascends lo' cells hi
Ascends-lower lo lo' [] hi le h = omega (arith, le, h)
Ascends-lower lo lo' ((p, n) ∷ cells) hi le (l, h) = (omega (arith, le, l), h)

-- Whichever of the messages is reported, its object is the one at its pointer.
pub record Taken (i lo hi : ℕ) (cells : List (ℕ × MessageInternal)) : Type 0 where
  pub p : ℕ
  pub m : MessageInternal
  pub rest : List (ℕ × MessageInternal)
  pub above : lo ≤ p
  pub pointed : take_at i (pointers cells) ≡ some (object p, pointers rest)
  pub carried : take_at i (contents cells) ≡ some (m, contents rest)
  pub found : lookup p cells ≡ some m
  pub erased : erase p cells ≡ rest
  pub ascends : Ascends lo rest hi

pub taken :
    (i lo hi : ℕ) (cells : List (ℕ × MessageInternal))
    → Ascends lo cells hi
    → ((take_at i (pointers cells) ≡ none) × (take_at i (contents cells) ≡ none))
      ⊎ Taken i lo hi cells
unfolding take_at lookup erase
taken i lo hi [] h = inl (refl, refl)
taken zero lo hi ((p, m) ∷ cells) (le, h) = inr (record {
  p = p;
  m = m;
  rest = cells;
  above = le;
  pointed = refl;
  carried = refl;
  found = ground arith;
  erased = ground arith;
  ascends = Ascends-lower (suc p) lo cells hi (omega (arith, le)) h;
})
taken (suc i) lo hi ((p, m) ∷ cells) (le, h) = elim (taken i (suc p) hi cells h) [
  | inl (a, b) ↦ inl (rw a refl, rw b refl)
  | inr t ↦ inr (record {
    p = t.p;
    m = t.m;
    rest = (p, m) ∷ t.rest;
    above = omega (arith, le, t.above);
    pointed = rw t.pointed refl;
    carried = rw t.carried refl;
    found = ground (arith, t.above, t.found);
    erased = ground (arith, t.above, t.erased);
    ascends = (le, t.ascends);
  })
]

pub Ascends-upper :
    (lo hi : ℕ) (cells : List (ℕ × MessageInternal))
    → Ascends lo cells hi
    → Ascends lo cells (suc hi)
Ascends-upper lo hi [] h = omega (arith, h)
Ascends-upper lo hi ((p, m) ∷ cells) (le, h) = (le, Ascends-upper (suc p) hi cells h)

bounded : (lo hi : ℕ) (cells : List (ℕ × MessageInternal)) → Ascends lo cells hi → lo ≤ hi
bounded lo hi [] h = h
bounded lo hi ((p, m) ∷ cells) (le, h) = omega (arith, le, bounded (suc p) hi cells h)

pub erase-last :
    (lo hi : ℕ) (cells : List (ℕ × MessageInternal)) (m : MessageInternal)
    → Ascends lo cells hi
    → erase hi (cells ++ (hi, m) ∷ []) ≡ cells
unfolding erase
erase-last lo hi [] m h = ground arith
erase-last lo hi ((p, n) ∷ cells) m (le, h) =
    ground (arith, bounded (suc p) hi cells h, erase-last (suc p) hi cells m h)

pub map-append :
    {A B : Type 0} (f : A → B) (xs : List A) (x : A) → map f (xs ++ x ∷ []) ≡ map f xs ++ f x ∷ []
map-append f [] x = refl
map-append f (y ∷ xs) x = ap (λ zs. f y ∷ zs) (map-append f xs x)
