-- ===== src/Buffer/Order.antt =====
-- The comparison operators of src/buffer.cpp are those of the bytes that the buffers show.
use cppkafka.Prelude.{
  ℕ, zero, suc, ◌≤◌, ◌≡◌, ◌∙◌, sym, ◌⊎◌, inl, inr, ◌↔◌, refl, ap, Bool, true, false, not, ◌||◌,
  Option, none, some, [], ◌∷◌, arith, take, length,
}
use cppkafka.Prelude.Bytes.{
  Bytes, bytes_lt, bytes_eq_iff, bytes_eq_refl, bytes_lt_irrefl, bytes_lt_trans, bytes_lt_connected,
}
use cppkafka.Errors.{ok}
use cppkafka.Buffer.{
  Buffer, range, make_buffer, to_bytes, buffer_eq, buffer_ne, buffer_lt, buffer_gt, buffer_le,
  buffer_ge,
}

abbrev Fits : Option Bytes → ℕ → Type 0
Fits none size = size ≡ 0
Fits (some xs) size = size ≤ length xs

-- The view stays within its memory, and a null pointer has size 0.
abbrev pub IsView : Buffer → Type 0
IsView b = Fits b.memory b.size

length-take : (n : ℕ) (xs : Bytes) → n ≤ length xs → length (take n xs) ≡ n
length-take zero xs h = refl
length-take (suc n) [] h = absurd (omega arith)
length-take (suc n) (x ∷ xs) h = ap suc (length-take n xs (omega arith))

length-range : (m : Option Bytes) (n : ℕ) → Fits m n → length (range m n) ≡ n
unfolding range
length-range none n h = omega arith
length-range (some xs) n h = length-take n xs h

length-to_bytes : (b : Buffer) → IsView b → length (to_bytes b) ≡ b.size
unfolding to_bytes
length-to_bytes b v = length-range b.memory b.size v

-- A buffer that the constructor gives back, for a size that its memory has room for, stays within
-- that memory, has size 0 if the pointer is null, and shows the first bytes of the memory.
pub make_buffer-IsView :
    (m : Option Bytes) (n : ℕ) (b : Buffer)
    → ((xs : Bytes) → m ≡ some xs → n ≤ length xs)
    → make_buffer m n ≡ ok b
    → IsView b × (to_bytes b ≡ range m n)
unfolding make_buffer to_bytes
make_buffer-IsView none n b h e = ground arith
make_buffer-IsView (some xs) n b h e = ground (arith, h xs refl)

bool_eq : (x y : Bool) → (x ≡ true → y ≡ true) → (y ≡ true → x ≡ true) → x ≡ y
bool_eq true y h k = ground (arith, h)
bool_eq false y h k = ground (arith, k)

-- `operator==` of two views holds exactly when they show the same bytes, wherever these lie.
pub buffer_eq_iff :
    (a b : Buffer) → IsView a → IsView b → (buffer_eq a b ≡ true) ↔ (to_bytes a ≡ to_bytes b)
unfolding buffer_eq
buffer_eq_iff a b v w = (
  λ h. (bytes_eq_iff (to_bytes a) (to_bytes b)).0 (ground arith),
  λ e.
      let same : a.size ≡ b.size = sym (length-to_bytes a v) ∙ ap length e ∙ length-to_bytes b w in
      rw (e, same, bytes_eq_refl) (ground arith),
)

abbrev pub Exclusive : Bool → Bool → Bool → Type 0
Exclusive lt eq gt =
    ((lt ≡ true) × (eq ≡ false) × (gt ≡ false))
    ⊎ (((lt ≡ false) × (eq ≡ true) × (gt ≡ false)) ⊎ ((lt ≡ false) × (eq ≡ false) × (gt ≡ true)))

Exclusive-of :
    (lt eq gt : Bool)
    → (lt ≡ true → gt ≡ true → ⊥)
    → (eq ≡ true → (lt ≡ false) × (gt ≡ false))
    → (lt ≡ false → gt ≡ false → eq ≡ true)
    → Exclusive lt eq gt × (not gt ≡ (lt || eq)) × (not lt ≡ (gt || eq))
Exclusive-of true true gt h k m = cc (k refl).0
Exclusive-of true false true h k m = absurd (h refl refl)
Exclusive-of true false false h k m = (inl (refl, refl, refl), refl, refl)
Exclusive-of false true true h k m = cc (k refl).1
Exclusive-of false true false h k m = (inr (inl (refl, refl, refl)), refl, refl)
Exclusive-of false false true h k m = (inr (inr (refl, refl, refl)), refl, refl)
Exclusive-of false false false h k m = cc (m refl refl)

not_both : (xs ys : Bytes) → bytes_lt xs ys ≡ true → bytes_lt ys xs ≡ true → ⊥
not_both xs ys h k = cc (bytes_lt_trans xs ys xs h k, bytes_lt_irrefl xs)

-- The six operators agree with one total order of the bytes shown: of two views exactly one of
-- `<`, `==` and `>` holds, and `<=`, `>=` and `!=` are `<` or `==`, `>` or `==`, and not `==`.
pub buffer_trichotomy :
    (a b : Buffer)
    → IsView a
    → IsView b
    → Exclusive (buffer_lt a b) (buffer_eq a b) (buffer_gt a b)
      × (buffer_le a b ≡ (buffer_lt a b || buffer_eq a b))
      × (buffer_ge a b ≡ (buffer_gt a b || buffer_eq a b))
      × (buffer_ne a b ≡ not (buffer_eq a b))
unfolding buffer_lt buffer_gt buffer_le buffer_ge buffer_ne
buffer_trichotomy a b v w = (three.0, three.1, three.2, refl)
  where
    three :
        Exclusive (buffer_lt a b) (buffer_eq a b) (buffer_gt a b)
        × (buffer_le a b ≡ (buffer_lt a b || buffer_eq a b))
        × (buffer_ge a b ≡ (buffer_gt a b || buffer_eq a b))
    three =
        Exclusive-of (buffer_lt a b) (buffer_eq a b) (buffer_gt a b)
          (not_both (to_bytes a) (to_bytes b))
          (λ e.
            let same = (buffer_eq_iff a b v w).0 e in
            (rw same (bytes_lt_irrefl (to_bytes b)), rw same (bytes_lt_irrefl (to_bytes b))))
          (λ h k. (buffer_eq_iff a b v w).1 (bytes_lt_connected (to_bytes a) (to_bytes b) h k))

-- A view is below another exactly as its bytes are, so `<` chains.
pub buffer_lt_trans :
    (a b c : Buffer) → buffer_lt a b ≡ true → buffer_lt b c ≡ true → buffer_lt a c ≡ true
unfolding buffer_lt
buffer_lt_trans a b c = bytes_lt_trans (to_bytes a) (to_bytes b) (to_bytes c)
