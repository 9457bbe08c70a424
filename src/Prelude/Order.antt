-- ===== src/Prelude/Order.antt =====
-- The interface of an `operator<`: a strict weak order, and the equivalence that it induces.
use mathlib.Core.Path.{◌≡◌}
use mathlib.Core.Bool.{Bool, true, false, not, ◌&&◌}
use native.Mathlib.Omega.{arith}

-- `std::map` compares keys by `!(a < b) && !(b < a)`.
abbrev pub equiv {ℓ} : {A : Type ℓ} → (A → A → Bool) → A → A → Bool
equiv lt a b = not (lt a b) && not (lt b a)

-- What `std::map` asks of its comparison.
pub record StrictWeakOrder {ℓ} {A : Type ℓ} (lt : A → A → Bool) : Type ℓ where
  pub irrefl : (a : A) → lt a a ≡ false
  pub trans : (a b c : A) → lt a b ≡ true → lt b c ≡ true → lt a c ≡ true
  pub equiv_trans : (a b c : A) → equiv lt a b ≡ true → equiv lt b c ≡ true → equiv lt a c ≡ true

module _ {ℓ} {A : Type ℓ} {lt : A → A → Bool} (o : StrictWeakOrder lt) where
  pub equiv_refl : (a : A) → equiv lt a a ≡ true
  equiv_refl a = ground (arith, o.irrefl a)

  pub asymm : (a b : A) → lt a b ≡ true → lt b a ≡ false
  asymm a b h = ground (arith, o.trans a b a, o.irrefl a)

pub equiv_sym {ℓ} :
    {A : Type ℓ} (lt : A → A → Bool) (a b : A) → equiv lt a b ≡ true → equiv lt b a ≡ true
equiv_sym lt a b h = ground arith

-- Equivalent elements have the same equivalents.
pub equiv_cong {ℓ} :
    {A : Type ℓ} {lt : A → A → Bool} (o : StrictWeakOrder lt) (a b c : A)
    → equiv lt a b ≡ true
    → equiv lt a c ≡ equiv lt b c
equiv_cong {lt = lt} o a b c h =
    ground (arith, o.equiv_trans a b c, o.equiv_trans b a c, equiv_sym lt a b)
