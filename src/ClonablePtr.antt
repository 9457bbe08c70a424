-- ===== src/ClonablePtr.antt =====
-- A pointer that is copied by a cloner: include/cppkafka/clonable_ptr.h. Objects are numbers, a null
-- pointer or a null function is `none`; the deleter of a null pointer is never called.
use cppkafka.Prelude.{ℕ, Bool, Option, none, some, if◌then◌else◌, is_some}

pub record ClonablePtr (Env : Type 0) : Type 0 where
  pub handle : Option ℕ
  pub deleter : ℕ → Env → Env
  pub cloner : Option (Option ℕ → Env → Option ℕ × Env)

module _ {Env : Type 0} where
  -- What a `unique_ptr` does with the pointer that it gives up.
  unfoldable pub delete_old : (ℕ → Env → Env) → Option ℕ → Env → Env
  delete_old deleter none env = env
  delete_old deleter (some p) env = deleter p env

  unfoldable pub clone_with :
      Option (Option ℕ → Env → Option ℕ × Env) → Option ℕ → Env → Option ℕ × Env
  clone_with none p env = (p, env)
  clone_with (some cloner) p env = cloner p env

  -- `try_clone`.
  unfoldable pub try_clone : ClonablePtr Env → Env → Option ℕ × Env
  unfolding clone_with
  try_clone p env = clone_with p.cloner p.handle env

  -- ClonablePtr(const ClonablePtr&).
  unfoldable pub copy_ptr : ClonablePtr Env → Env → ClonablePtr Env × Env
  unfolding try_clone
  copy_ptr rhs env = let (h, env') = try_clone rhs env in (record rhs { handle = h }, env')

  -- `operator=(const ClonablePtr&)`; `same` is whether both sides are one object.
  unfoldable pub assign_ptr : Bool → ClonablePtr Env → ClonablePtr Env → Env → ClonablePtr Env × Env
  unfolding try_clone delete_old
  assign_ptr same lhs rhs env =
      let (h, env') = try_clone rhs env in
      if same
      then (lhs, env)
      else (record rhs { handle = h }, delete_old lhs.deleter lhs.handle env')

  -- ClonablePtr(ClonablePtr&&): the new pointer, and what is left of the old one.
  unfoldable pub move_ptr : ClonablePtr Env → ClonablePtr Env × ClonablePtr Env
  move_ptr rhs = (rhs, record rhs { handle = none })

  -- `release`.
  unfoldable pub release : ClonablePtr Env → Option ℕ × ClonablePtr Env
  release p = (p.handle, record p { handle = none })

  -- `reset`.
  unfoldable pub reset : Option ℕ → ClonablePtr Env → Env → ClonablePtr Env × Env
  unfolding delete_old
  reset h p env = (record p { handle = h }, delete_old p.deleter p.handle env)

  -- The destructor.
  unfoldable pub destroy : ClonablePtr Env → Env → Env
  unfolding delete_old
  destroy p env = delete_old p.deleter p.handle env

  -- `operator bool`.
  unfoldable pub is_valid : ClonablePtr Env → Bool
  is_valid p = is_some p.handle
