-- ===== src/HandleBase/TopicConfigs/Lifetime.antt =====
-- The lifetime of the topic configurations that a handle keeps (src/kafka_handle_base.cpp).
use mathlib.Core.Path.{fun_ext}
use cppkafka.Prelude.{
  ℕ, ◌≡◌, refl, ap, ◌∙◌, Bool-cases, inl, inr, ◌||◌, Bool, true, false, not, Option, none, some,
  List, [], ◌∷◌, arith, ◌==◌, if◌then◌else◌, is_some, keep, any,
}
use cppkafka.Prelude.Bytes.{
  Bytes, bytes_lt, bytes_eq, bytes_eq_iff, bytes_lt_irrefl, equiv_eq, bytes_lt-StrictWeakOrder,
}
use cppkafka.Prelude.Order.{equiv}
use cppkafka.Prelude.OrderedMap.{find, find-emplace}
use cppkafka.HandleBase.TopicConfigs.{
  Confs, Request, by_name, by_config, is_live, new_conf, destroy_conf, set_as_opaque, copy_conf,
  dup_conf, save_found, save_topic_config, get_topic_default, get_topic_conf, without_handle, ask,
  ask_next, ask_all, given_opaque,
}
use cppkafka.HandleBase.TopicConfigs.Validity.{IsValid, fresh_live, save-IsValid, copy_conf-IsValid}

not_kept : (h : ℕ) (xs : List ℕ) → any (λ j. h == j) (keep (λ j. not (h == j)) xs) ≡ false
not_kept h [] = refl
not_kept h (x ∷ xs) = ground (arith, not_kept h xs)

is_live-save_found :
    (name : Bytes) (h : ℕ) (o : Option ℕ) (s : Confs)
    → is_live h s ≡ true
    → is_live h (save_found name h o s) ≡ not (is_some o)
unfolding save_found is_live destroy_conf set_as_opaque
is_live-save_found name h none s l = l
is_live-save_found name h (some j) s l = not_kept h s.live

opaque-save_found :
    (name : Bytes) (h : ℕ) (s : Confs) → (save_found name h none s).opaque h ≡ some name
unfolding save_found set_as_opaque
opaque-save_found name h s = ground arith

given_opaque-dup :
    (h : ℕ) (s : Confs) (live : Bool)
    → is_live h s ≡ live
    → given_opaque (dup_conf h s) ≡ (if live then some (s.opaque h) else none)
unfolding given_opaque dup_conf copy_conf
given_opaque-dup h s true l = rw l (ground arith)
given_opaque-dup h s false l = rw l refl

given_opaque-found :
    (name : Bytes) (o : Option ℕ) (s : Confs)
    → given_opaque (dup_conf s.next (save_found name s.next o (new_conf s)))
      ≡ (if is_some o then none else some (some name))
given_opaque-found name none s =
    given_opaque-dup s.next _ true (is_live-save_found name s.next none (new_conf s) (fresh_live s))
    ∙ rw (opaque-save_found name s.next (new_conf s)) refl
given_opaque-found name (some j) s =
    given_opaque-dup s.next _ false
      (is_live-save_found name s.next (some j) (new_conf s) (fresh_live s))

-- A topic that is asked for with a configuration: where its name is new, librdkafka is given a copy
-- of the configuration whose opaque pointer is the entry of the topic; where the name is in the map,
-- the configuration is destroyed before it is copied.
pub get_topic_conf-dangles :
    (name : Bytes) (s : Confs)
    → given_opaque (get_topic_conf name s)
      ≡ (if is_some (find bytes_lt name s.saved) then none else some (some name))
unfolding get_topic_conf save_topic_config new_conf
get_topic_conf-dangles name s = given_opaque-found name (find bytes_lt name (new_conf s).saved) s

-- The names that the map has an entry for.
abbrev pub known : Confs → Bytes → Bool
known s name = is_some (find bytes_lt name s.saved)

-- Requests of which none gives a configuration for a name that is known by then.
abbrev pub permitted : List Request → (Bytes → Bool) → Bool
permitted [] known = true
permitted (by_name name ∷ rs) known = permitted rs (λ x. bytes_eq name x || known x)
permitted (by_config name ∷ rs) known =
    let rest = permitted rs (λ x. bytes_eq name x || known x) in if known name then false else rest

-- What requests lead to: a valid state where they are permitted, else a read of a destroyed object.
abbrev pub Answered : Bool → Option Confs → Type 0
Answered true o = (t : Confs) × (o ≡ some t) × IsValid t
Answered false o = o ≡ none

equiv-eq : (xs ys : Bytes) → equiv bytes_lt xs ys ≡ bytes_eq xs ys
equiv-eq xs ys =
    ground (arith, equiv_eq xs ys, bytes_eq_iff xs ys, ap (bytes_lt xs), bytes_lt_irrefl xs)

known-save_found :
    (name : Bytes) (h : ℕ) (o : Option ℕ) (s : Confs) (x : Bytes)
    → find bytes_lt name s.saved ≡ o
    → known (save_found name h o s) x ≡ (bytes_eq name x || known s x)
unfolding save_found set_as_opaque destroy_conf
known-save_found name h none s x e =
    rw (find-emplace bytes_lt-StrictWeakOrder name x h h s.saved e, equiv-eq name x) (ground arith)
known-save_found name h (some j) s x e = elim (Bool-cases (bytes_eq name x)) [
  | inl same ↦ rw (same, ← (bytes_eq_iff name x).0 same, e) refl
  | inr other ↦ rw other refl
]

known-save :
    (name : Bytes) (s : Confs)
    → known (get_topic_default name s) ≡ (λ x. bytes_eq name x || known s x)
unfolding get_topic_default save_topic_config new_conf
known-save name s = fun_ext (λ x. known-save_found name s.next _ (new_conf s) x refl)

live-default :
    (name : Bytes) (s : Confs) → is_live s.next (get_topic_default name s) ≡ not (known s name)
unfolding get_topic_default save_topic_config new_conf
live-default name s = is_live-save_found name s.next _ (new_conf s) (fresh_live s)

get_topic_conf-dup :
    (name : Bytes) (s : Confs) (b : Bool)
    → known s name ≡ b
    → without_handle (get_topic_conf name s)
      ≡ (if b then none else some (copy_conf s.next (get_topic_default name s)))
unfolding get_topic_conf dup_conf without_handle get_topic_default
get_topic_conf-dup name s true e = rw (live-default name s, e) refl
get_topic_conf-dup name s false e = rw (live-default name s, e) refl

known-copy : (h : ℕ) (s : Confs) → known (copy_conf h s) ≡ known s
unfolding copy_conf
known-copy h s = refl

-- Whatever topics are asked for, with a configuration or without one: as long as no configuration
-- is given for a name that is known by then, every object in the map is there and has its own entry
-- as its opaque pointer, and the opaque pointer of every object, of the copies that librdkafka has
-- too, leads to an entry that is there. Where one is, a destroyed object is read.
pub ask_all-IsValid :
    (rs : List Request) (s : Confs) → IsValid s → Answered (permitted rs (known s)) (ask_all rs s)
unfolding ask_all ask_next ask
ask_all-IsValid [] s v = (s, refl, v)
ask_all-IsValid (by_name name ∷ rs) s v =
    rw (← known-save name s) (ask_all-IsValid rs (get_topic_default name s) (save-IsValid name s v))
ask_all-IsValid (by_config name ∷ rs) s v = elim (Bool-cases (known s name)) [
  | inl e ↦ rw (e, get_topic_conf-dup name s true e) refl
  | inr e ↦
      let t = get_topic_default name s in
      let alive = live-default name s ∙ rw e refl in
      rw (e, get_topic_conf-dup name s false e, ← known-save name s, ← known-copy s.next t)
        (ask_all-IsValid rs (copy_conf s.next t)
          (copy_conf-IsValid s.next t alive (save-IsValid name s v)))
]
