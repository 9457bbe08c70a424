-- ===== src/TopicConfiguration/Partitioner.antt =====
-- Which partitioner librdkafka runs by a topic configuration, after any calls on any objects.
mod Tests
use mathlib.Core.Option.{some-injective}
use cppkafka.Prelude.{
  ℕ, suc, ◌<◌, ◌≤◌, ◌≡◌, ◌⊎◌, ◌∙◌, refl, sym, ap, Bool, true, false, Option, none, some, List, [],
  ◌∷◌, arith, ◌==◌, if◌then◌else◌, Bool-cases, inl, inr, ==_iff,
}
use cppkafka.Prelude.Int.{ℤ}
use cppkafka.CallbackInvoker.{Callback}
use cppkafka.TopicConfiguration.{
  Question, TopicConfiguration, NativeConf, Store, update, construct, set_callback_of,
  set_partitioner_callback, set_opaque_of, set_as_opaque, copy_object, copy, partition_by, through,
  partitioner_callback_proxy, ask,
}

-- A call on some objects.
pub data Op : Type 0 where
  constructs : ℕ → Op
  sets : ℕ → Callback Question ℤ → Op
  becomes_opaque : ℕ → Op
  copies : ℕ → ℕ → Op

abbrev pub run : Op → Store → Store
run (constructs a) = construct a
run (sets a f) = set_partitioner_callback a f
run (becomes_opaque a) = set_as_opaque a
run (copies a b) = copy a b

abbrev pub run_all : List Op → Store → Store
run_all [] s = s
run_all (o ∷ os) s = run_all os (run o s)

abbrev pub no_objects : Store
no_objects = record {
  objects = λ a. none;
  natives = λ h. record { partitioner_cb = false; opaque = none };
  next = 0;
}

-- An object has an object of librdkafka of its own, and where that has no proxy there is no callback.
record HasProxy (s : Store) (c : TopicConfiguration) : Type 0 where
  allocated : c.handle < s.next
  registered : (s.natives c.handle).partitioner_cb ≡ false → c.partitioner_callback ≡ none

IsRegistered : Store → Type 0
IsRegistered s = (a : ℕ) (c : TopicConfiguration) → s.objects a ≡ some c → HasProxy s c

update_self : {A : Type 0} (a : ℕ) (x : A) (f : ℕ → A) → update a x f a ≡ x
unfolding update
update_self a x f = ground arith

-- An updated function has the new value or an old one.
found :
    {A : Type 0} (a b : ℕ) (x y : A) (f : ℕ → Option A)
    → update a (some x) f b ≡ some y
    → (x ≡ y) ⊎ (f b ≡ some y)
unfolding update
found a b x y f e = elim (Bool-cases (b == a)) [
  | inl same ↦ inl (some-injective _ _ (ground (arith, same, e)))
  | inr other ↦ inr (ground (arith, other, e))
]

update_other : {A : Type 0} (a b : ℕ) (x : A) (f : ℕ → A) → b < a → update a x f b ≡ f b
unfolding update
update_other a b x f h = ground (arith, h)

-- The flag of an object of librdkafka whose opaque pointer or flag is set.
flag-opaque :
    (h j : ℕ) (o : Option ℕ) (f : ℕ → NativeConf)
    → (update h (record (f h) { opaque = o }) f j).partitioner_cb ≡ (f j).partitioner_cb
unfolding update
flag-opaque h j o f = elim (Bool-cases (j == h)) [
  | inl same ↦ rw (same, (==_iff j h).0 same) refl
  | inr other ↦ rw other refl
]

flag-set :
    (h j : ℕ) (f : ℕ → NativeConf)
    → (update h (record (f h) { partitioner_cb = true }) f j).partitioner_cb ≡ false
    → (f j).partitioner_cb ≡ false
unfolding update
flag-set h j f = elim (Bool-cases (j == h)) [
  | inl same ↦ rw same (λ e. absurd (ground (arith, e)))
  | inr other ↦ rw other (λ e. e)
]

construct-IsRegistered : (a : ℕ) (s : Store) → IsRegistered s → IsRegistered (construct a s)
unfolding IsRegistered construct
construct-IsRegistered a s r b c e = elim (found a b _ c s.objects e) [
  | inl new ↦ rw (← new) (record { allocated = omega arith; registered = λ _. refl })
  | inr old ↦ record {
    allocated = omega (arith, (r b c old).allocated);
    registered = λ no_flag. (r b c old).registered (
        ap (λ n. n.partitioner_cb)
          (sym (update_other s.next c.handle _ s.natives (r b c old).allocated))
        ∙ no_flag);
  }
]

set_callback-IsRegistered :
    (a : ℕ) (f : Callback Question ℤ) (o : Option TopicConfiguration) (s : Store)
    → s.objects a ≡ o
    → IsRegistered s
    → IsRegistered (set_callback_of a f o s)
unfolding IsRegistered set_callback_of
set_callback-IsRegistered a f none s at r b c e = r b c e
set_callback-IsRegistered a f (some d) s at r b c e = elim (found a b _ c s.objects e) [
  | inl new ↦ rw (← new) (record {
    allocated = (r a d at).allocated;
    registered = λ no_flag. absurd (
        ground (
          arith,
          update_self d.handle (record (s.natives d.handle) { partitioner_cb = true }) s.natives,
          no_flag,
        ));
  })
  | inr old ↦ record {
    allocated = (r b c old).allocated;
    registered = λ no_flag. (r b c old).registered (flag-set d.handle c.handle s.natives no_flag);
  }
]

set_opaque-IsRegistered :
    (a : ℕ) (o : Option TopicConfiguration) (s : Store)
    → IsRegistered s
    → IsRegistered (set_opaque_of a o s)
unfolding IsRegistered set_opaque_of
set_opaque-IsRegistered a none s r b c e = r b c e
set_opaque-IsRegistered a (some d) s r b c e = record {
  allocated = (r b c e).allocated;
  registered = λ no_flag.
      (r b c e).registered (sym (flag-opaque d.handle c.handle (some a) s.natives) ∙ no_flag);
}

copy-IsRegistered :
    (a b : ℕ) (o : Option TopicConfiguration) (s : Store)
    → s.objects a ≡ o
    → IsRegistered s
    → IsRegistered (copy_object o b s)
unfolding IsRegistered copy_object
copy-IsRegistered a b none s at r j c e = r j c e
copy-IsRegistered a b (some d) s at r j c e = elim (found b j _ c s.objects e) [
  | inl new ↦ rw (← new) (record {
    allocated = omega arith;
    registered = λ no_flag. (r a d at).registered (
        ap (λ n. n.partitioner_cb) (sym (update_self s.next (s.natives d.handle) s.natives))
        ∙ no_flag);
  })
  | inr old ↦ record {
    allocated = omega (arith, (r j c old).allocated);
    registered = λ no_flag. (r j c old).registered (
        ap (λ n. n.partitioner_cb)
          (sym (update_other s.next c.handle _ s.natives (r j c old).allocated))
        ∙ no_flag);
  }
]

run-IsRegistered : (o : Op) (s : Store) → IsRegistered s → IsRegistered (run o s)
unfolding set_partitioner_callback set_as_opaque copy
run-IsRegistered (constructs a) s r = construct-IsRegistered a s r
run-IsRegistered (sets a f) s r = set_callback-IsRegistered a f (s.objects a) s refl r
run-IsRegistered (becomes_opaque a) s r = set_opaque-IsRegistered a (s.objects a) s r
run-IsRegistered (copies a b) s r = copy-IsRegistered a b (s.objects a) s refl r

run_all-IsRegistered : (os : List Op) (s : Store) → IsRegistered s → IsRegistered (run_all os s)
run_all-IsRegistered [] s r = r
run_all-IsRegistered (o ∷ os) s r = run_all-IsRegistered os (run o s) (run-IsRegistered o s r)

no_objects-IsRegistered : IsRegistered no_objects
unfolding IsRegistered
no_objects-IsRegistered a c e = cc

-- An object whose proxy leads to itself.
ask-own :
    (consistent_random : Question → ℤ) (a : ℕ) (c : TopicConfiguration) (s : Store) (q : Question)
    → s.objects a ≡ some c
    → HasProxy s c
    → ask consistent_random c.handle q (set_as_opaque a s)
      ≡ some (partition_by consistent_random c.partitioner_callback q)
unfolding ask set_as_opaque set_opaque_of partitioner_callback_proxy through partition_by
ask-own consistent_random a c s q e p =
    let own = update_self c.handle (record (s.natives c.handle) { opaque = some a }) s.natives in
    elim (Bool-cases (s.natives c.handle).partitioner_cb) [
      | inl flag ↦ rw (e, own, flag, e) refl
      | inr bare ↦ rw (e, own, bare, p.registered bare) refl
    ]

-- After any constructions, copies and settings of partitioners, of any objects, an object that is
-- made opaque has librdkafka run the partitioner that it holds itself: the result of the callback,
-- -1 where that throws, and the partitioner of librdkafka where it is empty or was never set.
pub ask-chooses :
    (consistent_random : Question → ℤ) (os : List Op) (a : ℕ) (c : TopicConfiguration)
    (q : Question)
    → (run_all os no_objects).objects a ≡ some c
    → ask consistent_random c.handle q (set_as_opaque a (run_all os no_objects))
      ≡ some (partition_by consistent_random c.partitioner_callback q)
unfolding IsRegistered
ask-chooses consistent_random os a c q e =
    ask-own consistent_random a c (run_all os no_objects) q e
      (run_all-IsRegistered os no_objects no_objects-IsRegistered a c e)
