-- ===== src/HandleBase/TopicConfigs/Validity.antt =====
-- What saving and copying a topic configuration keeps (src/kafka_handle_base.cpp).
use cppkafka.Prelude.{
  ℕ, ◌<◌, ◌≡◌, refl, sym, ap, ◌∙◌, ==_iff, Bool-cases, inl, inr, true, false, not, Option, none,
  some, List, [], ◌∷◌, arith, ◌==◌, is_some, keep, any,
}
use cppkafka.Prelude.Bytes.{Bytes, bytes_lt, bytes_lt_irrefl, equiv_eq, bytes_lt-StrictWeakOrder}
use cppkafka.Prelude.OrderedMap.{find, find-emplace}
use cppkafka.HandleBase.TopicConfigs.{
  Confs, is_live, new_conf, destroy_conf, set_as_opaque, copy_conf, save_found, save_topic_config,
  get_topic_default,
}

-- The saved objects are not destroyed and their opaque pointers lead to their own entries; those of
-- all other objects, which librdkafka has copies of, lead to entries that are there; and new numbers
-- are new.
pub record IsValid (s : Confs) : Type 0 where
  pub saved_live : (name : Bytes) (h : ℕ) → find bytes_lt name s.saved ≡ some h → is_live h s ≡ true
  pub saved_opaque :
      (name : Bytes) (h : ℕ) → find bytes_lt name s.saved ≡ some h → s.opaque h ≡ some name
  pub opaque_saved :
      (name : Bytes) (h : ℕ)
      → is_live h s ≡ true
      → s.opaque h ≡ some name
      → is_some (find bytes_lt name s.saved) ≡ true
  pub live_old : (h : ℕ) → is_live h s ≡ true → h < s.next

kept_others :
    (h i : ℕ) (xs : List ℕ)
    → (i == h) ≡ false
    → any (λ j. i == j) (keep (λ j. not (h == j)) xs) ≡ any (λ j. i == j) xs
kept_others h i [] k = refl
kept_others h i (x ∷ xs) k = ground (arith, kept_others h i xs k)

kept_before :
    (h i : ℕ) (xs : List ℕ)
    → any (λ j. i == j) (keep (λ j. not (h == j)) xs) ≡ true
    → any (λ j. i == j) xs ≡ true
kept_before h i [] k = k
kept_before h i (x ∷ xs) k = ground (arith, kept_before h i xs)

pub new_conf-IsValid : (s : Confs) → IsValid s → IsValid (new_conf s)
unfolding new_conf is_live
new_conf-IsValid s v = record {
  saved_live = λ name h e. ground (arith, v.saved_live name h e);
  saved_opaque =
      λ name h e. ground (arith, v.saved_opaque name h e, v.live_old h (v.saved_live name h e));
  opaque_saved = λ name h l o. ground (arith, l, o, v.opaque_saved name h);
  live_old = λ h l. ground (arith, v.live_old h);
}

-- The new object is in no entry of the map.
fresh_unsaved :
    (s : Confs) (name : Bytes) (h : ℕ)
    → IsValid s
    → find bytes_lt name s.saved ≡ some h
    → (h == s.next) ≡ false
fresh_unsaved s name h v e = ground (arith, v.live_old h (v.saved_live name h e))

-- Setting the opaque pointer of an entry again changes nothing.
same_opaque :
    (name : Bytes) (j : ℕ) (x : Bytes) (i : ℕ) (s : Confs)
    → IsValid s
    → find bytes_lt name s.saved ≡ some j
    → find bytes_lt x s.saved ≡ some i
    → (set_as_opaque name j s).opaque i ≡ some x
unfolding set_as_opaque
same_opaque name j x i s v e k = elim (Bool-cases (i == j)) [
  | inl same ↦ rw same (
      sym (v.saved_opaque name j e)
      ∙ ap s.opaque (sym ((==_iff i j).0 same))
      ∙ v.saved_opaque x i k)
  | inr other ↦ rw other (v.saved_opaque x i k)
]

save_found-IsValid :
    (name : Bytes) (h : ℕ) (o : Option ℕ) (s : Confs)
    → find bytes_lt name s.saved ≡ o
    → IsValid s
    → is_live h s ≡ true
    → ((x : Bytes) (i : ℕ) → find bytes_lt x s.saved ≡ some i → (i == h) ≡ false)
    → IsValid (save_found name h o s)
unfolding save_found is_live set_as_opaque destroy_conf
save_found-IsValid name h none s e v l other = record {
  saved_live = λ x i k.
      ground
        (arith, v.saved_live x i, find-emplace bytes_lt-StrictWeakOrder name x h h s.saved e, k, l);
  saved_opaque = λ x i k. ground (
    arith,
    v.saved_opaque x i,
    other x i,
    find-emplace bytes_lt-StrictWeakOrder name x h h s.saved e,
    equiv_eq name x,
    k,
  );
  opaque_saved = λ x i l' o. ground (
    arith,
    v.opaque_saved x i l',
    find-emplace bytes_lt-StrictWeakOrder name x h h s.saved e,
    bytes_lt_irrefl name,
    o,
  );
  live_old = v.live_old;
}
save_found-IsValid name h (some j) s e v l other = record {
  saved_live = λ x i k. ground (arith, kept_others h i s.live (other x i k), v.saved_live x i k);
  saved_opaque = λ x i k. same_opaque name j x i s v e k;
  opaque_saved = λ x i k o. ground (arith, v.opaque_saved x i (kept_before h i s.live k), e, o);
  live_old = λ i k. v.live_old i (kept_before h i s.live k);
}

pub fresh_live : (s : Confs) → is_live s.next (new_conf s) ≡ true
unfolding is_live new_conf
fresh_live s = ground arith

saved-new_conf : (s : Confs) → (new_conf s).saved ≡ s.saved
unfolding new_conf
saved-new_conf s = refl

pub save-IsValid : (name : Bytes) (s : Confs) → IsValid s → IsValid (get_topic_default name s)
unfolding get_topic_default save_topic_config
save-IsValid name s v =
    save_found-IsValid name s.next _ (new_conf s) refl (new_conf-IsValid s v) (fresh_live s)
      (λ x i k. fresh_unsaved s x i v (rw (← saved-new_conf s) k))

pub copy_conf-IsValid :
    (h : ℕ) (s : Confs) → is_live h s ≡ true → IsValid s → IsValid (copy_conf h s)
unfolding copy_conf is_live
copy_conf-IsValid h s alive v = record {
  saved_live = λ x i e. ground (arith, v.saved_live x i e);
  saved_opaque = λ x i e. ground (arith, v.saved_opaque x i e, v.live_old i (v.saved_live x i e));
  opaque_saved = λ x i l o. ground (arith, v.opaque_saved x i, v.opaque_saved x h alive, l, o);
  live_old = λ i l. ground (arith, v.live_old i);
}
