-- ===== src/MessageHandle/Copies.antt =====
-- Which headers a message, a builder that is made from it and a list that is set or detached show
-- when their owners are destroyed (include/cppkafka/message.h, message_builder.h beside it).
mod Memory
mod Tests
use mathlib.Core.Option.{some-injective}
use mathlib.Core.Path.{transport}
use cppkafka.Prelude.{
  ℕ, ◌≡◌, ◌≢◌, ◌∙◌, sym, refl, ap, Bool, true, false, Option, none, some, List, arith, length,
  get_elem?, if◌then◌else◌, is_some,
}
use cppkafka.Errors.{Result, no_error, is_error, resp_eq, ok, throw}
use cppkafka.Buffer.{Buffer, make_buffer}
use cppkafka.Message.{Header}
use cppkafka.ClonablePtr.{destroy, delete_old, is_valid}
use cppkafka.HeaderList.{
  Headers, HeadersLaws, HeaderList, owning, make_non_owning, found_header, at_handle, at, count,
  size,
}
use cppkafka.MessageHandle.{
  Messages, Message, headers_of, with_buffers, with_results, of_handle, make_message, attach,
  set_header_list, detached, detach_header_list, destroy_message, owned_copy, builder_headers,
}
use cppkafka.MessageHandle.Laws.{Kept, MessagesLaws}

module _ (lib : Headers) (lk : Messages lib) (laws : HeadersLaws lib)
    (messages : MessagesLaws lib lk laws) where
  -- A list shows the headers of a handle.
  pub record Shows (list : HeaderList lib) (xs : List Header) (env : lib.Env) : Type 0 where
    pub number : size lib list env ≡ length xs
    pub reads : (i : ℕ) (x : Header) → get_elem? xs i ≡ some x → at lib list i env ≡ some (ok x)

  Shows-handle :
      (list : HeaderList lib) (p : ℕ) (env : lib.Env)
      → list.handle ≡ some p
      → Shows list (laws.contents p env) env
  unfolding size count at at_handle found_header is_error resp_eq
  Shows-handle list p env e = record {
    number = rw e (laws.cnt p env);
    reads = λ i x found. rw (e, laws.get p i env x found) refl;
  }

  -- A message that is made from a handle with headers borrows them.
  record Borrows (h p : ℕ) (m : Message lib lk) (env env' : lib.Env) : Type 0 where
    handle : m.handle ≡ some h
    deleter : m.deleter ≡ lk.message_destroy
    list : m.header_list ≡ make_non_owning lib p
    same : env' ≡ env

  with_buffers-Borrows :
      (h p : ℕ) (payload key : Buffer) (env : lib.Env)
      → messages.attached h env ≡ some p
      → let (m, env') = with_buffers lib lk h lk.message_destroy payload key env in
        Borrows h p m env env'
  unfolding with_buffers headers_of is_error resp_eq
  with_buffers-Borrows h p payload key env e =
      rw (messages.found h p env e)
        (record { handle = refl; deleter = refl; list = refl; same = refl })

  -- A constructor that does not throw.
  Good : ℕ → ℕ → lib.Env → Result (Message lib lk) × lib.Env → Type 0
  Good h p env (ok m, env') = Borrows h p m env env'
  Good h p env (throw x, env') = Unit

  with_results-Good :
      (h p : ℕ) (payload key : Result Buffer) (env : lib.Env)
      → messages.attached h env ≡ some p
      → Good h p env (with_results lib lk h lk.message_destroy payload key env)
  unfolding with_results Good
  with_results-Good h p (throw x) key env e = tt
  with_results-Good h p (ok payload) (throw x) env e = tt
  with_results-Good h p (ok payload) (ok key) env e = with_buffers-Borrows h p payload key env e

  made :
      (h p : ℕ) (m : Message lib lk) (env env' : lib.Env)
      → messages.attached h env ≡ some p
      → make_message lib lk (some h) env ≡ (ok m, env')
      → Borrows h p m env env'
  unfolding make_message of_handle Good
  made h p m env env' e done = transport (ap (Good h p env) done) (with_results-Good h p _ _ env e)

  -- The headers of a message are never those of a dead list.
  abbrev pub HasLive : ℕ → lib.Env → Type 0
  HasLive h env = (r : ℕ) → messages.attached h env ≡ some r → laws.live r env ≡ true

  not_attached :
      (h q : ℕ) (env env' : lib.Env)
      → HasLive h env
      → laws.live q env ≡ false
      → messages.attached h env' ≡ messages.attached h env
      → messages.attached h env' ≢ some q
  not_attached h q env env' sound dead kept e =
      absurd (ground (arith, sound q (sym kept ∙ e), dead))

  dead-differs :
      (p q : ℕ) (env : lib.Env) → laws.live p env ≡ true → laws.live q env ≡ false → p ≢ q
  dead-differs p q env l dead e = absurd (ground (arith, l, ap (λ r. laws.live r env) e, dead))

  destroy-made :
      (h p : ℕ) (m : Message lib lk) (env env₁ env₂ : lib.Env)
      → Borrows h p m env env₁
      → destroy_message lib lk m env₂ ≡ lk.message_destroy h env₂
  unfolding destroy_message destroy delete_old make_non_owning
  destroy-made h p m env env₁ env₂ b = rw (b.handle, b.deleter, b.list) refl

  builder_headers-made :
      (h p q : ℕ) (m : Message lib lk) (env env₁ env₂ : lib.Env)
      → Borrows h p m env env₁
      → lib.headers_copy (some p) env ≡ (some q, env₂)
      → builder_headers lib lk m env₁ ≡ some (owning lib (some q), env₂)
  unfolding builder_headers owned_copy is_valid make_non_owning
  builder_headers-made h p q m env env₁ env₂ b copied = rw (b.list, b.same, copied) refl

  -- A list shows what its handle had, as long as that is kept.
  Shows-Kept :
      (list : HeaderList lib) (q : ℕ) (xs : List Header) (env env' : lib.Env)
      → list.handle ≡ some q
      → laws.contents q env ≡ xs
      → Kept laws q env env'
      → Shows list xs env'
  Shows-Kept list q xs env env' e same (alive, kept) =
      rw (← same, ← kept) (Shows-handle list q env' e)

  -- A message and a builder that is made from it: when the message is destroyed with its headers,
  -- which are `xs`, the list of the builder shows them all, and the list of the message is one that
  -- librdkafka has destroyed.
  pub builder_headers-survives :
      (h p : ℕ) (m : Message lib lk) (env env₁ : lib.Env)
      → messages.attached h env ≡ some p
      → laws.live p env ≡ true
      → make_message lib lk (some h) env ≡ (ok m, env₁)
      → (list : HeaderList lib) × (env₂ : lib.Env) × (builder_headers lib lk m env₁
          ≡ some (list, env₂))
        × Shows list (laws.contents p env) (destroy_message lib lk m env₂)
        × (m.header_list.handle ≡ some p)
        × (laws.live p (destroy_message lib lk m env₂) ≡ false)
  unfolding make_non_owning owning
  builder_headers-survives h p m env env₁ e l done =
      let b = made h p m env env₁ e done in
      let (q, env₂, copied, same, others) = laws.copy p env l in
      let (fresh, alive, keeps, kept) = messages.copied p q env env₂ l copied in
      let gone = destroy-made h p m env env₁ env₂ b in
      (
        owning lib (some q),
        env₂,
        builder_headers-made h p q m env env₁ env₂ b copied,
        rw gone (
            Shows-Kept _ q _ env₂ _ refl same (
              messages.message_kept h q env₂
                (not_attached h q env env₂ (λ r f. rw (← some-injective _ _ (sym e ∙ f)) l) fresh
                  (kept h))
                alive)),
        rw b.list refl,
        rw gone (messages.message_destroyed h p env₂ (kept h ∙ e)),
      )

  set_header_list-copied :
      (h p q : ℕ) (m : Message lib lk) (env env₁ : lib.Env)
      → m.handle ≡ some h
      → lib.headers_copy (some p) env ≡ (some q, env₁)
      → set_header_list lib lk (owning lib (some p)) m env
        ≡ some (record m { header_list = make_non_owning lib q }, lk.set_headers h (some q) env₁)
  unfolding set_header_list attach is_valid owning
  set_header_list-copied h p q m env env₁ handle copied = rw (handle, copied) refl

  -- A message gets the headers `xs` of a list that its caller owns: the list of the caller keeps
  -- them, and once the caller has destroyed it, the list of the message shows them, which is the
  -- list that librdkafka has for the message.
  pub set_header_list-Shows :
      (h p : ℕ) (m : Message lib lk) (env : lib.Env)
      → m.handle ≡ some h
      → HasLive h env
      → messages.attached h env ≢ some p
      → laws.live p env ≡ true
      → (m' : Message lib lk) × (env' : lib.Env) × (q : ℕ) × (set_header_list lib lk
            (owning lib (some p))
            m
            env
          ≡ some (m', env'))
        × Shows (owning lib (some p)) (laws.contents p env) env'
        × Shows m'.header_list (laws.contents p env) (destroy (owning lib (some p)) env')
        × (m'.header_list.handle ≡ some q)
        × (messages.attached h (destroy (owning lib (some p)) env') ≡ some q)
  unfolding destroy delete_old owning make_non_owning
  set_header_list-Shows h p m env handle sound other l =
      let (q, env₁, copied, same, others) = laws.copy p env l in
      let (fresh, alive, keeps, kept) = messages.copied p q env env₁ l copied in
      let env₂ = lk.set_headers h (some q) env₁ in
      let (l₂, same₂) = messages.set_kept h q p env₁ (rw (kept h) other) (keeps p l) in
      let (alive₂, kept₂) =
        messages.set_kept h q q env₁ (not_attached h q env env₁ sound fresh (kept h)) alive in
      let (alive₃, kept₃) = messages.list_kept p q env₂ (dead-differs p q env l fresh) alive₂ in
      (
        record m { header_list = make_non_owning lib q },
        env₂,
        q,
        set_header_list-copied h p q m env env₁ handle copied,
        Shows-Kept _ p _ env₁ env₂ refl (others p l) (l₂, same₂),
        Shows-Kept _ q _ env₁ _ refl same (alive₃, kept₃ ∙ kept₂),
        refl,
        messages.list_attached p h env₂ ∙ messages.set h q env₁,
      )

  -- The headers `xs` of a message that is made from a handle, detached: the list that is returned
  -- shows them even after the message is destroyed; once that list is destroyed, the list of a
  -- message that is still there is not null, and is one that librdkafka has destroyed.
  pub detach_header_list-dangles :
      (h p : ℕ) (m : Message lib lk) (env env₁ : lib.Env)
      → messages.attached h env ≡ some p
      → laws.live p env ≡ true
      → make_message lib lk (some h) env ≡ (ok m, env₁)
      → (list : HeaderList lib) × (env₂ : lib.Env) × (detach_header_list lib lk m env₁
          ≡ some (list, env₂))
        × Shows list (laws.contents p env) (destroy_message lib lk m env₂)
        × (m.header_list.handle ≡ some p)
        × (laws.live p (destroy list env₂) ≡ false)
  unfolding detach_header_list detached is_error resp_eq make_non_owning owning destroy delete_old
  detach_header_list-dangles h p m env env₁ e l done =
      let b = made h p m env env₁ e done in
      let (env₂, detached, (alive, same), bare) = messages.detach h p env e l in
      let gone = destroy-made h p m env env₁ env₂ b in
      (
        owning lib (some p),
        env₂,
        rw (b.handle, b.same, detached) refl,
        rw gone (
            Shows-Kept _ p _ env₂ _ refl same
              (messages.message_kept h p env₂ (λ f. absurd (ground (arith, bare, f))) alive)),
        rw b.list refl,
        messages.list_destroyed p env₂,
      )
