-- ===== src/MessageHandle/Laws.antt =====
-- What librdkafka documents of messages and their headers: a message owns the list that it has, and
-- replacing, detaching or destroying concerns no other list.
use cppkafka.Prelude.{ℕ, ◌≡◌, ◌≢◌, true, false, Option, none, some}
use cppkafka.Errors.{no_error}
use cppkafka.HeaderList.{Headers, HeadersLaws}
use cppkafka.MessageHandle.{Messages}

-- A list is still there, with the headers that it had.
abbrev pub Kept : {lib : Headers} → HeadersLaws lib → ℕ → lib.Env → lib.Env → Type 0
Kept laws p env env' = (laws.live p env' ≡ true) × (laws.contents p env' ≡ laws.contents p env)

pub record MessagesLaws (lib : Headers) (lk : Messages lib) (laws : HeadersLaws lib) : Type 0 where
  pub attached : ℕ → lib.Env → Option ℕ
  pub found :
      (h p : ℕ) (env : lib.Env)
      → attached h env ≡ some p
      → lk.message_headers h env ≡ ((no_error, p), env)
  -- A copy is a new list, of no message.
  pub copied :
      (p q : ℕ) (env env' : lib.Env)
      → laws.live p env ≡ true
      → lib.headers_copy (some p) env ≡ (some q, env')
      → (laws.live q env ≡ false)
        × (laws.live q env' ≡ true)
        × ((r : ℕ) → laws.live r env ≡ true → laws.live r env' ≡ true)
        × ((h : ℕ) → attached h env' ≡ attached h env)
  pub list_destroyed : (p : ℕ) (env : lib.Env) → laws.live p (lib.headers_destroy p env) ≡ false
  pub list_kept :
      (p r : ℕ) (env : lib.Env)
      → p ≢ r
      → laws.live r env ≡ true
      → Kept laws r env (lib.headers_destroy p env)
  pub list_attached :
      (p h : ℕ) (env : lib.Env) → attached h (lib.headers_destroy p env) ≡ attached h env
  pub message_destroyed :
      (h p : ℕ) (env : lib.Env)
      → attached h env ≡ some p
      → laws.live p (lk.message_destroy h env) ≡ false
  pub message_kept :
      (h r : ℕ) (env : lib.Env)
      → attached h env ≢ some r
      → laws.live r env ≡ true
      → Kept laws r env (lk.message_destroy h env)
  pub set : (h q : ℕ) (env : lib.Env) → attached h (lk.set_headers h (some q) env) ≡ some q
  pub set_kept :
      (h q r : ℕ) (env : lib.Env)
      → attached h env ≢ some r
      → laws.live r env ≡ true
      → Kept laws r env (lk.set_headers h (some q) env)
  pub detach :
      (h p : ℕ) (env : lib.Env)
      → attached h env ≡ some p
      → laws.live p env ≡ true
      → (env' : lib.Env) × (lk.detach_headers h env ≡ ((no_error, p), env'))
        × Kept laws p env env'
        × (attached h env' ≡ none)
