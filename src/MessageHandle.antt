-- ===== src/MessageHandle.antt =====
-- Messages as objects around handles of librdkafka: include/cppkafka/message.h, src/message.cpp and
-- the headers of a builder that is made from a message (include/cppkafka/message_builder.h). `none`
-- stands for a failed assertion or a null handle that librdkafka is given.
pub mod Laws
pub mod Copies
use cppkafka.Prelude.{ℕ, zero, suc, Bool, Option, none, some, [], if◌then◌else◌, is_some}
use cppkafka.Prelude.Int.{ℤ}
use cppkafka.Prelude.Bytes.{Bytes}
use cppkafka.Errors.{RespErr, is_error, Result, ok, throw}
use cppkafka.Buffer.{Buffer, empty, make_buffer}
use cppkafka.Message.{TimestampType, get_timestamp}
use cppkafka.MessageInternal.{MessageInternal}
use cppkafka.ClonablePtr.{delete_old, move_ptr, destroy, is_valid}
use cppkafka.HeaderList.{Headers, HeaderList, no_list, owning, make_non_owning}

-- `rd_kafka_message_t`; a null pointer to private data is 0.
pub record Native : Type 0 where
  pub err : RespErr
  pub rkt : Option Bytes
  pub partition : ℤ
  pub payload : Option Bytes
  pub len : ℕ
  pub key : Option Bytes
  pub key_len : ℕ
  pub offset : ℤ
  pub private_data : ℕ

-- The calls of librdkafka on messages.
pub record Messages (lib : Headers) : Type 0 where
  pub fields : ℕ → lib.Env → Native
  pub message_destroy : ℕ → lib.Env → lib.Env
  pub message_headers : ℕ → lib.Env → (RespErr × ℕ) × lib.Env
  pub set_headers : ℕ → Option ℕ → lib.Env → lib.Env
  pub detach_headers : ℕ → lib.Env → (RespErr × ℕ) × lib.Env
  pub timestamp : ℕ → lib.Env → ℤ × TimestampType
  pub latency : ℕ → lib.Env → ℤ
  pub status : ℕ → lib.Env → ℕ

topic_name : Option Bytes → Bytes
topic_name none = []
topic_name (some name) = name

module _ (lib : Headers) (lk : Messages lib) where
  pub record Message : Type 0 where
    pub handle : Option ℕ
    pub deleter : ℕ → lib.Env → lib.Env
    pub payload : Buffer
    pub key : Buffer
    pub header_list : HeaderList lib
    pub user_data : ℕ
    pub internal : Option ℕ

  -- Message(HandlePtr), after the buffers are made: the message, and its list if it has headers.
  unfoldable pub headers_of : RespErr × ℕ → HeaderList lib
  headers_of (e, p) = if is_error e then no_list lib else make_non_owning lib p

  unfoldable pub with_buffers :
      ℕ → (ℕ → lib.Env → lib.Env) → Buffer → Buffer → lib.Env → Message × lib.Env
  unfolding headers_of
  with_buffers h deleter payload key env =
      let (found, env') = lk.message_headers h env in
      (
        record {
          handle = some h;
          deleter = deleter;
          payload = payload;
          key = key;
          header_list = headers_of found;
          user_data = (lk.fields h env).private_data;
          internal = none;
        },
        env',
      )

  unfoldable pub with_results :
      ℕ
      → (ℕ → lib.Env → lib.Env)
      → Result Buffer
      → Result Buffer
      → lib.Env
      → Result Message × lib.Env
  unfolding with_buffers
  with_results h deleter (throw e) key env = (throw e, deleter h env)
  with_results h deleter (ok payload) (throw e) env = (throw e, deleter h env)
  with_results h deleter (ok payload) (ok key) env =
      let (m, env') = with_buffers h deleter payload key env in (ok m, env')

  -- Message(HandlePtr): an exception of a buffer destroys the handle.
  unfoldable pub of_handle : Option ℕ → (ℕ → lib.Env → lib.Env) → lib.Env → Result Message × lib.Env
  unfolding with_results
  of_handle none deleter env = (
    ok (record {
      handle = none;
      deleter = deleter;
      payload = empty;
      key = empty;
      header_list = no_list lib;
      user_data = 0;
      internal = none;
    }),
    env,
  )
  of_handle (some h) deleter env =
      let native = lk.fields h env in
      with_results h deleter (make_buffer native.payload native.len)
        (make_buffer native.key native.key_len) env

  -- Message(rd_kafka_message_t*), `make_non_owning` and Message().
  unfoldable pub make_message : Option ℕ → lib.Env → Result Message × lib.Env
  unfolding of_handle
  make_message h env = of_handle h lk.message_destroy env

  unfoldable pub make_borrowed : Option ℕ → lib.Env → Result Message × lib.Env
  unfolding of_handle
  make_borrowed h env = of_handle h (λ p env. env) env

  unfoldable pub empty_message : Message
  empty_message = record {
    handle = none;
    deleter = λ p env. env;
    payload = empty;
    key = empty;
    header_list = no_list lib;
    user_data = 0;
    internal = none;
  }

  -- `load_internal`: the object is read at the pointer.
  unfoldable pub load_internal : (ℕ → MessageInternal) → Message → Message
  load_internal objects m = elim m.user_data [
    | zero ↦ m
    | suc p ↦ record m {
      user_data = (objects (suc p)).user_data;
      internal = (objects (suc p)).internal;
    }
  ]

  -- The getters that read the handle.
  unfoldable pub on_handle : {A : Type 0} → Message → (ℕ → A) → Option A
  on_handle m f = elim m.handle [ none ↦ none | some h ↦ some (f h) ]

  pub get_error : Message → lib.Env → Option RespErr
  unfolding on_handle
  get_error m env = on_handle m (λ h. (lk.fields h env).err)

  pub get_topic : Message → lib.Env → Option Bytes
  unfolding on_handle topic_name
  get_topic m env = on_handle m (λ h. topic_name (lk.fields h env).rkt)

  pub get_partition : Message → lib.Env → Option ℤ
  unfolding on_handle
  get_partition m env = on_handle m (λ h. (lk.fields h env).partition)

  pub get_offset : Message → lib.Env → Option ℤ
  unfolding on_handle
  get_offset m env = on_handle m (λ h. (lk.fields h env).offset)

  pub get_latency : Message → lib.Env → Option ℤ
  unfolding on_handle
  get_latency m env = on_handle m (λ h. lk.latency h env)

  pub get_status : Message → lib.Env → Option ℕ
  unfolding on_handle
  get_status m env = on_handle m (λ h. lk.status h env)

  pub get_timestamp_of : Message → lib.Env → Option (Option (ℤ × TimestampType))
  unfolding on_handle
  get_timestamp_of m env =
      on_handle m (λ h. let (t, type) = lk.timestamp h env in get_timestamp t type)

  -- `set_header_list`: the message gets a copy, and its list borrows the copy.
  unfoldable pub attach : ℕ → Message → Option ℕ × lib.Env → Option (Message × lib.Env)
  attach h m (none, env) = none
  attach h m (some q, env) =
      some (record m { header_list = make_non_owning lib q }, lk.set_headers h (some q) env)

  unfoldable pub set_header_list : HeaderList lib → Message → lib.Env → Option (Message × lib.Env)
  unfolding attach is_valid
  set_header_list headers m env = elim m.handle [
    | none ↦ none
    | some h ↦
        if is_valid headers then attach h m (lib.headers_copy headers.handle env) else some (m, env)
  ]

  -- `detach_header_list`.
  unfoldable pub detached : RespErr × ℕ → HeaderList lib
  detached (e, p) = if is_error e then no_list lib else owning lib (some p)

  unfoldable pub detach_header_list : Message → lib.Env → Option (HeaderList lib × lib.Env)
  unfolding detached
  detach_header_list m env = elim m.handle [
    | none ↦ none
    | some h ↦ let (found, env') = lk.detach_headers h env in some (detached found, env')
  ]

  -- Message(Message&&): the new message, and what is left of the old one.
  unfoldable pub move_message : Message → Message × Message
  unfolding move_ptr
  move_message rhs =
      let (list, left) = move_ptr rhs.header_list in
      (
        record rhs { header_list = list },
        record rhs { handle = none; header_list = left; internal = none },
      )

  -- The destructor: the members in the reverse of their order.
  unfoldable pub destroy_message : Message → lib.Env → lib.Env
  unfolding destroy delete_old
  destroy_message m env = delete_old m.deleter m.handle (destroy m.header_list env)

  -- The headers of BasicMessageBuilder(const Message&), which are a copy.
  unfoldable pub owned_copy : Option ℕ × lib.Env → Option (HeaderList lib × lib.Env)
  owned_copy (none, env) = none
  owned_copy (some q, env) = some (owning lib (some q), env)

  unfoldable pub builder_headers : Message → lib.Env → Option (HeaderList lib × lib.Env)
  unfolding owned_copy is_valid
  builder_headers m env =
      if is_valid m.header_list
      then owned_copy (lib.headers_copy m.header_list.handle env)
      else some (no_list lib, env)
