-- ===== src/Configuration/Callbacks.antt =====
-- The callbacks of a configuration and the proxies that librdkafka calls: src/configuration.cpp, with
-- the log of include/cppkafka/detail/callback_invoker.h.
pub mod Reaching
mod Tests
use cppkafka.Prelude.{ℕ, Bool, true, false, Option, none, some, List, [], ◌∷◌, ◌++◌, if◌then◌else◌}
use cppkafka.Prelude.Int.{ℤ, pos, negsuc}
use cppkafka.Prelude.Bytes.{Bytes, codes}
use cppkafka.Errors.{RespErr}
use cppkafka.Message.{Message}
use cppkafka.TopicPartition.{TopicPartition}
use cppkafka.TopicPartitionList.{Element, of_handle}

-- What a callback of the application does: it returns, throws a `std::exception` with its text, or
-- throws anything else.
pub data Answer {ℓ} (B : Type ℓ) : Type ℓ where
  returns : B → Answer B
  throws : Bytes → Answer B
  throws_unknown : Answer B

-- A `std::function`, which may be empty.
abbrev pub Function : Type 0 → Type 0 → Type 0
Function A B = Option (A → Answer B)

-- What the application is called with, and the lines that librdkafka prints.
pub data Call : Type 0 where
  delivered : Message → Call
  committed : RespErr × List TopicPartition → Call
  failed : ℤ × Bytes → Call
  throttled : Bytes × ℤ × ℤ → Call
  logged : ℤ × Bytes × Bytes → Call
  measured : Bytes → Call
  opened : ℤ × ℤ × ℤ → Call
  happened : Option ℕ → Call
  printed : ℤ × Bytes × Bytes → Call

-- The callbacks of `Configuration`, and those whose proxies its handle has.
pub record Callbacks : Type 0 where
  pub delivery_report : Function Message (Unit {0})
  pub offset_commit : Function (RespErr × List TopicPartition) (Unit {0})
  pub error : Function (ℤ × Bytes) (Unit {0})
  pub throttle : Function (Bytes × ℤ × ℤ) (Unit {0})
  pub log : Function (ℤ × Bytes × Bytes) (Unit {0})
  pub stats : Function Bytes (Unit {0})
  pub socket : Function (ℤ × ℤ × ℤ) ℤ
  pub background_event : Function (Option ℕ) (Unit {0})

pub record Proxies : Type 0 where
  pub dr_msg_cb : Bool
  pub offset_commit_cb : Bool
  pub error_cb : Bool
  pub throttle_cb : Bool
  pub log_cb : Bool
  pub stats_cb : Bool
  pub socket_cb : Bool
  pub background_event_cb : Bool

pub record Configuration : Type 0 where
  pub callbacks : Callbacks
  pub proxies : Proxies

-- `Configuration()`.
unfoldable pub new_configuration : Configuration
new_configuration = record {
  callbacks = record {
    delivery_report = none;
    offset_commit = none;
    error = none;
    throttle = none;
    log = none;
    stats = none;
    socket = none;
    background_event = none;
  };
  proxies = record {
    dr_msg_cb = false;
    offset_commit_cb = false;
    error_cb = false;
    throttle_cb = false;
    log_cb = false;
    stats_cb = false;
    socket_cb = false;
    background_event_cb = false;
  };
}

unfoldable pub set_delivery_report_callback :
    Function Message (Unit {0}) → Configuration → Configuration
set_delivery_report_callback f c = record {
  callbacks = record c.callbacks { delivery_report = f };
  proxies = record c.proxies { dr_msg_cb = true };
}

unfoldable pub set_offset_commit_callback :
    Function (RespErr × List TopicPartition) (Unit {0}) → Configuration → Configuration
set_offset_commit_callback f c = record {
  callbacks = record c.callbacks { offset_commit = f };
  proxies = record c.proxies { offset_commit_cb = true };
}

unfoldable pub set_error_callback : Function (ℤ × Bytes) (Unit {0}) → Configuration → Configuration
set_error_callback f c = record {
  callbacks = record c.callbacks { error = f };
  proxies = record c.proxies { error_cb = true };
}

unfoldable pub set_throttle_callback :
    Function (Bytes × ℤ × ℤ) (Unit {0}) → Configuration → Configuration
set_throttle_callback f c = record {
  callbacks = record c.callbacks { throttle = f };
  proxies = record c.proxies { throttle_cb = true };
}

unfoldable pub set_log_callback :
    Function (ℤ × Bytes × Bytes) (Unit {0}) → Configuration → Configuration
set_log_callback f c = record {
  callbacks = record c.callbacks { log = f };
  proxies = record c.proxies { log_cb = true };
}

unfoldable pub set_stats_callback : Function Bytes (Unit {0}) → Configuration → Configuration
set_stats_callback f c = record {
  callbacks = record c.callbacks { stats = f };
  proxies = record c.proxies { stats_cb = true };
}

unfoldable pub set_socket_callback : Function (ℤ × ℤ × ℤ) ℤ → Configuration → Configuration
set_socket_callback f c = record {
  callbacks = record c.callbacks { socket = f };
  proxies = record c.proxies { socket_cb = true };
}

unfoldable pub set_background_event_callback :
    Function (Option ℕ) (Unit {0}) → Configuration → Configuration
set_background_event_callback f c = record {
  callbacks = record c.callbacks { background_event = f };
  proxies = record c.proxies { background_event_cb = true };
}

-- The line that `CallbackInvoker` logs, at `LogErr`, by the log callback or by librdkafka; what that
-- callback throws is dropped.
unfoldable pub log_error : Callbacks → Bytes → List Call
log_error c message = elim c.log [
  | none ↦ printed (pos 3, codes "cppkafka", message) ∷ []
  | some f ↦ logged (pos 3, codes "cppkafka", message) ∷ []
]

unfoldable pub caught : Bytes → Bytes → Bytes
caught name what = codes "Caught exception in " ++ name ++ codes " callback: " ++ what

unfoldable pub caught_unknown : Bytes → Bytes
caught_unknown name = codes "Caught unknown exception in " ++ name ++ codes " callback"

-- `CallbackInvoker` with a handle: its result and what it calls.
unfoldable pub invoke {ℓ} :
    {A : Type 0} {B : Type ℓ}
    → B
    → Bytes
    → Callbacks
    → Option (A → Answer B)
    → (A → Call)
    → A
    → B × List Call
unfolding log_error caught caught_unknown
invoke error_value name c none call a = (error_value, [])
invoke error_value name c (some f) call a = elim (f a) [
  | returns b ↦ (b, call a ∷ [])
  | throws what ↦ (error_value, call a ∷ log_error c (caught name what))
  | throws_unknown ↦ (error_value, call a ∷ log_error c (caught_unknown name))
]

-- `CallbackInvoker` of the log callback, which has no handle and logs nothing.
unfoldable pub invoke_log : Callbacks → ℤ × Bytes × Bytes → List Call
invoke_log c a = elim c.log [ none ↦ [] | some f ↦ logged a ∷ [] ]

unfoldable pub converted : Option (List Element) → List TopicPartition
converted none = []
converted (some es) = of_handle es

-- What librdkafka calls the proxies for.
pub data Notice : Type 0 where
  dr_msg : Message → Notice
  offset_commit : RespErr → Option (List Element) → Notice
  error : ℤ → Bytes → Notice
  throttle : Bytes → ℤ → ℤ → Notice
  log : ℤ → Bytes → Bytes → Notice
  stats : Bytes → Notice
  background_event : Option ℕ → Notice

-- The proxies, which read the configuration of the handle.
unfoldable pub proxy : Notice → Callbacks → List Call
unfolding invoke invoke_log converted
proxy (dr_msg m) c = (invoke tt (codes "delivery report") c c.delivery_report delivered m).1
proxy (offset_commit e es) c =
    (invoke tt (codes "offset commit") c c.offset_commit committed (e, converted es)).1
proxy (error e reason) c = (invoke tt (codes "error") c c.error failed (e, reason)).1
proxy (throttle name id time) c =
    (invoke tt (codes "throttle") c c.throttle throttled (name, id, time)).1
proxy (log level facility message) c = invoke_log c (level, facility, message)
proxy (stats json) c = (invoke tt (codes "statistics") c c.stats measured json).1
proxy (background_event event) c =
    (invoke tt (codes "background_event") c c.background_event happened event).1

-- `socket_callback_proxy`: the socket that librdkafka goes on with, -1 being none.
unfoldable pub socket_proxy : ℤ × ℤ × ℤ → Callbacks → ℤ × List Call
unfolding invoke
socket_proxy arguments c = invoke (negsuc 0) (codes "socket") c c.socket opened arguments

-- Whether librdkafka has the proxy.
unfoldable pub has_proxy : Notice → Proxies → Bool
has_proxy (dr_msg m) p = p.dr_msg_cb
has_proxy (offset_commit e es) p = p.offset_commit_cb
has_proxy (error e reason) p = p.error_cb
has_proxy (throttle name id time) p = p.throttle_cb
has_proxy (log level facility message) p = p.log_cb
has_proxy (stats json) p = p.stats_cb
has_proxy (background_event event) p = p.background_event_cb

-- librdkafka has something to tell.
unfoldable pub notify : Notice → Configuration → List Call
unfolding has_proxy proxy
notify n c = if has_proxy n c.proxies then proxy n c.callbacks else []
