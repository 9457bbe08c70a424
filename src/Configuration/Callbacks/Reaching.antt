-- ===== src/Configuration/Callbacks/Reaching.antt =====
-- What is told reaches the callback that was set (src/configuration.cpp).
use cppkafka.Prelude.{
  ℕ, ◌≡◌, refl, Bool, true, false, Option, none, some, List, [], ◌∷◌, arith, is_some, if◌then◌else◌,
}
use cppkafka.Prelude.Int.{ℤ}
use cppkafka.Prelude.Bytes.{Bytes, codes}
use cppkafka.Errors.{RespErr}
use cppkafka.Message.{Message}
use cppkafka.TopicPartition.{TopicPartition}
use cppkafka.Configuration.Callbacks.{
  Answer, Function, Call, Callbacks, Configuration, new_configuration, set_delivery_report_callback,
  set_offset_commit_callback, set_error_callback, set_throttle_callback, set_log_callback,
  set_stats_callback, set_socket_callback, set_background_event_callback, invoke, invoke_log,
  Notice, dr_msg, offset_commit, error, throttle, log, stats, background_event, proxy, notify,
  delivered, committed, failed, throttled, measured, happened, converted,
}

-- A call of a setter of `Configuration`.
pub data Setting : Type 0 where
  delivery_report_callback : Function Message (Unit {0}) → Setting
  offset_commit_callback : Function (RespErr × List TopicPartition) (Unit {0}) → Setting
  error_callback : Function (ℤ × Bytes) (Unit {0}) → Setting
  throttle_callback : Function (Bytes × ℤ × ℤ) (Unit {0}) → Setting
  log_callback : Function (ℤ × Bytes × Bytes) (Unit {0}) → Setting
  stats_callback : Function Bytes (Unit {0}) → Setting
  socket_callback : Function (ℤ × ℤ × ℤ) ℤ → Setting
  background_event_callback : Function (Option ℕ) (Unit {0}) → Setting

unfoldable pub apply : Setting → Configuration → Configuration
unfolding set_delivery_report_callback set_offset_commit_callback set_error_callback
    set_throttle_callback set_log_callback set_stats_callback set_socket_callback
    set_background_event_callback
apply (delivery_report_callback f) c = set_delivery_report_callback f c
apply (offset_commit_callback f) c = set_offset_commit_callback f c
apply (error_callback f) c = set_error_callback f c
apply (throttle_callback f) c = set_throttle_callback f c
apply (log_callback f) c = set_log_callback f c
apply (stats_callback f) c = set_stats_callback f c
apply (socket_callback f) c = set_socket_callback f c
apply (background_event_callback f) c = set_background_event_callback f c

unfoldable pub configure : List Setting → Configuration → Configuration
unfolding apply
configure [] c = c
configure (x ∷ xs) c = configure xs (apply x c)

-- A callback that is set has its proxy at librdkafka.
record IsRegistered (c : Configuration) : Type 0 where
  dr : is_some c.callbacks.delivery_report ≡ true → c.proxies.dr_msg_cb ≡ true
  commit : is_some c.callbacks.offset_commit ≡ true → c.proxies.offset_commit_cb ≡ true
  errors : is_some c.callbacks.error ≡ true → c.proxies.error_cb ≡ true
  throttles : is_some c.callbacks.throttle ≡ true → c.proxies.throttle_cb ≡ true
  logs : is_some c.callbacks.log ≡ true → c.proxies.log_cb ≡ true
  statistics : is_some c.callbacks.stats ≡ true → c.proxies.stats_cb ≡ true
  events : is_some c.callbacks.background_event ≡ true → c.proxies.background_event_cb ≡ true

apply-IsRegistered : (x : Setting) (c : Configuration) → IsRegistered c → IsRegistered (apply x c)
unfolding apply
apply-IsRegistered (delivery_report_callback f) c r = ground arith
apply-IsRegistered x c r = ground arith

configure-IsRegistered :
    (xs : List Setting) (c : Configuration) → IsRegistered c → IsRegistered (configure xs c)
unfolding configure
configure-IsRegistered [] c r = r
configure-IsRegistered (x ∷ xs) c r =
    configure-IsRegistered xs (apply x c) (apply-IsRegistered x c r)

-- Where there is no callback the proxy calls nothing, so it may be missing.
invoke-registered {ℓ} :
    {A : Type 0} {B : Type ℓ} (e : B) (name : Bytes) (c : Callbacks) (f : Option (A → Answer B))
    (call : A → Call) (a : A) (registered : Bool)
    → (is_some f ≡ true → registered ≡ true)
    → (if registered then (invoke e name c f call a).1 else []) ≡ (invoke e name c f call a).1
unfolding invoke
invoke-registered e name c none call a true h = refl
invoke-registered e name c none call a false h = refl
invoke-registered e name c (some f) call a registered h = rw (h refl) refl

log-registered :
    (c : Callbacks) (a : ℤ × Bytes × Bytes) (registered : Bool)
    → (is_some c.log ≡ true → registered ≡ true)
    → (if registered then invoke_log c a else []) ≡ invoke_log c a
unfolding invoke_log
log-registered c a registered h = ground arith

notify-IsRegistered :
    (n : Notice) (c : Configuration) → IsRegistered c → notify n c ≡ proxy n c.callbacks
unfolding notify proxy
notify-IsRegistered (dr_msg m) c r =
    let f = c.callbacks.delivery_report in
    invoke-registered tt (codes "delivery report") c.callbacks f delivered m c.proxies.dr_msg_cb
      r.dr
notify-IsRegistered (offset_commit e es) c r =
    let f = c.callbacks.offset_commit in
    invoke-registered tt (codes "offset commit") c.callbacks f committed (e, converted es)
      c.proxies.offset_commit_cb r.commit
notify-IsRegistered (error e reason) c r =
    let f = c.callbacks.error in
    invoke-registered tt (codes "error") c.callbacks f failed (e, reason) c.proxies.error_cb
      r.errors
notify-IsRegistered (throttle name id time) c r =
    let f = c.callbacks.throttle in
    invoke-registered tt (codes "throttle") c.callbacks f throttled (name, id, time)
      c.proxies.throttle_cb r.throttles
notify-IsRegistered (log level facility message) c r = log-registered c.callbacks _ _ r.logs
notify-IsRegistered (stats json) c r =
    let f = c.callbacks.stats in
    invoke-registered tt (codes "statistics") c.callbacks f measured json c.proxies.stats_cb
      r.statistics
notify-IsRegistered (background_event event) c r =
    let f = c.callbacks.background_event in
    invoke-registered tt (codes "background_event") c.callbacks f happened event
      c.proxies.background_event_cb r.events

new-IsRegistered : IsRegistered new_configuration
unfolding new_configuration
new-IsRegistered = ground arith

-- After any settings of callbacks, empty ones among them, whatever librdkafka has to tell reaches
-- the callback that the configuration holds for it, as if that were called without librdkafka: no
-- callback that is set lacks its proxy.
pub configure-notify :
    (xs : List Setting) (n : Notice)
    → let c = configure xs new_configuration in notify n c ≡ proxy n c.callbacks
configure-notify xs n =
    let c = configure xs new_configuration in
    notify-IsRegistered n c (configure-IsRegistered xs new_configuration new-IsRegistered)
