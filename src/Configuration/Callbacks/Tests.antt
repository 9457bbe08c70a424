-- ===== src/Configuration/Callbacks/Tests.antt =====
-- Callbacks that throw and that are missing, and the theorem on notices at concrete settings.
use cppkafka.Prelude.{◌≡◌, refl, some, List, [], ◌∷◌}
use cppkafka.Prelude.Int.{pos, negsuc}
use cppkafka.Prelude.Bytes.{codes}
use cppkafka.Configuration.Callbacks.{
  throws, throws_unknown, failed, logged, new_configuration, proxy, socket_proxy, error, stats,
  notify,
}
use cppkafka.Configuration.Callbacks.Reaching.{
  Setting, error_callback, log_callback, socket_callback, configure, configure-notify,
}

-- An error callback that throws, and a log callback that throws as well.
abbrev settings : List Setting
settings =
    error_callback (some (λ a. throws (codes "broken")))
    ∷ log_callback (some (λ a. throws_unknown))
    ∷ socket_callback (some (λ a. throws_unknown))
    ∷ []

error_logged :
    notify (error (pos 5) (codes "down")) (configure settings new_configuration)
    ≡ failed (pos 5, codes "down")
      ∷ logged (pos 3, codes "cppkafka", codes "Caught exception in error callback: broken")
      ∷ []
unfolding notify configure new_configuration
error_logged = refl

-- The socket callback throws: librdkafka gets -1.
no_socket :
    (socket_proxy (pos 2, pos 1, pos 0) (configure settings new_configuration).callbacks).0
    ≡ negsuc 0
unfolding socket_proxy configure new_configuration
no_socket = refl

not_set : notify (stats (codes "{}")) (configure settings new_configuration) ≡ []
unfolding notify configure new_configuration
not_set = refl

configure-notify_example :
    let c = configure settings new_configuration in
    notify (error (pos 5) (codes "down")) c ≡ proxy (error (pos 5) (codes "down")) c.callbacks
configure-notify_example = configure-notify settings (error (pos 5) (codes "down"))
