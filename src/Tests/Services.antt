-- ===== src/Tests/Services.antt =====
-- The Debug output of a configuration, and a server that is stopped.
use y_delta_crankers.Base.{◌≡◌, refl, true, false, List, [], ◌∷◌, none, map, codes}
use y_delta_crankers.System.Host.{Text}
use y_delta_crankers.HealthServer.{handle_conn}
use y_delta_crankers.HealthServer.Serving.{
  Connection, Turn, accepted, accept_failed, timed_out, spawn, serve-until_stop,
}
use y_delta_crankers.Config.Redact.{Lacks}
use y_delta_crankers.Config.Debug.{IsUserinfo, url_of, with_secrets, config_fmt, config_fmt-hides}
use y_delta_crankers.Tests.World.{config}

abbrev scheme : Text
scheme = codes "http"

abbrev endpoint : Text
endpoint = codes "node"

abbrev login : Text
login = codes "a:b"

abbrev other_login : Text
other_login = codes "c"

abbrev api_key : Text
api_key = codes "k=1"

abbrev other_api_key : Text
other_api_key = codes "k=22"

scheme-Lacks : Lacks 58 scheme × Lacks 63 scheme
scheme-Lacks = ((refl, (refl, (refl, (refl, tt)))), (refl, (refl, (refl, (refl, tt)))))

endpoint-Lacks : Lacks 63 endpoint
endpoint-Lacks = (refl, (refl, (refl, (refl, tt))))

login-IsUserinfo : IsUserinfo login
login-IsUserinfo = ((refl, (refl, (refl, tt))), (refl, (refl, (refl, tt))))

other_login-IsUserinfo : IsUserinfo other_login
other_login-IsUserinfo = ((refl, tt), (refl, tt))

config_fmt-hides_example :
    config_fmt none
      (with_secrets config (url_of scheme login endpoint api_key) (codes "key") (codes "c1" ∷ []))
    ≡ config_fmt none (
        with_secrets config
          (url_of scheme other_login endpoint other_api_key)
          (codes "another")
          (codes "c2" ∷ []))
config_fmt-hides_example =
    config_fmt-hides none config scheme endpoint login other_login api_key other_api_key
      (codes "key") (codes "another") (codes "c1" ∷ []) (codes "c2" ∷ []) scheme-Lacks.0
      scheme-Lacks.1 endpoint-Lacks login-IsUserinfo other_login-IsUserinfo refl

abbrev probe : Connection
probe = record { request = codes "GET /healthz HTTP/1.1"; ready = true }

abbrev turns : List Turn
turns =
    record { waited = timed_out; stop = false }
    ∷ record { waited = accepted probe; stop = false }
    ∷ record { waited = accepted probe; stop = true }
    ∷ record { waited = accept_failed; stop = false }
    ∷ []

serve-until_stop_example :
    ((spawn true turns).answers ≡ map (λ c. handle_conn c.ready c.request) (probe ∷ []))
    × ((spawn true turns).ended ≡ true)
serve-until_stop_example = serve-until_stop turns
