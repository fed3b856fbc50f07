-- ===== src/Tests/Startup.antt =====
-- The start of the process in a small environment: its configuration, its keys, and what the
-- curator-fee claimer sends with them.
use y_delta_crankers.Base.{
  ℕ, ◌+◌, ◌≡◌, refl, Bool, true, false, List, [], ◌∷◌, Option, none, some, codes, bytes_eq,
  replicate, if◌then◌else◌,
}
use y_delta_crankers.Base.Text.{is_whitespace, trim_start, trim_end, trim, parse_unsigned}
use y_delta_crankers.System.Env.{Env}
use y_delta_crankers.System.Action.{Result, ok}
use y_delta_crankers.System.Rules.{After}
use y_delta_crankers.System.Outcome.{◌>>=◌, Yields}
use y_delta_crankers.System.Host.{Host, Text}
use y_delta_crankers.Config.{Config}
use y_delta_crankers.Config.Vars
use y_delta_crankers.Config.Load
use y_delta_crankers.Config.Redact.{redact_url, redact_url-hides}
use y_delta_crankers.Config.Ranges.{IsConfigured, from_env-IsConfigured}
use y_delta_crankers.Signer
use y_delta_crankers.Signer.Loaded.{IsLoaded, load-IsLoaded}
use y_delta_crankers.Rpc.Allowed.{Allowed, Sent}
use y_delta_crankers.Handlers.CuratorFeeClaimer
use y_delta_crankers.Handlers.CuratorFeeClaimer.Claims.{FeeClaims, curator_fee_claimer-IsFeeClaim}
use y_delta_crankers.Tests.World.{world, ctx, start}

-- The variables, the first of a name counting.
abbrev find_var : Text → List (Text × Text) → Option Text
find_var name [] = none
find_var name ((key, value) ∷ vars) = if bytes_eq key name then some value else find_var name vars

abbrev variables : List (Text × Text)
variables =
    (codes "NETWORK", codes "Mainnet")
    ∷ (codes "RPC_URL", codes "https://node")
    ∷ (codes "MARGINFI_PROGRAM_ID", codes "p")
    ∷ (codes "MARGINFI_GROUP", codes "g")
    ∷ (codes "FEE_PAYER_KEYPAIR", codes "/key.json")
    ∷ (codes "CLAIMER_ENABLED", codes "No")
    ∷ (codes "CURATOR_FEE_CLAIMER_ENABLED", codes "1")
    ∷ (codes "COMPUTE_UNIT_LIMIT", codes "250000")
    ∷ (codes "CURATOR_KEYPAIRS_JSON", codes " secret ")
    ∷ []

-- Each key is accepted, and `Keypair::try_from` tells apart the file's key and the other.
abbrev pub host : Host
host = record {
  var = λ name. find_var name variables;
  file_mode = λ file. some 33152;
  read_file = λ file. some (codes "[1]");
  json_bytes = λ bytes. some (1 ∷ []);
  json_texts = λ text. some [];
  base58_decode = λ text. some (replicate 64 7);
  keypair_of_bytes = λ bytes. if bytes_eq bytes (1 ∷ []) then some 1 else some 2;
  pubkey_of_text = λ text. some 5;
  ydelta_id = 5;
  text_of_pubkey = λ pk. codes "5";
  socket_addr = λ text. some 9_091;
  install_exporter = λ addr. true;
}

abbrev loaded : Result Config → Bool × ℕ × List Text
loaded (ok cfg) =
    (cfg.handlers.claimer_enabled, cfg.compute_unit_limit, cfg.curator_keypairs_base58)
loaded _ = (true, 0, [])

-- The environment is accepted, with the values it sets.
host-from_env : loaded (Load.from_env host) ≡ (false, 250_000, codes "secret" ∷ [])
unfolding Load.from_env Load.read_handlers Load.read_thresholds Vars.network_from_str
    Vars.require_var Vars.optional_var Vars.bool_var Vars.u64_var Vars.u32_var Vars.secs_var
    Vars.parse_pubkey Vars.parse_curator_keypairs_json ◌>>=◌ parse_unsigned trim trim_start trim_end
    is_whitespace
host-from_env = refl

from_env-IsConfigured_example : Yields ⊥ (IsConfigured host) (Load.from_env host)
from_env-IsConfigured_example = from_env-IsConfigured host

load-IsLoaded_example : Yields ⊥ (IsLoaded world host ctx.cfg) (Signer.load world host ctx.cfg)
load-IsLoaded_example = load-IsLoaded world host ctx.cfg

-- The world of the tests, where key pair 2 is the curator's.
abbrev curator_world : Env
curator_world = record world { pubkey_of = λ k. 28 + k }

curator_fee_claimer-IsFeeClaim_example :
    After
      (Allowed (FeeClaims curator_world ctx) [])
      (Sent (FeeClaims curator_world ctx))
      (λ _. Allowed (FeeClaims curator_world ctx) [])
      (CuratorFeeClaimer.tick curator_world ctx start)
curator_fee_claimer-IsFeeClaim_example =
    curator_fee_claimer-IsFeeClaim curator_world ctx start (refl, tt) tt

redact_url-hides_example :
    redact_url (codes "https://me:pw@node/v2?api-key=k") ≡ codes "https://node/v2"
redact_url-hides_example =
    redact_url-hides (codes "https") (codes "me:pw") (codes "node/v2") (codes "api-key=k")
      (refl, (refl, (refl, (refl, (refl, tt))))) (refl, (refl, (refl, (refl, (refl, tt)))))
      (refl, (refl, (refl, (refl, (refl, tt))))) (refl, (refl, (refl, (refl, (refl, tt)))))
      (refl, (refl, (refl, (refl, (refl, (refl, (refl, tt)))))))
