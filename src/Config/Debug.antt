-- ===== src/Config/Debug.antt =====
-- The Debug output of src/config.rs: what of a configuration reaches the logs.
use y_delta_crankers.Base.{
  ℕ, ◌≡◌, refl, List, [], ◌∷◌, ◌++◌, Option, none, some, Map, length, codes,
}
use y_delta_crankers.System.Types.{Pubkey, BankInfo}
use y_delta_crankers.System.Host.{Text}
use y_delta_crankers.Config.{
  Config, KeypairSource, path, base58, Network, HandlersConfig, ThresholdsConfig,
}
use y_delta_crankers.Config.Redact.{redact_url, Lacks, redact_url-hides}

-- A value as a formatter prints it: by the derived Debug of its type, or as the text itself.
pub data Shown : Type 0 where
  show_network : Network → Shown
  show_text show_plain : Text → Shown
  show_pubkey : Pubkey → Shown
  show_expected : Option Pubkey → Shown
  show_number : ℕ → Shown
  -- a duration, in seconds
  show_duration : ℕ → Shown
  show_handlers : HandlersConfig → Shown
  show_thresholds : ThresholdsConfig → Shown

unfoldable pub keypair_source_fmt : KeypairSource → Text
keypair_source_fmt (path p) = codes "Path(" ++ (p ++ codes ")")
keypair_source_fmt (base58 secret) = codes "Base58(<redacted>)"

-- What is counted of a registry that may be poisoned, as it is after a panic of a writer.
abbrev pub banks_count : Option (Map BankInfo) → ℕ
banks_count none = 0
banks_count (some banks) = length banks

-- The fields, with the registry read.
unfoldable pub config_fmt : Option (Map BankInfo) → Config → List (Text × Shown)
config_fmt banks cfg =
    (codes "network", show_network cfg.network)
    ∷ (codes "rpc_url", show_text (redact_url cfg.rpc_url))
    ∷ (codes "program_id", show_pubkey cfg.program_id)
    ∷ (codes "marginfi_program_id", show_pubkey cfg.marginfi_program_id)
    ∷ (codes "marginfi_group", show_pubkey cfg.marginfi_group)
    ∷ (codes "fee_payer_keypair", show_plain (keypair_source_fmt cfg.fee_payer_keypair))
    ∷ (codes "fee_payer_expected_pubkey", show_expected cfg.fee_payer_expected_pubkey)
    ∷ (codes "banks_count", show_number (banks_count banks))
    ∷ (codes "handlers", show_handlers cfg.handlers)
    ∷ (codes "thresholds", show_thresholds cfg.thresholds)
    ∷ (codes "priority_fee_micro_lamports", show_number cfg.priority_fee_micro_lamports)
    ∷ (codes "banks_refresh_interval", show_duration cfg.banks_refresh_interval)
    ∷ (codes "curator_keypairs_count", show_number (length cfg.curator_keypairs_base58))
    ∷ []

-- A URL with credentials before the host and in the query.
abbrev pub url_of : Text → Text → Text → Text → Text
url_of scheme userinfo host query =
    (scheme ++ (codes "://" ++ (userinfo ++ (codes "@" ++ host)))) ++ (codes "?" ++ query)

-- The userinfo ends at the first at sign, and no question mark stands in it.
abbrev pub IsUserinfo : Text → Type 0
IsUserinfo userinfo = Lacks 64 userinfo × Lacks 63 userinfo

abbrev pub with_secrets : Config → Text → Text → List Text → Config
with_secrets cfg url secret keys = record cfg {
  rpc_url = url;
  fee_payer_keypair = base58 secret;
  curator_keypairs_base58 = keys;
}

-- For two configurations that differ only in what is secret (the base58 text of the fee payer's
-- key, the texts of the curators' keys, of which there are as many, and the userinfo and the query
-- of an RPC endpoint `scheme://userinfo@host?query` whose scheme has no colon, whose userinfo has
-- no at sign, and in which no question mark stands before the query), the Debug output is the same.
pub config_fmt-hides :
    (banks : Option (Map BankInfo)) (cfg : Config) (scheme host : Text)
    (userinfo userinfo' query query' secret secret' : Text) (keys keys' : List Text)
    → Lacks 58 scheme
    → Lacks 63 scheme
    → Lacks 63 host
    → IsUserinfo userinfo
    → IsUserinfo userinfo'
    → length keys ≡ length keys'
    → config_fmt banks (with_secrets cfg (url_of scheme userinfo host query) secret keys)
      ≡ config_fmt banks (with_secrets cfg (url_of scheme userinfo' host query') secret' keys')
unfolding config_fmt keypair_source_fmt
config_fmt-hides banks cfg scheme host userinfo userinfo' query query' secret secret' keys keys' c q
      h i i' n =
    rw (redact_url-hides scheme userinfo host query c i.0 q i.1 h)
      (rw (redact_url-hides scheme userinfo' host query' c i'.0 q i'.1 h) (rw n refl))
