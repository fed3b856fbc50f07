-- ===== src/Config/Vars.antt =====
-- src/config.rs: one variable of the environment, read and parsed.
use y_delta_crankers.Base.{
  ℕ, Bool, true, false, ◌||◌, List, [], ◌∷◌, Option, none, some, map, codes, bytes_eq, is_prefix,
  u64_max, u32_max, if◌then◌else◌,
}
use y_delta_crankers.Base.Text.{trim, to_ascii_lowercase, parse_unsigned}
use y_delta_crankers.System.Types.{
  Pubkey, missing_var, bad_bool, bad_number, bad_network, invalid_pubkey, bad_curators_json,
}
use y_delta_crankers.System.Action.{Result, ok, err}
use y_delta_crankers.System.Outcome.{ok_or}
use y_delta_crankers.System.Host.{Host, Text}
use y_delta_crankers.Config.{Network, localhost, mainnet}

-- `matches!(v, a | b | ..)` on a text
abbrev pub is_one_of : Text → List Text → Bool
is_one_of v [] = false
is_one_of v (word ∷ words) = bytes_eq v word || is_one_of v words

unfoldable pub network_from_str : Text → Result Network
network_from_str s =
    if is_one_of (to_ascii_lowercase s) (codes "localhost" ∷ codes "local" ∷ [])
    then ok localhost
    else if is_one_of (to_ascii_lowercase s) (codes "mainnet" ∷ codes "mainnet-beta" ∷ [])
    then ok mainnet
    else err (bad_network (to_ascii_lowercase s))

module _ (host : Host) where
  unfoldable pub require_var : Text → Result Text
  require_var name = ok_or (host.var name) (missing_var name)

  unfoldable pub optional_var : Text → Option Text
  optional_var name = host.var name

  abbrev pub bool_of : Text → Bool → Option Text → Result Bool
  bool_of name default none = ok default
  bool_of name default (some v) =
      if is_one_of (to_ascii_lowercase v) (codes "true" ∷ codes "1" ∷ codes "yes" ∷ [])
      then ok true
      else if is_one_of (to_ascii_lowercase v) (codes "false" ∷ codes "0" ∷ codes "no" ∷ [])
      then ok false
      else err (bad_bool name)

  unfoldable pub bool_var : Text → Bool → Result Bool
  bool_var name default = bool_of name default (host.var name)

  -- An unsigned variable of at most `limit`.
  abbrev pub unsigned_of : ℕ → Text → ℕ → Option Text → Result ℕ
  unsigned_of limit name default none = ok default
  unsigned_of limit name default (some v) = ok_or (parse_unsigned limit v) (bad_number name)

  unfoldable pub u64_var : Text → ℕ → Result ℕ
  u64_var name default = unsigned_of u64_max name default (host.var name)

  unfoldable pub u32_var : Text → ℕ → Result ℕ
  u32_var name default = unsigned_of u32_max name default (host.var name)

  unfoldable pub secs_var : Text → ℕ → Result ℕ
  secs_var name default_secs = u64_var name default_secs

  unfoldable pub parse_pubkey : Text → Result Pubkey
  parse_pubkey s = ok_or (host.pubkey_of_text s) (invalid_pubkey s)

  abbrev pub trimmed_texts : Option (List Text) → Result (List Text)
  trimmed_texts none = err bad_curators_json
  trimmed_texts (some texts) = ok (map trim texts)

  -- A JSON array of texts, or one bare text; `trimmed` is what is left between white space.
  abbrev pub curator_keypairs_of : Text → Result (List Text)
  curator_keypairs_of [] = ok []
  curator_keypairs_of (c ∷ s) =
      if is_prefix (codes "[") (c ∷ s)
      then trimmed_texts (host.json_texts (c ∷ s))
      else ok ((c ∷ s) ∷ [])

  unfoldable pub parse_curator_keypairs_json : Text → Result (List Text)
  parse_curator_keypairs_json raw = curator_keypairs_of (trim raw)
