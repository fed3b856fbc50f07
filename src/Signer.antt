-- ===== src/Signer.antt =====
-- src/signer.rs: the keys that the process signs with.
pub mod Loaded
use y_delta_crankers.Base.{
  ℕ, suc, ◌==◌, ◌%◌, Bool, true, false, not, ◌&&◌, List, [], ◌∷◌, Option, none, some, length,
  is_empty, Map, insert, if◌then◌else◌,
}
use y_delta_crankers.Base.Text.{trim}
use y_delta_crankers.System.Types.{
  Pubkey, Keypair, stat_failed, too_permissive, unreadable, bad_keypair_json, bad_keypair_file,
  bad_base58, bad_base58_length, bad_keypair_bytes, bad_curator, no_curators, fee_payer_mismatch,
}
use y_delta_crankers.System.Env.{Env}
use y_delta_crankers.System.Action.{Result, ok, err}
use y_delta_crankers.System.Outcome.{◌>>=◌, ok_or, with_context}
use y_delta_crankers.System.Host.{Host, Text}
use y_delta_crankers.Config.{Config, KeypairSource, path, base58}

pub record Signers : Type 0 where
  pub fee_payer : Keypair
  pub curators : Map Keypair

module _ (env : Env) (host : Host) where
  -- A group- or world-accessible file is refused: `mode & 0o777 & 0o077`.
  abbrev pub check_mode : Text → ℕ → Result (Unit {0})
  check_mode file mode =
      if mode % 512 % 64 == 0 then ok tt else err (too_permissive file (mode % 512))

  unfoldable pub load_keypair_from_file : Text → Result Keypair
  load_keypair_from_file file = do
    mode ← ok_or (host.file_mode file) (stat_failed file)
    checked ← check_mode file mode
    bytes ← ok_or (host.read_file file) (unreadable file)
    arr ← ok_or (host.json_bytes bytes) (bad_keypair_json file)
    ok_or (host.keypair_of_bytes arr) (bad_keypair_file file)

  abbrev pub check_length : List ℕ → Result (Unit {0})
  check_length bytes = if length bytes == 64 then ok tt else err (bad_base58_length (length bytes))

  unfoldable pub load_keypair_from_base58 : Text → Result Keypair
  load_keypair_from_base58 s = do
    bytes ← ok_or (host.base58_decode (trim s)) bad_base58
    checked ← check_length bytes
    ok_or (host.keypair_of_bytes bytes) bad_keypair_bytes

  unfoldable pub load_keypair : KeypairSource → Result Keypair
  load_keypair (path file) = load_keypair_from_file file
  load_keypair (base58 s) = load_keypair_from_base58 s

  abbrev pub check_expected : Keypair → Option Pubkey → Result (Unit {0})
  check_expected fee_payer none = ok tt
  check_expected fee_payer (some expected) =
      if env.pubkey_of fee_payer == expected
      then ok tt
      else err (fee_payer_mismatch (env.pubkey_of fee_payer) expected)

  -- The loop over the configured curator keys, from the position `i` on.
  unfoldable pub load_curators : ℕ → List Text → Map Keypair → Result (Map Keypair)
  load_curators i [] curators = ok curators
  load_curators i (b58 ∷ rest) curators = do
    kp ← with_context (bad_curator i) (load_keypair_from_base58 b58)
    load_curators (suc i) rest (insert (env.pubkey_of kp) kp curators)

  abbrev pub check_curators : Bool → Map Keypair → Result (Unit {0})
  check_curators enabled curators = if enabled && is_empty curators then err no_curators else ok tt

  unfoldable pub load : Config → Result Signers
  load cfg = do
    fee_payer ← load_keypair cfg.fee_payer_keypair
    as_expected ← check_expected fee_payer cfg.fee_payer_expected_pubkey
    curators ← load_curators 0 cfg.curator_keypairs_base58 []
    held ← check_curators cfg.handlers.curator_fee_claimer_enabled curators
    ok (record { fee_payer = fee_payer; curators = curators })
