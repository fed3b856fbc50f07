-- ===== src/System/Host.antt =====
-- What the process is given by its host when it starts: the environment, the files, and the parsers
-- of the crates that read them (serde_json, bs58, solana). Texts are lists of code points; the
-- bytes of a file are bytes.
use y_delta_crankers.Base.{ℕ, List, Option, Bool}
use y_delta_crankers.System.Types.{Pubkey, Keypair}

abbrev pub Text : Type 0
Text = List ℕ

pub record Host : Type 0 where
  -- `std::env::var`; none if the variable is not set or is no text
  pub var : Text → Option Text
  -- the mode bits of a file and its content; none if the call fails
  pub file_mode : Text → Option ℕ
  pub read_file : Text → Option (List ℕ)
  -- `serde_json`, to a list of bytes and to a list of texts
  pub json_bytes : List ℕ → Option (List ℕ)
  pub json_texts : Text → Option (List Text)
  pub base58_decode : Text → Option (List ℕ)
  -- `Keypair::try_from`
  pub keypair_of_bytes : List ℕ → Option Keypair
  -- `Pubkey::from_str`, and the key of the program crate
  pub pubkey_of_text : Text → Option Pubkey
  pub ydelta_id : Pubkey
  pub text_of_pubkey : Pubkey → Text
  -- `SocketAddr::from_str`, and whether the exporter of the metrics can be installed at an address
  pub socket_addr : Text → Option ℕ
  pub install_exporter : ℕ → Bool
